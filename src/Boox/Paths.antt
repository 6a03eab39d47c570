-- ===== src/Boox/Paths.antt =====
-- A note's path changes: what it means for the keys of the notes and the notes of the jobs.
use boox_bridge.Prelude.{
  String, ◌≡◌, refl, ap, subst, ◌∙◌, inl, inr, true, false, not, ◌&&◌, ◌||◌, if◌then◌else◌, List,
  [], ◌∷◌, Bool-cases, arith,
}
use boox_bridge.Prelude.Text.{str_eq, eq_iff}
use boox_bridge.Prelude.Lists.{any}
use boox_bridge.Prelude.Result.{ok, ok-injective}
use boox_bridge.Boox.Rows.{BooxNote, BooxJob, path_is, change_where}
use boox_bridge.Boox.Notes.{renamed, rename_notes, rename_jobs}
use boox_bridge.Boox.Linked.{has_note, dangling, HasDistinctPaths}

pub dangling-rename_jobs :
    (old new : String) (notes notes' : List BooxNote) (jobs : List BooxJob)
    → ((p : String) → has_note notes p ≡ true → has_note notes' (renamed old new p) ≡ true)
    → dangling notes jobs ≡ false
    → dangling notes' (rename_jobs old new jobs) ≡ false
unfolding dangling any rename_jobs
dangling-rename_jobs old new notes notes' [] more h = refl
dangling-rename_jobs old new notes notes' (j ∷ jobs) more h =
    let rest = dangling-rename_jobs old new notes notes' jobs more in
    ground (arith, rest, more j.note_path)

-- The rows of one path get another.
module _ (old new : String) (change : BooxNote → BooxNote)
    (to_new : (n : BooxNote) → (change n).path ≡ new) where
  has_note-change_where :
      (notes : List BooxNote) (p : String)
      → has_note (change_where (path_is old) change notes) p ≡ (
          if str_eq p new
          then has_note notes new || has_note notes old
          else if str_eq p old
          then false
          else has_note notes p)
  unfolding has_note change_where path_is any
  has_note-change_where [] p = ground arith
  has_note-change_where (n ∷ notes) p = elim (Bool-cases (str_eq n.path old)) [
    | inl e ↦
        rw (e, to_new n, has_note-change_where notes p)
          (ground
            (arith, eq_iff n.path old, eq_iff n.path p, eq_iff p old, eq_iff new p, eq_iff p new))
    | inr e ↦
        rw (e, has_note-change_where notes p)
          (ground (arith, eq_iff n.path p, eq_iff n.path new, eq_iff p old, eq_iff p new))
  ]

  has_note-path :
      (notes : List BooxNote) (p q : String)
      → str_eq p q ≡ true
      → has_note notes p ≡ has_note notes q
  has_note-path notes p q same = ap (has_note notes) ((eq_iff p q).0 same)

  change_where-HasDistinctPaths :
      (notes : List BooxNote)
      → not (str_eq old new) && (has_note notes old && has_note notes new) ≡ false
      → HasDistinctPaths notes
      → HasDistinctPaths (change_where (path_is old) change notes)
  unfolding change_where path_is
  change_where-HasDistinctPaths [] free h = tt
  change_where-HasDistinctPaths (n ∷ notes) free h =
      let rest = change_where-HasDistinctPaths notes (ground (arith, freed)) h.1 in
      elim (Bool-cases (str_eq n.path old)) [
        | inl e ↦ rw e (
          rw (to_new n) (
              has_note-change_where notes new
              ∙ ground (
                arith,
                freed,
                e,
                h.0,
                eq_iff new new,
                has_note-path notes n.path old,
                has_note-path notes old new,
              )),
          rest,
        )
        | inr e ↦ rw e (
          has_note-change_where notes n.path
              ∙ ground (
                arith,
                freed,
                e,
                h.0,
                has_note-path notes n.path new,
                eq_iff old new,
                eq_iff n.path old,
                eq_iff n.path new,
              ),
          rest,
        )
      ]
    where
      freed :
          not (str_eq old new)
            && ((str_eq n.path old || has_note notes old)
                && (str_eq n.path new || has_note notes new))
          ≡ false
      freed = unfold has_note path_is any in free

  pub rename_notes-HasDistinctPaths :
      (notes notes' : List BooxNote)
      → rename_notes old new change notes ≡ ok notes'
      → HasDistinctPaths notes
      → HasDistinctPaths notes'
        × ((p : String) → has_note notes p ≡ true → has_note notes' (renamed old new p) ≡ true)
  unfolding rename_notes
  rename_notes-HasDistinctPaths notes notes' e h =
      elim (Bool-cases
        (not (str_eq old new) && (any (path_is old) notes && any (path_is new) notes))) [
          | inl k ↦ cc (rw k at e)
          | inr k ↦
              subst
                (λ l.
                  HasDistinctPaths l
                  × ((p : String)
                      → has_note notes p ≡ true
                      → has_note l (renamed old new p) ≡ true))
                (ok-injective (rw k at e))
                (
                  change_where-HasDistinctPaths notes (unfold has_note in k) h,
                  λ p there. has_note-change_where notes (renamed old new p) ∙ kept p there k,
                )
        ]
    where
      kept :
          (p : String)
          → has_note notes p ≡ true
          → not (str_eq old new) && (any (path_is old) notes && any (path_is new) notes) ≡ false
          → (if str_eq (renamed old new p) new
              then has_note notes new || has_note notes old
              else if str_eq (renamed old new p) old
              then false
              else has_note notes (renamed old new p))
            ≡ true
      kept p there k = elim (Bool-cases (str_eq p old)) [
        | inl e ↦
            unfold renamed in
            rw e (ground (arith, there, e, eq_iff new new, has_note-path notes p old))
        | inr e ↦
            unfold renamed in
            rw e (ground (arith, there, e, eq_iff p new, has_note-path notes p new))
      ]
