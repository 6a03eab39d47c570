-- ===== src/Boox/Linked.antt =====
-- What the foreign key of boox_jobs, the primary key of boox_notes and the sequence ask of the tables,
-- and what the statements of the store do to each.
use boox_bridge.Prelude.{
  ℕ, ◌≤◌, ◌<◌, String, ◌≡◌, refl, sym, ap, ◌∙◌, inl, inr, Bool, true, false, not, ◌&&◌, ◌||◌, List,
  [], ◌∷◌, ◌++◌, map, Bool-cases, arith,
}
use boox_bridge.Prelude.Text.{str_eq, eq_iff}
use boox_bridge.Prelude.Lists.{keep, any, any-map, any-cong}
use boox_bridge.Boox.Rows.{BooxNote, BooxJob, path_is, of_note}
use boox_bridge.Boox.Notes.{refreshed, upsert_row, insert_or_ignore}

unfoldable pub has_note : List BooxNote → String → Bool
unfolding path_is
has_note notes path = any (path_is path) notes

-- Some job has no note.
unfoldable pub dangling : List BooxNote → List BooxJob → Bool
unfolding has_note
dangling notes jobs = any (λ (j : BooxJob). not (has_note notes j.note_path)) jobs

abbrev pub HasDistinctPaths : List BooxNote → Type 0
HasDistinctPaths [] = Unit
HasDistinctPaths (n ∷ notes) = (has_note notes n.path ≡ false) × HasDistinctPaths notes

-- The ids rise from above `low` to at most `sequence`.
abbrev pub Ascending : ℕ → List BooxJob → ℕ → Type 0
Ascending low [] sequence = low ≤ sequence
Ascending low (j ∷ jobs) sequence = (low < j.id) × Ascending j.id jobs sequence

pub dangling-map :
    (notes : List BooxNote) (g : BooxJob → BooxJob) (jobs : List BooxJob)
    → ((j : BooxJob) → (g j).note_path ≡ j.note_path)
    → dangling notes (map g jobs) ≡ dangling notes jobs
unfolding dangling
dangling-map notes g jobs same =
    any-map _ g jobs ∙ any-cong _ _ jobs (λ j. ap (λ p. not (has_note notes p)) (same j))

pub dangling-grow :
    (notes notes' : List BooxNote) (jobs : List BooxJob)
    → ((p : String) → has_note notes p ≡ true → has_note notes' p ≡ true)
    → dangling notes jobs ≡ false
    → dangling notes' jobs ≡ false
unfolding dangling any
dangling-grow notes notes' [] more h = refl
dangling-grow notes notes' (j ∷ jobs) more h =
    let rest = dangling-grow notes notes' jobs more in ground (arith, rest, more j.note_path)

pub dangling-append :
    (notes : List BooxNote) (jobs : List BooxJob) (j : BooxJob)
    → dangling notes jobs ≡ false
    → has_note notes j.note_path ≡ true
    → dangling notes (jobs ++ j ∷ []) ≡ false
unfolding dangling any
dangling-append notes [] j h k = ground arith
dangling-append notes (i ∷ jobs) j h k = ground (arith, dangling-append notes jobs j)

pub has_note-upsert_row :
    (new : BooxNote) (notes : List BooxNote) (p : String)
    → has_note (upsert_row new notes) p ≡ has_note notes p || str_eq new.path p
unfolding has_note upsert_row any refreshed
has_note-upsert_row new [] p = ground arith
has_note-upsert_row new (n ∷ notes) p = ground (
  arith,
  has_note-upsert_row new notes p,
  eq_iff n.path new.path,
  eq_iff n.path p,
  eq_iff new.path p,
)

pub upsert_row-HasDistinctPaths :
    (new : BooxNote) (notes : List BooxNote)
    → HasDistinctPaths notes
    → HasDistinctPaths (upsert_row new notes)
unfolding upsert_row path_is refreshed
upsert_row-HasDistinctPaths new [] h = (unfold has_note any in refl, tt)
upsert_row-HasDistinctPaths new (n ∷ notes) h = elim (Bool-cases (str_eq n.path new.path)) [
  | inl e ↦ rw e h
  | inr e ↦ rw e (
    has_note-upsert_row new notes n.path
        ∙ ground (arith, h.0, eq_iff n.path new.path, eq_iff new.path n.path),
    upsert_row-HasDistinctPaths new notes h.1,
  )
]

has_note-append :
    (notes : List BooxNote) (n : BooxNote) (p : String)
    → has_note (notes ++ n ∷ []) p ≡ has_note notes p || str_eq n.path p
unfolding has_note any
has_note-append [] n p = ground arith
has_note-append (m ∷ notes) n p = ground (arith, has_note-append notes n p)

append-HasDistinctPaths :
    (notes : List BooxNote) (n : BooxNote)
    → has_note notes n.path ≡ false
    → HasDistinctPaths notes
    → HasDistinctPaths (notes ++ n ∷ [])
append-HasDistinctPaths [] n free h = (unfold has_note any in refl, tt)
append-HasDistinctPaths (m ∷ notes) n free h = (
  has_note-append notes n m.path
      ∙ unfold has_note any in
        ground (arith, h.0, free, eq_iff n.path m.path, eq_iff m.path n.path),
  append-HasDistinctPaths notes n (unfold has_note any in ground (arith, free)) h.1,
)

pub has_note-insert_or_ignore :
    (new : BooxNote) (notes : List BooxNote) (p : String)
    → has_note (insert_or_ignore new notes) p ≡ has_note notes p || str_eq new.path p
unfolding insert_or_ignore
has_note-insert_or_ignore new notes p = elim (Bool-cases (any (path_is new.path) notes)) [
  | inl e ↦ rw e (ground (arith, own e))
  | inr e ↦ rw e (has_note-append notes new p)
]
  where
    own : any (path_is new.path) notes ≡ true → str_eq new.path p ≡ true → has_note notes p ≡ true
    own e same =
        unfold has_note in ap (λ q. any (path_is q) notes) (sym ((eq_iff new.path p).0 same)) ∙ e

pub insert_or_ignore-HasDistinctPaths :
    (new : BooxNote) (notes : List BooxNote)
    → HasDistinctPaths notes
    → HasDistinctPaths (insert_or_ignore new notes)
unfolding insert_or_ignore
insert_or_ignore-HasDistinctPaths new notes h = elim (Bool-cases (any (path_is new.path) notes)) [
  | inl e ↦ rw e h
  | inr e ↦ rw e (append-HasDistinctPaths notes new (unfold has_note in e) h)
]

has_note-keep :
    (path : String) (notes : List BooxNote) (p : String)
    → has_note (keep (λ n. not (path_is path n)) notes) p ≡ has_note notes p && not (str_eq p path)
unfolding has_note keep path_is any
has_note-keep path [] p = ground arith
has_note-keep path (n ∷ notes) p =
    ground (arith, has_note-keep path notes p, eq_iff n.path path, eq_iff n.path p, eq_iff p path)

pub keep-HasDistinctPaths :
    (path : String) (notes : List BooxNote)
    → HasDistinctPaths notes
    → HasDistinctPaths (keep (λ n. not (path_is path n)) notes)
unfolding keep
keep-HasDistinctPaths path [] h = h
keep-HasDistinctPaths path (n ∷ notes) h =
    let rest = keep-HasDistinctPaths path notes h.1 in
    elim (Bool-cases (path_is path n)) [
      | inl e ↦ rw e rest
      | inr e ↦ rw e (has_note-keep path notes n.path ∙ ground (arith, h.0), rest)
    ]

-- The jobs of the notes that stay have them still.
pub dangling-keep :
    (path : String) (notes : List BooxNote) (jobs : List BooxJob)
    → dangling notes jobs ≡ false
    → dangling (keep (λ n. not (path_is path n)) notes) (keep (λ j. not (of_note path j)) jobs)
      ≡ false
unfolding dangling keep any of_note
dangling-keep path notes [] h = refl
dangling-keep path notes (j ∷ jobs) h =
    ground (arith, dangling-keep path notes jobs, has_note-keep path notes j.note_path)
