-- ===== src/Supernote/Visits.antt =====
-- What the walk of Scan does at one file.
use boox_bridge.Prelude.{
  String, ◌≡◌, refl, ◌∙◌, inl, inr, Bool, true, false, not, ◌&&◌, ◌||◌, Option, none, some, List,
  [], ◌∷◌, ◌++◌, Bool-cases, arith,
}
use boox_bridge.Prelude.Text.{str_eq, eq_iff}
use boox_bridge.Prelude.Int.{ℤ, eqb_int}
use boox_bridge.Prelude.Lists.{map-append}
use boox_bridge.Prelude.Keys.{has-append, has-eqb}
use boox_bridge.Notedb.{first_row-some, map-change_where}
use boox_bridge.Supernote.Rows.{NoteRow, first_row, change_where, at_path}
use boox_bridge.Supernote.Notes.{
  FileInfo, Entry, Walk, new_note, refreshed_note, visit_known, visit_file,
}
use boox_bridge.Supernote.Integrity.{note_paths, has_path, any-note_paths}

-- The paths of the files whose state the walk can read.
abbrev pub read_paths : List Entry → List String
read_paths [] = []
read_paths (Entry.unreadable path ∷ es) = read_paths es
read_paths (Entry.directory path ∷ es) = read_paths es
read_paths (Entry.file path none ∷ es) = read_paths es
read_paths (Entry.file path (some info) ∷ es) = path ∷ read_paths es

abbrev pub differs : FileInfo → Option NoteRow → Bool
differs info none = true
differs info (some n) = not (eqb_int n.mtime info.mtime)

-- Such a file at a path is not in the notes, or there with another time of change.
abbrev pub is_changed : List NoteRow → List Entry → String → Bool
is_changed notes [] p = false
is_changed notes (Entry.unreadable path ∷ es) p = is_changed notes es p
is_changed notes (Entry.directory path ∷ es) p = is_changed notes es p
is_changed notes (Entry.file path none ∷ es) p = is_changed notes es p
is_changed notes (Entry.file path (some info) ∷ es) p =
    (str_eq path p && differs info (first_row (at_path path) notes)) || is_changed notes es p

-- The visit of one file.
module _ (now : ℤ) (path : String) (info : FileInfo) (w : Walk) where
  visit_known-seen : (n : NoteRow) → (visit_known now path info n w).seen ≡ w.seen
  unfolding visit_known
  visit_known-seen n = elim (Bool-cases (eqb_int n.mtime info.mtime)) [
    | inl e ↦ rw e refl
    | inr e ↦ rw e refl
  ]

  pub visit_file-seen : (o : Option NoteRow) → (visit_file now path info o w).seen ≡ w.seen
  unfolding visit_file
  visit_file-seen none = refl
  visit_file-seen (some n) = visit_known-seen n

  visit_known-jobs : (n : NoteRow) → (visit_known now path info n w).db.jobs ≡ w.db.jobs
  unfolding visit_known
  visit_known-jobs n = elim (Bool-cases (eqb_int n.mtime info.mtime)) [
    | inl e ↦ rw e refl
    | inr e ↦ rw e refl
  ]

  pub visit_file-jobs : (o : Option NoteRow) → (visit_file now path info o w).db.jobs ≡ w.db.jobs
  unfolding visit_file
  visit_file-jobs none = refl
  visit_file-jobs (some n) = visit_known-jobs n

  pub visit_file-changed :
      (o : Option NoteRow) (p : String)
      → has_path (visit_file now path info o w).changed p
        ≡ has_path w.changed p || (str_eq path p && differs info o)
  unfolding visit_file visit_known
  visit_file-changed none p = has-append str_eq eq_iff w.changed path p ∙ ground arith
  visit_file-changed (some n) p = elim (Bool-cases (eqb_int n.mtime info.mtime)) [
    | inl e ↦ rw e (ground arith)
    | inr e ↦ rw e (has-append str_eq eq_iff w.changed path p ∙ ground arith)
  ]

  refreshed_paths :
      (notes : List NoteRow)
      → note_paths (change_where (at_path path) (refreshed_note now info) notes) ≡ note_paths notes
  refreshed_paths notes =
      map-change_where (λ (n : NoteRow). n.path) (at_path path) (refreshed_note now info) notes
        (λ n. unfold refreshed_note in refl)

  pub visit_file-notes :
      (o : Option NoteRow) (p : String)
      → first_row (at_path path) w.db.notes ≡ o
      → has_path (note_paths (visit_file now path info o w).db.notes) p
        ≡ has_path (note_paths w.db.notes) p || str_eq path p
  unfolding visit_file visit_known
  visit_file-notes none p e =
      rw (map-append (λ (n : NoteRow). n.path) w.db.notes (new_note now path info ∷ []))
        (unfold new_note in has-append str_eq eq_iff (note_paths w.db.notes) path p)
  visit_file-notes (some n) p e = elim (Bool-cases (eqb_int n.mtime info.mtime)) [
    | inl t ↦ rw t known
    | inr t ↦ rw (t, refreshed_paths w.db.notes) known
  ]
    where
      there : has_path (note_paths w.db.notes) path ≡ true
      there = any-note_paths path w.db.notes ∙ first_row-some (at_path path) w.db.notes n e

      known :
          has_path (note_paths w.db.notes) p ≡ has_path (note_paths w.db.notes) p || str_eq path p
      known =
          ground (arith, there, eq_iff path p, has-eqb str_eq eq_iff (note_paths w.db.notes) path p)

  -- What is found at another path is as before.
  first_row-append :
      (q : String) (notes : List NoteRow)
      → str_eq path q ≡ false
      → first_row (at_path q) (notes ++ new_note now path info ∷ []) ≡ first_row (at_path q) notes
  unfolding first_row at_path new_note
  first_row-append q [] other = rw other refl
  first_row-append q (n ∷ notes) other = rw (first_row-append q notes other) refl

  first_row-refreshed :
      (q : String) (notes : List NoteRow)
      → str_eq path q ≡ false
      → first_row (at_path q) (change_where (at_path path) (refreshed_note now info) notes)
        ≡ first_row (at_path q) notes
  unfolding first_row at_path change_where refreshed_note
  first_row-refreshed q [] other = refl
  first_row-refreshed q (n ∷ notes) other = elim (Bool-cases (str_eq n.path path)) [
    | inl m ↦
        let own : str_eq n.path q ≡ false = ground (arith, m, other, eq_iff n.path path) in
        rw (m, own, first_row-refreshed q notes other) refl
    | inr m ↦ rw (m, first_row-refreshed q notes other) refl
  ]

  pub visit_file-other :
      (o : Option NoteRow) (q : String)
      → str_eq path q ≡ false
      → first_row (at_path q) (visit_file now path info o w).db.notes
        ≡ first_row (at_path q) w.db.notes
  unfolding visit_file visit_known
  visit_file-other none q other = first_row-append q w.db.notes other
  visit_file-other (some n) q other = elim (Bool-cases (eqb_int n.mtime info.mtime)) [
    | inl t ↦ rw t refl
    | inr t ↦ rw t (first_row-refreshed q w.db.notes other)
  ]
