-- ===== src/Boox/Dates.antt =====
-- internal/booxpipeline/store.go: `ReconcileCreatedAtFromFilename`, by the date at the start of a
-- file's name.
use Prim.Native.Char.{code}
use mathlib.Core.Option
use boox_bridge.Prelude.{
  ℕ, zero, suc, ◌+◌, ◌-◌, ◌*◌, String, ◌≡◌, refl, ap, ◌∙◌, inl, inr, Bool, not, ◌&&◌, ◌||◌, Option,
  none, some, if◌then◌else◌, List, [], ◌∷◌, ◌==◌, ltb, leb, Bool-cases,
}
use boox_bridge.Prelude.Int.{ℤ, pos, ltb_int}
use boox_bridge.Prelude.Lists.{length, keep, any-map, any-cong}
use boox_bridge.Boox.Rows.{BooxNote, NoteDb, path_is, change_where}
use boox_bridge.Boox.Linked.{has_note, HasDistinctPaths}

-- filepath.Base, time.Date in UTC in milliseconds, and the year, month and day of such a time.
pub record Calendar : Type 0 where
  pub base_name : String → String
  pub midnight : ℕ → ℕ → ℕ → ℤ
  pub day_of : ℤ → ℕ × ℕ × ℕ

-- A number of `n` decimal digits, and what follows it.
unfoldable pub read_digits : ℕ → ℕ → String → Option (ℕ × String)
read_digits zero value s = some (value, s)
read_digits (suc n) value String.[] = none
read_digits (suc n) value (String.◌∷◌ c s) =
    let rest = read_digits n (value * 10 + (code c - 48)) s in
    if leb 48 (code c) && leb (code c) 57 then rest else none

-- filenameDatePrefixRE
unfoldable pub date_prefix : String → Option (ℕ × ℕ × ℕ)
unfolding read_digits
date_prefix s = Option.bind (read_digits 4 0 s) (λ y.
    Option.bind (read_digits 2 0 y.1)
      (λ m. Option.bind (read_digits 2 0 m.1) (λ d. some (y.0, m.0, d.0))))

unfoldable pub is_plausible : ℕ → ℕ → ℕ → Bool
is_plausible y m d =
    not (ltb y 1970 || (ltb 2999 y || (ltb m 1 || (ltb 12 m || (ltb d 1 || ltb 31 d)))))

unfoldable pub same_day : ℕ × ℕ × ℕ → ℕ × ℕ × ℕ → Bool
same_day (y, m, d) (y', m', d') = y == y' && (m == m' && d == d')

-- The time that a note should have, where that is another day.
unfoldable pub corrected : Calendar → ℤ → Option (ℕ × ℕ × ℕ) → Option ℤ
unfolding is_plausible same_day
corrected cal created_at none = none
corrected cal created_at (some (y, m, d)) =
    let target = cal.midnight y m d in
    if not (is_plausible y m d)
    then none
    else if ltb_int (pos 0) created_at && same_day (cal.day_of created_at) (cal.day_of target)
    then none
    else some target

unfoldable pub add_update : String → Option ℤ → List (String × ℤ) → List (String × ℤ)
add_update path none updates = updates
add_update path (some t) updates = (path, t) ∷ updates

unfoldable pub updates_of : Calendar → List BooxNote → List (String × ℤ)
unfolding date_prefix corrected add_update
updates_of cal [] = []
updates_of cal (n ∷ notes) =
    add_update n.path (corrected cal n.created_at (date_prefix (cal.base_name n.path)))
      (updates_of cal notes)

unfoldable pub dated : ℤ → ℤ → BooxNote → BooxNote
dated now t n = record n { created_at = t; updated_at = now }

-- The rows that the updates leave, and how many they change.
unfoldable pub apply_updates : ℤ → List (String × ℤ) → List BooxNote → List BooxNote × ℕ
unfolding change_where path_is dated
apply_updates now [] notes = (notes, 0)
apply_updates now ((path, t) ∷ updates) notes =
    let (notes', n) = apply_updates now updates (change_where (path_is path) (dated now t) notes) in
    (notes', length (keep (path_is path) notes) + n)

unfoldable pub reconcile_created_at_from_filename : Calendar → ℤ → NoteDb → ℕ × NoteDb
unfolding updates_of apply_updates
reconcile_created_at_from_filename cal now db =
    let (notes, n) = apply_updates now (updates_of cal db.notes) db.notes in
    (n, record db { notes = notes })

-- A change of rows that keeps their paths.
module _ (p : BooxNote → Bool) (change : BooxNote → BooxNote)
    (same : (n : BooxNote) → (change n).path ≡ n.path) where
  has_note-keeps :
      (notes : List BooxNote) (q : String)
      → has_note (change_where p change notes) q ≡ has_note notes q
  unfolding has_note change_where path_is
  has_note-keeps notes q = any-map _ _ notes ∙ any-cong _ _ notes each
    where
      each : (n : BooxNote) → path_is q (if p n then change n else n) ≡ path_is q n
      each n = elim (Bool-cases (p n)) [
        | inl e ↦ rw e (unfold path_is in ap (λ r. path_is q (record n { path = r })) (same n))
        | inr e ↦ rw e refl
      ]

  keeps-HasDistinctPaths :
      (notes : List BooxNote)
      → HasDistinctPaths notes
      → HasDistinctPaths (change_where p change notes)
  unfolding change_where
  keeps-HasDistinctPaths [] h = h
  keeps-HasDistinctPaths (n ∷ notes) h =
      let rest = keeps-HasDistinctPaths notes h.1 in
      elim (Bool-cases (p n)) [
        | inl e ↦ rw e (
          ap (has_note (change_where p change notes)) (same n) ∙ has_note-keeps notes n.path ∙ h.0,
          rest,
        )
        | inr e ↦ rw e (has_note-keeps notes n.path ∙ h.0, rest)
      ]

pub apply_updates-keeps :
    (now : ℤ) (updates : List (String × ℤ)) (notes : List BooxNote)
    → HasDistinctPaths notes
    → HasDistinctPaths (apply_updates now updates notes).0
      × ((q : String) → has_note (apply_updates now updates notes).0 q ≡ has_note notes q)
unfolding apply_updates
apply_updates-keeps now [] notes h = (h, λ q. refl)
apply_updates-keeps now ((path, t) ∷ updates) notes h =
    let (distinct, kept) =
      apply_updates-keeps now updates (change_where (path_is path) (dated now t) notes)
        (keeps-HasDistinctPaths (path_is path) (dated now t) (λ n. unfold dated in refl) notes h) in
    (
      distinct,
      λ q. kept q ∙ has_note-keeps (path_is path) (dated now t) (λ n. unfold dated in refl) notes q,
    )
