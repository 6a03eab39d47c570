-- ===== src/Prelude/Keys.antt =====
-- Lists of keys: which keys they have, whether one occurs twice, and what a change of them does.
use mathlib.Core.Path.{◌≡◌, refl, ap, ◌∙◌}
use mathlib.Core.Logic.{◌↔◌, inl, inr}
use mathlib.Core.Bool.{Bool, true, false, not, ◌&&◌, ◌||◌}
use mathlib.Core.List.{List, [], ◌∷◌, ◌++◌, map}
use native.Mathlib.Omega.{arith}
use boox_bridge.Prelude.Tests.{if◌then◌else◌, Bool-cases}
use boox_bridge.Prelude.Lists.{keep, any}

module _ {K : Type 0} (eqb : K → K → Bool) (eqb_iff : (a b : K) → (eqb a b ≡ true) ↔ (a ≡ b)) where
  unfoldable pub has : List K → K → Bool
  has ks k = any (λ q. eqb q k) ks

  abbrev pub IsDistinct : List K → Type 0
  IsDistinct [] = Unit
  IsDistinct (k ∷ ks) = (has ks k ≡ false) × IsDistinct ks

  pub has-eqb : (ks : List K) (a b : K) → eqb a b ≡ true → has ks a ≡ has ks b
  has-eqb ks a b e = ap (has ks) ((eqb_iff a b).0 e)

  pub has-append : (ks : List K) (a k : K) → has (ks ++ a ∷ []) k ≡ has ks k || eqb a k
  unfolding has any
  has-append [] a k = ground arith
  has-append (b ∷ ks) a k = ground (arith, has-append ks a k)

  pub append-IsDistinct :
      (ks : List K) (a : K) → has ks a ≡ false → IsDistinct ks → IsDistinct (ks ++ a ∷ [])
  append-IsDistinct [] a free h = (unfold has any in refl, tt)
  append-IsDistinct (k ∷ ks) a free h = (
    has-append ks a k ∙ unfold has any in ground (arith, h.0, free, eqb_iff k a, eqb_iff a k),
    append-IsDistinct ks a (unfold has any in ground (arith, free)) h.1,
  )

  -- Keys that pass a test.
  pub has-keep : (p : K → Bool) (ks : List K) (k : K) → has (keep p ks) k ≡ has ks k && p k
  unfolding has keep any
  has-keep p [] k = ground arith
  has-keep p (a ∷ ks) k = elim (Bool-cases (eqb a k)) [
    | inl e ↦
        let same : p a ≡ p k = ap p ((eqb_iff a k).0 e) in
        elim (Bool-cases (p a)) [
          | inl m ↦ rw (m, e) (ground (arith, same, m))
          | inr m ↦ rw (m, has-keep p ks k) (ground (arith, same, m))
        ]
    | inr e ↦ elim (Bool-cases (p a)) [
      | inl m ↦ rw (m, e, has-keep p ks k) refl
      | inr m ↦ rw (m, e, has-keep p ks k) refl
    ]
  ]

  pub keep-IsDistinct : (p : K → Bool) (ks : List K) → IsDistinct ks → IsDistinct (keep p ks)
  unfolding keep
  keep-IsDistinct p [] h = h
  keep-IsDistinct p (a ∷ ks) h =
      let rest = keep-IsDistinct p ks h.1 in
      elim (Bool-cases (p a)) [
        | inl m ↦ rw m (has-keep p ks a ∙ ground (arith, h.0), rest)
        | inr m ↦ rw m rest
      ]

  -- One key becomes another.
  unfoldable pub rename_key : K → K → K → K
  rename_key old new k = if eqb k old then new else k

  pub has-rename :
      (old new : K) (ks : List K) (k : K)
      → has (map (rename_key old new) ks) k
        ≡ (if eqb k new then has ks new || has ks old else if eqb k old then false else has ks k)
  unfolding has rename_key any
  has-rename old new [] k = ground arith
  has-rename old new (a ∷ ks) k = elim (Bool-cases (eqb a old)) [
    | inl e ↦
        rw (e, has-rename old new ks k)
          (ground (arith, eqb_iff a old, eqb_iff a k, eqb_iff k old, eqb_iff new k, eqb_iff k new))
    | inr e ↦
        rw (e, has-rename old new ks k)
          (ground (arith, eqb_iff a k, eqb_iff a new, eqb_iff k old, eqb_iff k new))
  ]

  pub rename-IsDistinct :
      (old new : K) (ks : List K)
      → not (eqb old new) && (has ks old && has ks new) ≡ false
      → IsDistinct ks
      → IsDistinct (map (rename_key old new) ks)
  unfolding rename_key
  rename-IsDistinct old new [] free h = tt
  rename-IsDistinct old new (a ∷ ks) free h =
      let rest = rename-IsDistinct old new ks (ground (arith, freed)) h.1 in
      elim (Bool-cases (eqb a old)) [
        | inl e ↦ rw e (
          has-rename old new ks new
              ∙ ground
                  (arith, freed, e, h.0, eqb_iff new new, has-eqb ks a old, has-eqb ks old new),
          rest,
        )
        | inr e ↦ rw e (
          has-rename old new ks a
              ∙ ground (
                arith,
                freed,
                e,
                h.0,
                has-eqb ks a new,
                eqb_iff old new,
                eqb_iff a old,
                eqb_iff a new,
              ),
          rest,
        )
      ]
    where
      freed : not (eqb old new) && ((eqb a old || has ks old) && (eqb a new || has ks new)) ≡ false
      freed = unfold has any in free

  -- What is kept of two lists of which one has all keys of the other.
  pub has-rename_mono :
      (old new : K) (ks ls : List K)
      → ((k : K) → has ks k ≡ true → has ls k ≡ true)
      → (k : K) → has (map (rename_key old new) ks) k ≡ true
      → has (map (rename_key old new) ls) k ≡ true
  has-rename_mono old new ks ls more k h =
      has-rename old new ls k
      ∙ ground (arith, h, has-rename old new ks k, more new, more old, more k)

-- The keys of rows that pass a test.
module _ {A K : Type 0} (eqb : K → K → Bool) (eqb_iff : (a b : K) → (eqb a b ≡ true) ↔ (a ≡ b))
    (key : A → K) (p : A → Bool) where
  has-keep_rows :
      (rows : List A) (k : K)
      → has eqb eqb_iff (map key rows) k ≡ false
      → has eqb eqb_iff (map key (keep p rows)) k ≡ false
  unfolding has keep any
  has-keep_rows [] k h = refl
  has-keep_rows (r ∷ rows) k h = ground (arith, has-keep_rows rows k)

  pub keep_rows-IsDistinct :
      (rows : List A)
      → IsDistinct eqb eqb_iff (map key rows)
      → IsDistinct eqb eqb_iff (map key (keep p rows))
  unfolding keep
  keep_rows-IsDistinct [] h = h
  keep_rows-IsDistinct (r ∷ rows) h =
      let rest = keep_rows-IsDistinct rows h.1 in
      elim (Bool-cases (p r)) [
        | inl m ↦ rw m (has-keep_rows rows (key r) h.0, rest)
        | inr m ↦ rw m rest
      ]
