-- ===== src/Sync/Store/Selection.antt =====
-- The rows that `OpsSince` selects: their order, and what is selected after some of them.
use boox_bridge.Prelude.{
  ℕ, zero, suc, ◌≤◌, ◌<◌, String, ◌≡◌, refl, sym, ap, ◌∙◌, inl, inr, Bool, true, false, List, [],
  ◌∷◌, ◌++◌, Bool-cases, arith,
}
use text.Mathlib.Text.{◌==◌ as str_eq}
use boox_bridge.Prelude.Int.{ℤ, pos, ltb_int, not-lt_trans, ltb_int_irrefl, ltb_int_asym}
use boox_bridge.Sync.Store.{LogRow}
use boox_bridge.Sync.Store.Relay.{is_relayed, relayed, take}

abbrev pub drop {ℓ} : {A : Type ℓ} → ℕ → List A → List A
drop zero xs = xs
drop (suc n) [] = []
drop (suc n) (x ∷ xs) = drop n xs

abbrev pub nonempty {ℓ} : {A : Type ℓ} → List A → Bool
nonempty [] = false
nonempty (x ∷ xs) = true

module _ {P : Type 0} where
  -- The numbers of the rows ascend from above `b`.
  abbrev pub Ascends : ℕ → List (LogRow P) → Type 0
  Ascends b [] = Unit
  Ascends b (r ∷ rs) = (b < r.seq) × Ascends r.seq rs

  abbrev pub AllOthers : String → List (LogRow P) → Type 0
  AllOthers site [] = Unit
  AllOthers site (r ∷ rs) = (str_eq r.site_id site ≡ false) × AllOthers site rs

  pub Ascends-weaken : (a b : ℕ) (rs : List (LogRow P)) → a ≤ b → Ascends b rs → Ascends a rs
  Ascends-weaken a b [] h k = tt
  Ascends-weaken a b (r ∷ rs) h k = (omega arith, k.1)

  pub relayed-Ascends :
      (cursor : ℤ) (site : String) (b : ℕ) (rs : List (LogRow P))
      → Ascends b rs
      → Ascends b (relayed cursor site rs)
  unfolding relayed
  relayed-Ascends cursor site b [] h = tt
  relayed-Ascends cursor site b (r ∷ rs) h = elim (Bool-cases (is_relayed cursor site r)) [
    | inl e ↦ rw e (h.0, relayed-Ascends cursor site r.seq rs h.1)
    | inr e ↦
        rw e (Ascends-weaken b r.seq _ (omega arith) (relayed-Ascends cursor site r.seq rs h.1))
  ]

  pub relayed-AllOthers :
      (cursor : ℤ) (site : String) (rs : List (LogRow P)) → AllOthers site (relayed cursor site rs)
  unfolding relayed
  relayed-AllOthers cursor site [] = tt
  relayed-AllOthers cursor site (r ∷ rs) = elim (Bool-cases (is_relayed cursor site r)) [
    | inl e ↦ rw e (unfold is_relayed in ground arith, relayed-AllOthers cursor site rs)
    | inr e ↦ rw e (relayed-AllOthers cursor site rs)
  ]

  pub relayed_below :
      (b : ℕ) (site : String) (rs : List (LogRow P))
      → Ascends b rs
      → AllOthers site rs
      → relayed (pos b) site rs ≡ rs
  unfolding relayed is_relayed
  relayed_below b site [] h o = refl
  relayed_below b site (r ∷ rs) h o =
      ground (arith, relayed_below b site rs (Ascends-weaken b r.seq rs (omega arith) h.1) o.1)

  -- The number of the last row, `cursor` where there is none.
  unfoldable pub last_cursor : ℤ → List (LogRow P) → ℤ
  last_cursor cursor [] = cursor
  last_cursor cursor (r ∷ rs) = last_cursor (pos r.seq) rs

  pub last_cursor-ge :
      (m b n : ℕ) (rs : List (LogRow P))
      → m ≤ b
      → Ascends b rs
      → ltb_int (last_cursor (pos b) (take n rs)) (pos m) ≡ false
  unfolding last_cursor take
  last_cursor-ge m b zero rs h k = ground arith
  last_cursor-ge m b (suc n) [] h k = ground arith
  last_cursor-ge m b (suc n) (r ∷ rs) h k = last_cursor-ge m r.seq n rs (omega arith) k.1

  pub is_relayed_again :
      (c d : ℤ) (site : String) (r : LogRow P)
      → ltb_int d c ≡ false
      → is_relayed c site r ≡ false
      → is_relayed d site r ≡ false
  unfolding is_relayed
  is_relayed_again c d site r h e = ground (arith, not-lt_trans d c (pos r.seq))

  pub relayed_again :
      (c d : ℤ) (site : String) (rs : List (LogRow P))
      → ltb_int d c ≡ false
      → relayed d site (relayed c site rs) ≡ relayed d site rs
  unfolding relayed
  relayed_again c d site [] h = refl
  relayed_again c d site (r ∷ rs) h = elim (Bool-cases (is_relayed c site r)) [
    | inl e ↦ rw e (rw (relayed_again c d site rs h))
    | inr e ↦ rw (e, is_relayed_again c d site r h e) (relayed_again c d site rs h)
  ]

  pub first_dropped :
      (d : ℤ) (site : String) (r : LogRow P) (rs : List (LogRow P))
      → ltb_int d (pos r.seq) ≡ false
      → relayed d site (r ∷ rs) ≡ relayed d site rs
  unfolding relayed is_relayed
  first_dropped d site r rs h = ground arith

  pub relayed_rest :
      (b n : ℕ) (cursor : ℤ) (site : String) (rs : List (LogRow P))
      → Ascends b rs
      → AllOthers site rs
      → relayed cursor site rs ≡ rs
      → relayed (last_cursor cursor (take n rs)) site rs ≡ drop n rs
  unfolding last_cursor take
  relayed_rest b zero cursor site rs h o e = e
  relayed_rest b (suc n) cursor site [] h o e = e
  relayed_rest b (suc n) cursor site (r ∷ rs) h o e =
      first_dropped (last_cursor (pos r.seq) (take n rs)) site r rs
        (last_cursor-ge r.seq r.seq n rs (omega arith) h.1)
      ∙ relayed_rest r.seq n (pos r.seq) site rs h.1 o.1 (relayed_below r.seq site rs h.1 o.1)

  abbrev pub AllAbove : ℤ → List (LogRow P) → Type 0
  AllAbove cursor [] = Unit
  AllAbove cursor (r ∷ rs) = (ltb_int cursor (pos r.seq) ≡ true) × AllAbove cursor rs

  pub relayed-AllAbove :
      (cursor : ℤ) (site : String) (rs : List (LogRow P)) → AllAbove cursor (relayed cursor site rs)
  unfolding relayed
  relayed-AllAbove cursor site [] = tt
  relayed-AllAbove cursor site (r ∷ rs) = elim (Bool-cases (is_relayed cursor site r)) [
    | inl e ↦ rw e (unfold is_relayed in ground arith, relayed-AllAbove cursor site rs)
    | inr e ↦ rw e (relayed-AllAbove cursor site rs)
  ]

  pub last_cursor-not-lt :
      (n : ℕ) (cursor : ℤ) (b : ℕ) (rs : List (LogRow P))
      → Ascends b rs
      → AllAbove cursor rs
      → ltb_int (last_cursor cursor (take n rs)) cursor ≡ false
  unfolding last_cursor take
  last_cursor-not-lt zero cursor b rs h a = ltb_int_irrefl cursor
  last_cursor-not-lt (suc n) cursor b [] h a = ltb_int_irrefl cursor
  last_cursor-not-lt (suc n) cursor b (r ∷ rs) h a =
      not-lt_trans (last_cursor (pos r.seq) (take n rs)) (pos r.seq) cursor
        (last_cursor-ge r.seq r.seq n rs (omega arith) h.1) (ltb_int_asym cursor (pos r.seq) a.0)

  pub relayed_idem :
      (cursor : ℤ) (site : String) (rs : List (LogRow P))
      → relayed cursor site (relayed cursor site rs) ≡ relayed cursor site rs
  relayed_idem cursor site rs = relayed_again cursor cursor site rs (ltb_int_irrefl cursor)

  -- After the first n rows that are relayed, the rest is what is relayed from the last one on.
  pub relayed_after :
      (b n : ℕ) (cursor : ℤ) (site : String) (rs : List (LogRow P))
      → Ascends b rs
      → relayed (last_cursor cursor (take n (relayed cursor site rs))) site rs
        ≡ drop n (relayed cursor site rs)
  relayed_after b n cursor site rs h =
      let sel = relayed cursor site rs in
      let asc : Ascends b sel = relayed-Ascends cursor site b rs h in
      sym (
        relayed_again cursor (last_cursor cursor (take n sel)) site rs
          (last_cursor-not-lt n cursor b sel asc (relayed-AllAbove cursor site rs)))
      ∙ relayed_rest b n cursor site sel asc (relayed-AllOthers cursor site rs)
          (relayed_idem cursor site rs)

  pub take_more : (n : ℕ) (rs : List (LogRow P)) → take n (take (suc n) rs) ≡ take n rs
  unfolding take
  take_more zero rs = refl
  take_more (suc n) [] = refl
  take_more (suc n) (r ∷ rs) = ap (λ l. r ∷ l) (take_more n rs)

  pub take-append-drop : (n : ℕ) (rs : List (LogRow P)) → take n rs ++ drop n rs ≡ rs
  unfolding take
  take-append-drop zero rs = refl
  take-append-drop (suc n) [] = refl
  take-append-drop (suc n) (r ∷ rs) = ap (λ l. r ∷ l) (take-append-drop n rs)

  pub drop_more :
      (n : ℕ) (rs : List (LogRow P)) → nonempty (drop n (take (suc n) rs)) ≡ nonempty (drop n rs)
  unfolding take
  drop_more zero [] = refl
  drop_more zero (r ∷ rs) = refl
  drop_more (suc n) [] = refl
  drop_more (suc n) (r ∷ rs) = drop_more n rs
