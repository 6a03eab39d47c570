-- ===== src/Bridge/Offered.antt =====
-- What PagesChanged offers: each changed page once, as far as the channel has room.
use text.Mathlib.Text.{◌==◌}
use mathlib.Core.List.{append-nil, append_assoc}
use boox_bridge.Prelude.{
  ℕ, zero, suc, ◌≤◌, ◌<◌, ◌+◌, ◌-◌, String, ◌≡◌, refl, sym, ap, ◌∙◌, inl, inr, Bool, not, ◌&&◌,
  if◌then◌else◌, List, [], ◌∷◌, ◌++◌, ltb, Bool-cases, arith,
}
use boox_bridge.Prelude.Text.{eq_iff}
use boox_bridge.Prelude.Lists.{length, length-append, take, any}
use boox_bridge.Prelude.Keys.{has, IsDistinct, has-eqb}
use boox_bridge.Sync.Reconcile.{TablePk}
use boox_bridge.Bridge.Queue.{queue_capacity, Bridge, offer, is_fresh, offer_pages, pages_changed}

-- The pages among the changes that are not seen yet, each once.
abbrev fresh_pages : List String → List TablePk → List String
fresh_pages seen [] = []
fresh_pages seen (p ∷ ps) =
    let fresh = is_fresh seen p in
    let rest = fresh_pages (if fresh then p.pk ∷ seen else seen) ps in
    if fresh then p.pk ∷ rest else rest

abbrev pub is_page : String → TablePk → Bool
is_page k p = p.table == "page" && p.pk == k

abbrev pub has_page : List String → String → Bool
has_page = has ◌==◌ eq_iff

has-fresh_pages :
    (seen : List String) (ps : List TablePk) (k : String)
    → has_page (fresh_pages seen ps) k ≡ any (is_page k) ps && not (has_page seen k)
unfolding is_fresh has any
has-fresh_pages seen [] k = refl
has-fresh_pages seen (p ∷ ps) k = elim (Bool-cases (is_fresh seen p)) [
  | inl e ↦
      rw (e, has-fresh_pages (p.pk ∷ seen) ps k)
        (ground (arith, e, has-eqb ◌==◌ eq_iff seen p.pk k))
  | inr e ↦ rw (e, has-fresh_pages seen ps k) (ground (arith, e, has-eqb ◌==◌ eq_iff seen p.pk k))
]

fresh_pages-IsDistinct :
    (seen : List String) (ps : List TablePk) → IsDistinct ◌==◌ eq_iff (fresh_pages seen ps)
unfolding is_fresh has any
fresh_pages-IsDistinct seen [] = tt
fresh_pages-IsDistinct seen (p ∷ ps) = elim (Bool-cases (is_fresh seen p)) [
  | inl e ↦ rw e (
    has-fresh_pages (p.pk ∷ seen) ps p.pk ∙ ground (arith, eq_iff p.pk p.pk),
    fresh_pages-IsDistinct (p.pk ∷ seen) ps,
  )
  | inr e ↦ rw e (fresh_pages-IsDistinct seen ps)
]

-- The pages that find room, and the number of those that do not.
offer_all : List String → Bridge → Bridge
offer_all [] b = b
offer_all (k ∷ ks) b = offer_all ks (offer k b)

offer_pages_lem :
    (seen : List String) (ps : List TablePk) (b : Bridge)
    → offer_pages seen ps b ≡ offer_all (fresh_pages seen ps) b
unfolding offer_pages offer_all
offer_pages_lem seen [] b = refl
offer_pages_lem seen (p ∷ ps) b = elim (Bool-cases (is_fresh seen p)) [
  | inl e ↦ rw e (offer_pages_lem (p.pk ∷ seen) ps (offer p.pk b))
  | inr e ↦ rw e (offer_pages_lem seen ps b)
]

take_none : {A : Type 0} (n : ℕ) → take {A = A} n [] ≡ []
take_none zero = refl
take_none (suc n) = refl

module _ (k : String) (b : Bridge) where
  offer-queue :
      (ks : List String)
      → (offer k b).queue ++ take (queue_capacity - length (offer k b).queue) ks
        ≡ b.queue ++ take (queue_capacity - length b.queue) (k ∷ ks)
  unfolding offer
  offer-queue ks = elim (Bool-cases (ltb (length b.queue) queue_capacity)) [
    | inl e ↦
        let free : length b.queue < queue_capacity = ground (arith, e) in
        let room : queue_capacity - length b.queue
            ≡ suc (queue_capacity - length (b.queue ++ k ∷ [])) =
          omega (arith, free, length-append b.queue (k ∷ [])) in
        rw (e, room) (append_assoc b.queue (k ∷ []) _)
    | inr e ↦
        let full : queue_capacity - length b.queue ≡ 0 = ground (arith, e) in rw (e, full) refl
  ]

  offer-dropped :
      (n : ℕ)
      → (offer k b).dropped + (n - (queue_capacity - length (offer k b).queue))
        ≡ b.dropped + (suc n - (queue_capacity - length b.queue))
  unfolding offer
  offer-dropped n = elim (Bool-cases (ltb (length b.queue) queue_capacity)) [
    | inl e ↦
        let room : length b.queue < queue_capacity = ground (arith, e) in
        rw (e, length-append b.queue (k ∷ [])) (omega (arith, room))
    | inr e ↦
        let full : queue_capacity ≤ length b.queue = ground (arith, e) in rw e (omega (arith, full))
  ]

offer_all-queue :
    (ks : List String) (b : Bridge)
    → (offer_all ks b).queue ≡ b.queue ++ take (queue_capacity - length b.queue) ks
unfolding offer_all
offer_all-queue [] b = sym (append-nil b.queue) ∙ ap (λ xs. b.queue ++ xs) (sym (take_none _))
offer_all-queue (k ∷ ks) b = offer_all-queue ks (offer k b) ∙ offer-queue k b ks

offer_all-dropped :
    (ks : List String) (b : Bridge)
    → (offer_all ks b).dropped ≡ b.dropped + (length ks - (queue_capacity - length b.queue))
unfolding offer_all
offer_all-dropped [] b = omega arith
offer_all-dropped (k ∷ ks) b = offer_all-dropped ks (offer k b) ∙ offer-dropped k b (length ks)

-- What PagesChanged does to the queue: it appends the changed pages, each once, as far as there is room,
-- and counts the others.
abbrev pub IsOffered : List TablePk → Bridge → Bridge → Type 0
IsOffered ps b b' =
    (ks : List String) × IsDistinct ◌==◌ eq_iff ks
    × ((k : String) → has_page ks k ≡ any (is_page k) ps)
    × (b'.queue ≡ b.queue ++ take (queue_capacity - length b.queue) ks)
    × (b'.dropped ≡ b.dropped + (length ks - (queue_capacity - length b.queue)))

-- PagesChanged appends to the queue the changed pages, each once, as far as the queue has less than
-- 256, and counts those that find no room as dropped.
pub pages_changed_lem : (ps : List TablePk) (b : Bridge) → IsOffered ps b (pages_changed ps b)
unfolding pages_changed
pages_changed_lem ps b =
    let ks = fresh_pages [] ps in
    let same = offer_pages_lem [] ps b in
    (
      ks,
      fresh_pages-IsDistinct [] ps,
      λ k. has-fresh_pages [] ps k ∙ unfold has any in ground arith,
      ap (λ (c : Bridge). c.queue) same ∙ offer_all-queue ks b,
      ap (λ (c : Bridge). c.dropped) same ∙ offer_all-dropped ks b,
    )
