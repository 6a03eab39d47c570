-- ===== src/Digest/Delivery.antt =====
-- Which notices a device is sent, and which it may lose: Pending, Ack and what comes between them.
use boox_bridge.Prelude.{
  String, ◌≡◌, ◌≢◌, refl, sym, ap, ◌∙◌, inl, inr, Bool, true, false, not, ◌&&◌, ◌||◌, List, [], ◌∷◌,
  ◌++◌, map, if◌then◌else◌, arith, Bool-cases,
}
use boox_bridge.Prelude.Int.{
  ℤ, pos, ltb_int, eqb_int, eqb_int_iff, ltb_int_irrefl, ltb_int_asym, not-lt_trans, ltb_int_total,
}
use boox_bridge.Prelude.Lists.{length, keep, any, any-keep, any-map}
use boox_bridge.Digest.{
  Tombstone, TombRow, is_for, enqueue, place, in_order, comes_before, notice, mark_row, mark_sent,
  mark_if_any, select_pending, pending, is_delivered, ack,
}
use boox_bridge.Digest.Queue.{AllTimed, IsQueue, any-mark_sent}

any-place :
    (p : TombRow → Bool) (r : TombRow) (rows : List TombRow)
    → any p (place r rows) ≡ p r || any p rows
unfolding any place
any-place p r [] = refl
any-place p r (s ∷ rows) = ground (arith, any-place p r rows)

any-in_order : (p : TombRow → Bool) (rows : List TombRow) → any p (in_order rows) ≡ any p rows
unfolding any in_order
any-in_order p [] = refl
any-in_order p (r ∷ rows) = any-place p r (in_order rows) ∙ cc (any-in_order p rows)

-- No row comes before an earlier one.
abbrev IsInOrder : List TombRow → Type 0
IsInOrder [] = Unit
IsInOrder (r ∷ rows) = (any (λ s. comes_before s r) rows ≡ false) × IsInOrder rows

comes_before_asym : (a b : TombRow) → comes_before a b ≡ true → comes_before b a ≡ false
unfolding comes_before
comes_before_asym a b h = ground (
  arith,
  eqb_int_iff a.created_at b.created_at,
  eqb_int_iff b.created_at a.created_at,
  ltb_int_asym a.created_at b.created_at,
  ltb_int_asym a.digest_id b.digest_id,
)

not-before_trans :
    (a b c : TombRow)
    → comes_before a b ≡ false
    → comes_before b c ≡ false
    → comes_before a c ≡ false
unfolding comes_before
not-before_trans a b c h k = ground (
  arith,
  eqb_int_iff a.created_at b.created_at,
  eqb_int_iff b.created_at c.created_at,
  eqb_int_iff a.created_at c.created_at,
  ltb_int_total a.created_at b.created_at,
  not-lt_trans a.created_at b.created_at c.created_at,
  not-lt_trans a.digest_id b.digest_id c.digest_id,
)

before-later :
    (r s : TombRow) (rows : List TombRow)
    → any (λ t. comes_before t s) rows ≡ false
    → comes_before s r ≡ false
    → any (λ t. comes_before t r) rows ≡ false
unfolding any
before-later r s [] h k = refl
before-later r s (t ∷ rows) h k = ground (arith, before-later r s rows, not-before_trans t s r)

place-IsInOrder : (r : TombRow) (rows : List TombRow) → IsInOrder rows → IsInOrder (place r rows)
unfolding place any
place-IsInOrder r [] h = (refl, tt)
place-IsInOrder r (s ∷ rows) h =
    let rest = place-IsInOrder r rows h.1 in
    elim (Bool-cases (comes_before s r)) [
      | inl first ↦ rw first (
        any-place (λ t. comes_before t s) r rows ∙ rw (comes_before_asym s r first, h.0) refl,
        rest,
      )
      | inr later ↦ rw later (rw later (before-later r s rows h.0 later), h)
    ]

in_order-IsInOrder : (rows : List TombRow) → IsInOrder (in_order rows)
unfolding in_order
in_order-IsInOrder [] = tt
in_order-IsInOrder (r ∷ rows) = place-IsInOrder r (in_order rows) (in_order-IsInOrder rows)

-- None of the rows was created earlier, nor at the same time with a lesser digest.
abbrev pub NoneBefore : TombRow → List TombRow → Type 0
NoneBefore r [] = Unit
NoneBefore r (s ∷ rows) =
    (ltb_int s.created_at r.created_at ≡ false)
    × (s.created_at ≡ r.created_at → ltb_int s.digest_id r.digest_id ≡ false)
    × NoneBefore r rows

-- By the time of creation, and at equal times by digest.
abbrev pub Sorted : List TombRow → Type 0
Sorted [] = Unit
Sorted (r ∷ rows) = NoneBefore r rows × Sorted rows

-- Sorting takes the rows as they are, as often as they stand.
count-place :
    (p : TombRow → Bool) (r : TombRow) (rows : List TombRow)
    → length (keep p (place r rows)) ≡ length (keep p (r ∷ rows))
unfolding place keep
count-place p r [] = refl
count-place p r (s ∷ rows) = ground (arith, count-place p r rows)

count-in_order :
    (p : TombRow → Bool) (rows : List TombRow)
    → length (keep p (in_order rows)) ≡ length (keep p rows)
unfolding in_order keep
count-in_order p [] = refl
count-in_order p (r ∷ rows) =
    count-place p r (in_order rows) ∙ ground (arith, count-in_order p rows)

length-keep-keep :
    (p q : TombRow → Bool) (rows : List TombRow)
    → length (keep p (keep q rows)) ≡ length (keep (λ r. q r && p r) rows)
unfolding keep
length-keep-keep p q [] = refl
length-keep-keep p q (r ∷ rows) = ground (arith, length-keep-keep p q rows)

not-before :
    (r s : TombRow)
    → comes_before s r ≡ false
    → (ltb_int s.created_at r.created_at ≡ false)
      × (s.created_at ≡ r.created_at → ltb_int s.digest_id r.digest_id ≡ false)
unfolding comes_before
not-before r s h = (
  ground (arith, h, eqb_int_iff s.created_at r.created_at, not-lt_refl),
  λ e. ground (arith, h, (eqb_int_iff s.created_at r.created_at).1 e),
)
  where
    not-lt_refl : s.created_at ≡ r.created_at → ltb_int s.created_at r.created_at ≡ false
    not-lt_refl e = ap (λ t. ltb_int t r.created_at) e ∙ ltb_int_irrefl r.created_at

any-NoneBefore :
    (r : TombRow) (rows : List TombRow)
    → any (λ s. comes_before s r) rows ≡ false
    → NoneBefore r rows
unfolding any
any-NoneBefore r [] h = tt
any-NoneBefore r (s ∷ rows) h =
    let (time, digest) = not-before r s (ground (arith, h)) in
    (time, digest, any-NoneBefore r rows (ground (arith, h)))

IsInOrder-Sorted : (rows : List TombRow) → IsInOrder rows → Sorted rows
IsInOrder-Sorted [] h = tt
IsInOrder-Sorted (r ∷ rows) h = (any-NoneBefore r rows h.0, IsInOrder-Sorted rows h.1)

-- What Pending sends of a digest.
unfoldable pub sends : ℤ → List Tombstone → Bool
sends digest out = any (λ t. eqb_int t.digest_id digest) out

any-select_pending :
    (user digest : ℤ) (rows : List TombRow)
    → sends digest (select_pending user rows) ≡ any (is_for user digest) rows
unfolding sends select_pending notice is_for
any-select_pending user digest rows =
    any-map (λ t. eqb_int t.digest_id digest) (notice user)
      (in_order (keep (λ r. eqb_int r.user_id user) rows))
    ∙ any-in_order _ (keep (λ r. eqb_int r.user_id user) rows)
    ∙ any-keep _ _ rows

acked_row :
    (user now v d : ℤ) (r : TombRow)
    → ltb_int (pos 0) now ≡ true
    → ltb_int r.sent_at (pos 0) ≡ false
    → (not (is_delivered user (mark_row now user r)) && is_for v d (mark_row now user r))
      ≡ (if eqb_int v user then false else is_for v d r)
unfolding is_delivered mark_row is_for
acked_row user now v d r after t =
    elim (Bool-cases (eqb_int r.user_id user && eqb_int r.sent_at (pos 0))) [
      | inl e ↦
          rw e (
            ground (arith, eqb_int_iff r.user_id user, eqb_int_iff r.user_id v, eqb_int_iff v user))
      | inr e ↦ rw e (
          ground (
            arith,
            eqb_int_iff r.user_id user,
            eqb_int_iff r.user_id v,
            eqb_int_iff v user,
            eqb_int_iff r.sent_at (pos 0),
            ltb_int_total r.sent_at (pos 0),
          ))
    ]

any-ack-mark_sent :
    (user now v d : ℤ) (rows : List TombRow)
    → ltb_int (pos 0) now ≡ true
    → AllTimed rows
    → any (is_for v d) (ack user (mark_sent now user rows))
      ≡ (if eqb_int v user then false else any (is_for v d) rows)
unfolding ack mark_sent any keep
any-ack-mark_sent user now v d [] after h = ground arith
any-ack-mark_sent user now v d (r ∷ rows) after h =
    ground
      (arith, acked_row user now v d r after h.0, any-ack-mark_sent user now v d rows after h.1)

any-ack_other :
    (user v d : ℤ) (rows : List TombRow)
    → eqb_int v user ≡ false
    → any (is_for v d) (ack user rows) ≡ any (is_for v d) rows
unfolding ack any keep is_for is_delivered
any-ack_other user v d [] h = refl
any-ack_other user v d (r ∷ rows) h = ground (
  arith,
  any-ack_other user v d rows,
  eqb_int_iff r.user_id v,
  eqb_int_iff r.user_id user,
  eqb_int_iff v user,
)

any-ack_none :
    (user v d : ℤ) (rows : List TombRow)
    → any (is_for v d) rows ≡ false
    → any (is_for v d) (ack user rows) ≡ false
unfolding ack any keep
any-ack_none user v d [] h = refl
any-ack_none user v d (r ∷ rows) h = ground (arith, any-ack_none user v d rows)

-- The acknowledgement of what was drained, where `out` is what was sent.
ack_drained :
    (out : List Tombstone) (user now v d : ℤ) (rows : List TombRow)
    → sends d out ≡ any (is_for user d) rows
    → ltb_int (pos 0) now ≡ true
    → AllTimed rows
    → any (is_for v d) (ack user (mark_if_any out now user rows))
      ≡ (if eqb_int v user then false else any (is_for v d) rows)
unfolding mark_if_any sends any
ack_drained (t ∷ out) user now v d rows sent after h = any-ack-mark_sent user now v d rows after h
ack_drained [] user now v d rows sent after h = elim (Bool-cases (eqb_int v user)) [
  | inl same ↦ rw same (
      any-ack_none user v d rows
        (ap (λ w. any (is_for w d) rows) ((eqb_int_iff v user).0 same) ∙ sym sent))
  | inr other ↦ rw other (any-ack_other user v d rows other)
]

any-mark_if_any :
    (out : List Tombstone) (now user v d : ℤ) (rows : List TombRow)
    → any (is_for v d) (mark_if_any out now user rows) ≡ any (is_for v d) rows
unfolding mark_if_any
any-mark_if_any [] now user v d rows = refl
any-mark_if_any (t ∷ out) now user v d rows = any-mark_sent v d now user rows

-- What a drain sends and keeps, and what its acknowledgement removes.
pub record IsDrain (now user : ℤ) (rows : List TombRow) : Type 0 where
  pub sent : (d : ℤ) → sends d (pending now user rows).0 ≡ any (is_for user d) rows
  pub ordered :
      (sel : List TombRow) × Sorted sel
      × ((p : TombRow → Bool)
          → length (keep p sel) ≡ length (keep (λ r. eqb_int r.user_id user && p r) rows))
      × ((pending now user rows).0
          ≡ map
              (λ r. record { user_id = user; digest_id = r.digest_id; data_type = r.data_type })
              sel)
  pub kept : (v d : ℤ) → any (is_for v d) (pending now user rows).1 ≡ any (is_for v d) rows
  pub acked :
      (v d : ℤ)
      → any (is_for v d) (ack user (pending now user rows).1)
        ≡ (if eqb_int v user then false else any (is_for v d) rows)

-- On a queue with unique keys and no time of sending before the epoch, a drain after the epoch
-- sends the rows of the user, each as often as it stands, with their digests and types, in the
-- order of creation and at equal times of digest, and keeps every key; an acknowledgement then
-- removes the rows of the user and those of no other.
pub pending_lem :
    (now user : ℤ) (rows : List TombRow)
    → IsQueue rows
    → ltb_int (pos 0) now ≡ true
    → IsDrain now user rows
unfolding pending select_pending notice
pending_lem now user rows h after = record {
  sent = λ d. any-select_pending user d rows;
  ordered = (
    in_order (keep (λ r. eqb_int r.user_id user) rows),
    IsInOrder-Sorted _ (in_order-IsInOrder (keep (λ r. eqb_int r.user_id user) rows)),
    λ p.
        count-in_order p (keep (λ r. eqb_int r.user_id user) rows)
        ∙ length-keep-keep p (λ r. eqb_int r.user_id user) rows,
    refl,
  );
  kept = λ v d. any-mark_if_any _ now user v d rows;
  acked = λ v d. ack_drained _ user now v d rows (any-select_pending user d rows) after h.timed;
}

unsent_kept :
    (r : TombRow) (rows : List TombRow)
    → eqb_int r.sent_at (pos 0) ≡ true
    → any (is_for r.user_id r.digest_id) (ack r.user_id (rows ++ r ∷ [])) ≡ true
unfolding ack any keep is_for is_delivered
unsent_kept r [] z = ground (
  arith,
  eqb_int_iff r.user_id r.user_id,
  eqb_int_iff r.digest_id r.digest_id,
  eqb_int_iff r.sent_at (pos 0),
  ltb_int_irrefl (pos 0),
)
unsent_kept r (s ∷ rows) z = ground (arith, unsent_kept r rows z)

any-ack-enqueue :
    (user digest later : ℤ) (data_type : String) (rows : List TombRow)
    → any (is_for user digest) rows ≡ false
    → any (is_for user digest) (ack user (enqueue later user digest data_type rows)) ≡ true
unfolding enqueue
any-ack-enqueue user digest later data_type rows h = rw h (unsent_kept _ rows refl)

-- A digest that is enqueued after a drain, and was not queued before it, is still queued after the
-- acknowledgement.
pub enqueued_after-drain :
    (now later user digest : ℤ) (data_type : String) (rows : List TombRow)
    → any (is_for user digest) rows ≡ false
    → any
        (is_for user digest)
        (ack user (enqueue later user digest data_type (pending now user rows).1))
      ≡ true
unfolding pending
enqueued_after-drain now later user digest data_type rows h =
    any-ack-enqueue user digest later data_type _
      (any-mark_if_any (select_pending user rows) now user user digest rows ∙ h)

-- A digest that is enqueued between the two statements of Pending, while something else is sent, is
-- not sent, and the acknowledgement removes its row.
pub enqueued_within-drain :
    (now later user digest : ℤ) (data_type : String) (rows : List TombRow)
    → IsQueue (enqueue later user digest data_type rows)
    → ltb_int (pos 0) now ≡ true
    → select_pending user rows ≢ []
    → any (is_for user digest) rows ≡ false
    → (sends digest (select_pending user rows) ≡ false)
      × (any (is_for user digest) (
            ack user (
              mark_if_any
                (select_pending user rows)
                now
                user
                (enqueue later user digest data_type rows)))
          ≡ false)
unfolding mark_if_any
enqueued_within-drain now later user digest data_type rows h after some_sent new =
    (any-select_pending user digest rows ∙ new, go (select_pending user rows) some_sent)
  where
    go :
        (out : List Tombstone)
        → out ≢ []
        → any
            (is_for user digest)
            (ack user (mark_if_any out now user (enqueue later user digest data_type rows)))
          ≡ false
    go [] ne = absurd (ne refl)
    go (t ∷ out) ne =
        any-ack-mark_sent user now user digest _ after h.timed
        ∙ ground (arith, eqb_int_iff user user)
