-- ===== src/Digest/Queue.antt =====
-- The queue as a set of keys: what each operation does to it, and that no key occurs twice.
use boox_bridge.Prelude.{
  String, ◌≡◌, refl, ap, ◌∙◌, inl, inr, Bool, true, false, ◌&&◌, List, [], ◌∷◌, ◌++◌, if◌then◌else◌,
  arith, Bool-cases,
}
use boox_bridge.Prelude.Int.{ℤ, pos, ltb_int, eqb_int, eqb_int_iff, ltb_int_asym}
use boox_bridge.Prelude.Lists.{any-keep-false, keep, any, any-append, any-cong, any-map}
use boox_bridge.Digest.{
  Tombstone, TombRow, is_for, enqueue, mark_row, mark_sent, mark_if_any, pending, ack, sweep,
}

-- The primary key: no two rows of a user and a digest.
abbrev pub HasUniqueKeys : List TombRow → Type 0
HasUniqueKeys [] = Unit
HasUniqueKeys (r ∷ rows) = (any (is_for r.user_id r.digest_id) rows ≡ false) × HasUniqueKeys rows

-- No notice was sent at a time before the epoch.
abbrev pub AllTimed : List TombRow → Type 0
AllTimed [] = Unit
AllTimed (r ∷ rows) = (ltb_int r.sent_at (pos 0) ≡ false) × AllTimed rows

pub record IsQueue (rows : List TombRow) : Type 0 where
  pub unique : HasUniqueKeys rows
  pub timed : AllTimed rows

-- The operations on the table, at times after the epoch.
pub data Step (rows : List TombRow) : List TombRow → Type 0 where
  enqueued :
      (now user digest : ℤ) (data_type : String)
      → Step rows (enqueue now user digest data_type rows)
  drained : (now user : ℤ) → ltb_int (pos 0) now ≡ true → Step rows (pending now user rows).1
  acknowledged : (user : ℤ) → Step rows (ack user rows)
  swept : (before : ℤ) → Step rows (sweep before rows).1

keep-IsQueue : (q : TombRow → Bool) (rows : List TombRow) → IsQueue rows → IsQueue (keep q rows)
unfolding keep
keep-IsQueue q [] h = h
keep-IsQueue q (r ∷ rows) h =
    let rest = keep-IsQueue q rows (record { unique = h.unique.1; timed = h.timed.1 }) in
    elim (Bool-cases (q r)) [
      | inl kept ↦ rw (ap (λ b. if b then r ∷ keep q rows else keep q rows) kept) (record {
        unique = (any-keep-false (is_for r.user_id r.digest_id) q rows h.unique.0, rest.unique);
        timed = (h.timed.0, rest.timed);
      })
      | inr gone ↦ rw (ap (λ b. if b then r ∷ keep q rows else keep q rows) gone) rest
    ]

is_for_refl : (r : TombRow) → is_for r.user_id r.digest_id r ≡ true
unfolding is_for
is_for_refl r = ground (arith, eqb_int_iff r.user_id r.user_id, eqb_int_iff r.digest_id r.digest_id)

is_for-sym :
    (u d : ℤ) (r s : TombRow) → is_for u d s ≡ true → is_for r.user_id r.digest_id s ≡ is_for u d r
unfolding is_for
is_for-sym u d r s h = ground (
  arith,
  eqb_int_iff s.user_id u,
  eqb_int_iff s.digest_id d,
  eqb_int_iff s.user_id r.user_id,
  eqb_int_iff s.digest_id r.digest_id,
  eqb_int_iff r.user_id u,
  eqb_int_iff r.digest_id d,
)

-- A row with a fresh key may be added at the end.
append-IsQueue :
    (s : TombRow) (rows : List TombRow)
    → any (is_for s.user_id s.digest_id) rows ≡ false
    → ltb_int s.sent_at (pos 0) ≡ false
    → IsQueue rows
    → IsQueue (rows ++ s ∷ [])
unfolding any
append-IsQueue s [] fresh t h = record { unique = (refl, tt); timed = (t, tt) }
append-IsQueue s (r ∷ rows) fresh t h =
    let rest =
      append-IsQueue s rows (ground arith) t (record { unique = h.unique.1; timed = h.timed.1 }) in
    record {
      unique = (
        any-append (is_for r.user_id r.digest_id) rows (s ∷ [])
            ∙ ground (arith, h.unique.0, is_for-sym s.user_id s.digest_id r s (is_for_refl s)),
        rest.unique,
      );
      timed = (h.timed.0, rest.timed);
    }

enqueue-IsQueue :
    (now user digest : ℤ) (data_type : String) (rows : List TombRow)
    → IsQueue rows
    → IsQueue (enqueue now user digest data_type rows)
unfolding enqueue
enqueue-IsQueue now user digest data_type rows h =
    elim (Bool-cases (any (is_for user digest) rows)) [
      | inl known ↦ rw known h
      | inr fresh ↦ rw fresh (append-IsQueue _ rows fresh refl h)
    ]

pub is_for-mark_row : (u d now v : ℤ) (r : TombRow) → is_for u d (mark_row now v r) ≡ is_for u d r
unfolding is_for mark_row
is_for-mark_row u d now v r = elim (Bool-cases (eqb_int r.user_id v && eqb_int r.sent_at (pos 0))) [
  | inl e ↦ rw e
  | inr e ↦ rw e
]

pub any-mark_sent :
    (u d now v : ℤ) (rows : List TombRow)
    → any (is_for u d) (mark_sent now v rows) ≡ any (is_for u d) rows
unfolding mark_sent
any-mark_sent u d now v rows =
    any-map (is_for u d) (mark_row now v) rows
    ∙ any-cong _ (is_for u d) rows (is_for-mark_row u d now v)

mark_row-timed :
    (now v : ℤ) (r : TombRow)
    → ltb_int (pos 0) now ≡ true
    → ltb_int r.sent_at (pos 0) ≡ false
    → ltb_int (mark_row now v r).sent_at (pos 0) ≡ false
unfolding mark_row
mark_row-timed now v r after t =
    elim (Bool-cases (eqb_int r.user_id v && eqb_int r.sent_at (pos 0))) [
      | inl e ↦ rw e (ltb_int_asym (pos 0) now after)
      | inr e ↦ rw e t
    ]

mark_row-keys :
    (now v : ℤ) (r : TombRow)
    → ((mark_row now v r).user_id ≡ r.user_id) × ((mark_row now v r).digest_id ≡ r.digest_id)
unfolding mark_row
mark_row-keys now v r = elim (Bool-cases (eqb_int r.user_id v && eqb_int r.sent_at (pos 0))) [
  | inl e ↦ rw e (refl, refl)
  | inr e ↦ rw e (refl, refl)
]

mark_sent-IsQueue :
    (now v : ℤ) (rows : List TombRow)
    → ltb_int (pos 0) now ≡ true
    → IsQueue rows
    → IsQueue (mark_sent now v rows)
unfolding mark_sent
mark_sent-IsQueue now v [] after h = h
mark_sent-IsQueue now v (r ∷ rows) after h =
    let rest =
      mark_sent-IsQueue now v rows after (record { unique = h.unique.1; timed = h.timed.1 }) in
    let keys = mark_row-keys now v r in
    record {
      unique = (
        rw (keys.0, keys.1) (any-mark_sent r.user_id r.digest_id now v rows ∙ h.unique.0),
        rest.unique,
      );
      timed = (mark_row-timed now v r after h.timed.0, rest.timed);
    }

mark_if_any-IsQueue :
    (out : List Tombstone) (now v : ℤ) (rows : List TombRow)
    → ltb_int (pos 0) now ≡ true
    → IsQueue rows
    → IsQueue (mark_if_any out now v rows)
unfolding mark_if_any
mark_if_any-IsQueue [] now v rows after h = h
mark_if_any-IsQueue (t ∷ out) now v rows after h = mark_sent-IsQueue now v rows after h

-- Enqueue, Pending at a time after the epoch, Ack and Sweep keep the keys of the queue unique and
-- the times of sending from the epoch on.
pub Step-IsQueue : (rows rows' : List TombRow) → Step rows rows' → IsQueue rows → IsQueue rows'
unfolding pending ack sweep
Step-IsQueue rows _ (Step.enqueued now user digest t) h = enqueue-IsQueue now user digest t rows h
Step-IsQueue rows _ (Step.drained now user after) h = mark_if_any-IsQueue _ now user rows after h
Step-IsQueue rows _ (Step.acknowledged user) h = keep-IsQueue _ rows h
Step-IsQueue rows _ (Step.swept before) h = keep-IsQueue _ rows h
