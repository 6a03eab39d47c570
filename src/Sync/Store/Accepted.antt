-- ===== src/Sync/Store/Accepted.antt =====
-- `advanceAccepted`: the walk ends, and its result is the contiguous high-water of the site.
use boox_bridge.Prelude.{
  ℕ, zero, suc, ◌+◌, ◌≤◌, ◌<◌, String, ◌≡◌, ◌≢◌, refl, ◌∙◌, true, false, List, [], ◌∷◌,
  if◌then◌else◌, arith,
}
use text.Mathlib.Text.{◌==◌}
use boox_bridge.Prelude.Text.{eq_iff}
use boox_bridge.Prelude.Int.{ℤ, pos, ltb_int, eqb_int}
use boox_bridge.Prelude.Lists.{length}
use boox_bridge.Sync.Store.{LogRow, Cursor, Db, in_log, has_seq}
use boox_bridge.Sync.Store.Apply.{acked, set_acked, settled, walk, walk_fuel, advance_accepted}

-- How many rejected numbers lie above `h`.
above_seqs : ℕ → List ℤ → ℕ
above_seqs h [] = 0
above_seqs h (r ∷ rs) = (if ltb_int (pos h) r then 1 else 0) + above_seqs h rs

above_seqs_next :
    (h : ℕ) (rs : List ℤ)
    → above_seqs (h + 1) rs + (if has_seq rs (pos (h + 1)) then 1 else 0) ≤ above_seqs h rs
unfolding above_seqs has_seq
above_seqs_next h [] = omega arith
above_seqs_next h (ℤ.pos r ∷ rs) = ground (arith, above_seqs_next h rs)
above_seqs_next h (ℤ.negsuc r ∷ rs) = ground (arith, above_seqs_next h rs)

above_seqs-le : (h : ℕ) (rs : List ℤ) → above_seqs h rs ≤ length rs
unfolding above_seqs
above_seqs-le h [] = omega arith
above_seqs-le h (r ∷ rs) = ground (arith, above_seqs-le h rs)

above_log_row :
    (h : ℕ) (n : ℤ)
    → (if ltb_int (pos (h + 1)) n then 1 else 0) + (if eqb_int n (pos (h + 1)) then 1 else 0)
      ≤ (if ltb_int (pos h) n then 1 else 0)
above_log_row h (ℤ.pos n) = ground arith
above_log_row h (ℤ.negsuc n) = ground arith

module _ {P : Type 0} where
  -- How many rows of the changelog have a number above `h`.
  above_log : ℕ → List (LogRow P) → ℕ
  above_log h [] = 0
  above_log h (r ∷ rs) = (if ltb_int (pos h) r.op_seq then 1 else 0) + above_log h rs

  above_log_next :
      (h : ℕ) (site : String) (rs : List (LogRow P))
      → above_log (h + 1) rs + (if in_log site (pos (h + 1)) rs then 1 else 0) ≤ above_log h rs
  unfolding above_log in_log
  above_log_next h site [] = omega arith
  above_log_next h site (r ∷ rs) =
      ground (arith, above_log_row h r.op_seq, above_log_next h site rs)

  above_log-le : (h : ℕ) (rs : List (LogRow P)) → above_log h rs ≤ length rs
  unfolding above_log
  above_log-le h [] = omega arith
  above_log-le h (r ∷ rs) = ground (arith, above_log-le h rs)

  module _ (site : String) (rejected : List ℤ) (ops : List (LogRow P)) where
    -- What the walk has left to settle.
    left : ℕ → ℕ
    left h = above_seqs h rejected + above_log h ops

    left_next : (h : ℕ) → settled site rejected ops (h + 1) ≡ true → left (h + 1) < left h
    unfolding left settled
    left_next h e = ground (arith, above_seqs_next h rejected, above_log_next h site ops)

    left-lt-fuel : (h : ℕ) → left h < walk_fuel rejected ops
    unfolding left
    left-lt-fuel h = omega (arith, above_seqs-le h rejected, above_log-le h ops)

    walk_stops :
        (fuel h : ℕ)
        → left h < fuel
        → settled site rejected ops (walk fuel site rejected ops h + 1) ≡ false
    unfolding walk
    walk_stops zero h l = absurd (omega arith)
    walk_stops (suc fuel) h l = ground (arith, walk_stops fuel (h + 1), left_next h)

    walk-ge : (fuel h : ℕ) → h ≤ walk fuel site rejected ops h
    unfolding walk
    walk-ge zero h = omega arith
    walk-ge (suc fuel) h = ground (arith, walk-ge fuel (h + 1))

    walk_settles :
        (fuel h n : ℕ)
        → h < n
        → n ≤ walk fuel site rejected ops h
        → settled site rejected ops n ≡ true
    unfolding walk
    walk_settles zero h n p q = absurd (omega arith)
    walk_settles (suc fuel) h n p q = ground (arith, walk_settles fuel (h + 1) n)

-- The cursor row of a site after its high-water is stored; other sites keep theirs.
acked-set_acked :
    (site s : String) (h : ℕ) (now : ℤ) (cs : List (String × Cursor))
    → acked s (set_acked site h now cs) ≡ (if site == s then h else acked s cs)
unfolding acked set_acked
acked-set_acked site s h now [] = ground arith
acked-set_acked site s h now ((t, cur) ∷ cs) =
    ground (arith, eq_iff t site, eq_iff t s, eq_iff site s, acked-set_acked site s h now cs)

-- The new high-water of a site: nothing below it is lost, everything from the old one to it is
-- settled, the next number is not, and it is stored for this site alone.
pub record IsHighWater {P : Type 0} (site : String) (rejected : List ℤ) (db : Db P) (h : ℕ)
    (db' : Db P) : Type 0 where
  pub grows : acked site db.cursors ≤ h
  pub settles : (n : ℕ) → acked site db.cursors < n → n ≤ h → settled site rejected db.ops n ≡ true
  pub maximal : settled site rejected db.ops (h + 1) ≡ false
  pub stored : acked site db'.cursors ≡ h
  pub others : (s : String) → site ≢ s → acked s db'.cursors ≡ acked s db.cursors
  pub keeps_ops : db'.ops ≡ db.ops
  pub keeps_mirror : db'.mirror ≡ db.mirror

-- The walk of advanceAccepted ends, with the fuel given, at a high-water mark that is not below the
-- stored one, up to which every later number is settled, and whose successor is not; it is stored
-- for the site, and the marks of other sites, the changelog and the mirror stay.
pub advance_accepted_lem :
    {P : Type 0} (site : String) (rejected : List ℤ) (now : ℤ) (db : Db P)
    → IsHighWater site rejected db
        (advance_accepted site rejected now db).0
        (advance_accepted site rejected now db).1
unfolding advance_accepted
advance_accepted_lem site rejected now db = record {
  grows = walk-ge site rejected db.ops _ _;
  settles = λ n. walk_settles site rejected db.ops _ _ n;
  maximal = walk_stops site rejected db.ops _ _ (left-lt-fuel site rejected db.ops _);
  stored = acked-set_acked site site _ now db.cursors ∙ ground (arith, eq_iff site site);
  others = λ s ne. acked-set_acked site s _ now db.cursors ∙ ground (arith, eq_iff site s);
  keeps_ops = refl;
  keeps_mirror = refl;
}
