-- ===== src/Sync/Reconcile/KeyOrder.antt =====
-- `Less` is a strict order of operations by (wall_ts, op_seq, site_id), total on distinct keys.
use boox_bridge.Prelude.{◌≡◌, Bool, true, false, arith, refl, if◌then◌else◌}
use boox_bridge.Prelude.Int.{ltb_int_total, ℤ, ltb_int, eqb_int, eqb_int_iff, ltb_int_irrefl}
use boox_bridge.Prelude.Text.{str_lt_irrefl, str_lt_trans, str_lt_total}
use boox_bridge.Prelude.Order.{IsKeyOrder}
use boox_bridge.Sync.Op.{Op, normalize}
use boox_bridge.Sync.Reconcile.{less}

pub record SameKey {N : Type 0} (a b : Op N) : Type 0 where
  pub wall : a.wall_ts ≡ b.wall_ts
  pub seq : a.op_seq ≡ b.op_seq
  pub site : a.site_id ≡ b.site_id

ltb_int_trans : (a b c : ℤ) → ltb_int a b ≡ true → ltb_int b c ≡ true → ltb_int a c ≡ true
ltb_int_trans (ℤ.pos a) (ℤ.pos b) (ℤ.pos c) h k = ground arith
ltb_int_trans (ℤ.negsuc a) (ℤ.pos b) (ℤ.pos c) h k = ground arith
ltb_int_trans (ℤ.negsuc a) (ℤ.negsuc b) (ℤ.negsuc c) h k = ground arith
ltb_int_trans _ _ _ h k = ground arith

-- One level of a lexicographic comparison, with the answer `r` of the next level.
abbrev lex : ℤ → ℤ → Bool → Bool
lex x y r = if eqb_int x y then r else ltb_int x y

lex_trans :
    (x y z : ℤ) (r s t : Bool)
    → lex x y r ≡ true
    → lex y z s ≡ true
    → (r ≡ true → s ≡ true → t ≡ true)
    → lex x z t ≡ true
lex_trans x y z r s t h k next = ground (
  arith,
  eqb_int_iff x y,
  eqb_int_iff y z,
  eqb_int_iff x z,
  ltb_int_trans x y z,
  ltb_int_irrefl x,
  next,
)

lex_total :
    (x y : ℤ) (r s : Bool)
    → lex x y r ≡ false
    → lex y x s ≡ false
    → (x ≡ y) × (r ≡ false) × (s ≡ false)
lex_total x y r s h k = ground (arith, eqb_int_iff x y, eqb_int_iff y x, ltb_int_total x y)

module _ {N : Type 0} where
  less_irrefl : (a b : Op N) → SameKey a b → less a b ≡ false
  unfolding less
  less_irrefl a b e = ground (
    arith,
    eqb_int_iff a.wall_ts b.wall_ts,
    eqb_int_iff a.op_seq b.op_seq,
    str_lt_irrefl b.site_id,
  )

  less_trans : (a b c : Op N) → less a b ≡ true → less b c ≡ true → less a c ≡ true
  unfolding less
  less_trans a b c h k = lex_trans a.wall_ts b.wall_ts c.wall_ts _ _ _ h k (λ p q.
      lex_trans a.op_seq b.op_seq c.op_seq _ _ _ p q (str_lt_trans a.site_id b.site_id c.site_id))

  less_total : (a b : Op N) → less a b ≡ false → less b a ≡ false → SameKey a b
  unfolding less
  less_total a b h k =
      let first = lex_total a.wall_ts b.wall_ts _ _ h k in
      let second = lex_total a.op_seq b.op_seq _ _ first.1 first.2 in
      record { wall = first.0; seq = second.0; site = str_lt_total _ _ second.1 second.2 }

  less_respects : (a b c : Op N) → SameKey b c → less a b ≡ less a c
  unfolding less
  less_respects a b c s = cc (s.wall, s.seq, s.site)

  -- Less is irreflexive, transitive and, up to equality of the triple (wall_ts, op_seq, site_id),
  -- total, and depends on that triple only.
  pub less-IsKeyOrder : IsKeyOrder {A = Op N} less SameKey
  less-IsKeyOrder = record {
    irrefl = less_irrefl;
    trans = less_trans;
    total = less_total;
    respects = less_respects;
  }

  -- Dropping unknown columns does not change a key.
  pub less-normalize : (a b : Op N) → less (normalize a) (normalize b) ≡ less a b
  unfolding less normalize
  less-normalize a b = refl
