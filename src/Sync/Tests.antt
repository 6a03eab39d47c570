-- ===== src/Sync/Tests.antt =====
-- Concrete operations, a codec for them, and databases, for the tests and witnesses below.
use boox_bridge.Prelude.{
  ℕ, String, ◌≡◌, ◌≢◌, refl, sym, ap, Bool, true, false, Option, none, some, List, [], ◌∷◌, arith,
  ◌∙◌, Memᴰ,
}
use boox_bridge.Prelude.Lists.{SameMembers}
use boox_bridge.Prelude.Text.{eq_iff}
use boox_bridge.Sync.Reconcile.Convergence.{HasUniqueIds}
use boox_bridge.Prelude.Int.{ℤ, pos, negsuc}
use boox_bridge.Prelude.Result.{Result, ok, err}
use boox_bridge.Sync.Op.{Value, null, num, str, Cols, Op}
use boox_bridge.Sync.Op.Ulid.{codes}
use boox_bridge.Sync.Codec.{Codec, IsRoundTrip}
use boox_bridge.Sync.Store.{Db, ApplyResult}
use boox_bridge.Sync.Store.Apply.{apply_batch}
pub mod Batches
pub mod Merge
pub mod Sessions
pub mod Ulids

-- JSON numbers are integers here, and a payload is the operation itself.
abbrev pub sample_codec : Codec ℤ (Op ℤ)
sample_codec = record {
  to_int64 = λ n. n;
  decode_base64 = λ s. ok (codes s);
  marshal = λ op. some op;
  unmarshal = λ op. some op;
}

pub sample_back : IsRoundTrip sample_codec
sample_back = record { back = λ op p h. sym h }

pub sample_marshals : (op : Op ℤ) → sample_codec.marshal op ≢ none
sample_marshals op h = cc

abbrev pub site_a : String
site_a = "01ARZ3NDEKTSV4RRFFQ69G5FAV"

abbrev pub site_b : String
site_b = "01BX5ZZKBKACTAV9WEVGEMMVRZ"

abbrev pub server_site : String
server_site = "01CCCCCCCCCCCCCCCCCCCCCCCC"

abbrev pub folder_pk : String
folder_pk = "01DDDDDDDDDDDDDDDDDDDDDDDD"

abbrev pub folder_values : String → Cols ℤ
folder_values name =
    ("created_at", num (pos 5))
    ∷ ("deleted_at", null)
    ∷ ("name", str name)
    ∷ ("parent_folder_id", null)
    ∷ ("sort_order", num (pos 1))
    ∷ ("extra", null)
    ∷ []

-- The n-th operation of a site: a folder of the given name, at a wall-clock time.
abbrev pub folder_op : String → ℕ → ℕ → String → Op ℤ
folder_op site n wall name = record {
  table = "folder";
  pk = folder_pk;
  site_id = site;
  op_seq = pos n;
  wall_ts = pos wall;
  cols = folder_values name;
}

abbrev pub first : Op ℤ
first = folder_op site_a 1 100 "Inbox"

abbrev pub second : Op ℤ
second = folder_op site_b 1 200 "Archive"

-- A winning time, and a name that is no string.
abbrev pub broken : Op ℤ
broken = record {
  table = "folder";
  pk = folder_pk;
  site_id = site_a;
  op_seq = pos 2;
  wall_ts = pos 150;
  cols = ("name", num (pos 7)) ∷ folder_values "unused";
}

abbrev pub empty_db : Db (Op ℤ)
empty_db = record {
  last_seq = 0;
  ops = [];
  cursors = [];
  site_id = server_site;
  last_op_seq = 0;
  mirror = [];
}

abbrev pub db_of : Result (Db (Op ℤ) × ApplyResult) → Db (Op ℤ)
db_of (ok r) = r.0
db_of (err e) = empty_db

abbrev pub result_of : Result (Db (Op ℤ) × ApplyResult) → ApplyResult
result_of (ok r) = r.1
result_of (err e) = record { accepted_through = 0; rejected = []; changed_pages = [] }

-- The batch of a site applied to the empty database.
unfoldable pub batch : String → List (Op ℤ) → Result (Db (Op ℤ) × ApplyResult)
unfolding apply_batch
batch site ops = apply_batch sample_codec site (pos 1000) ops empty_db

pub swapped-SameMembers : SameMembers (first ∷ second ∷ []) (second ∷ first ∷ [])
swapped-SameMembers op = (to, from)
  where
    to : Memᴰ op (first ∷ second ∷ []) → Memᴰ op (second ∷ first ∷ [])
    to (Memᴰ.head e) = Memᴰ.tail (Memᴰ.head e)
    to (Memᴰ.tail (Memᴰ.head e)) = Memᴰ.head e
    to (Memᴰ.tail (Memᴰ.tail m)) = elim m [ ]

    from : Memᴰ op (second ∷ first ∷ []) → Memᴰ op (first ∷ second ∷ [])
    from (Memᴰ.head e) = Memᴰ.tail (Memᴰ.head e)
    from (Memᴰ.tail (Memᴰ.head e)) = Memᴰ.head e
    from (Memᴰ.tail (Memᴰ.tail m)) = elim m [ ]

sites_differ : ◌≢◌ {A = String} site_a site_b
sites_differ e = ground (arith, eq_iff site_a site_b)

pub two-HasUniqueIds : HasUniqueIds (first ∷ second ∷ [])
two-HasUniqueIds a b (Memᴰ.head p) (Memᴰ.head q) s n = p ∙ sym q
two-HasUniqueIds a b (Memᴰ.head p) (Memᴰ.tail (Memᴰ.head q)) s n =
    absurd
      (sites_differ (sym (ap (λ (o : Op ℤ). o.site_id) p) ∙ s ∙ ap (λ (o : Op ℤ). o.site_id) q))
two-HasUniqueIds a b (Memᴰ.tail (Memᴰ.head p)) (Memᴰ.head q) s n =
    absurd
      (sites_differ (sym (ap (λ (o : Op ℤ). o.site_id) q) ∙ sym s ∙ ap (λ (o : Op ℤ). o.site_id) p))
two-HasUniqueIds a b (Memᴰ.tail (Memᴰ.head p)) (Memᴰ.tail (Memᴰ.head q)) s n = p ∙ sym q
two-HasUniqueIds a b (Memᴰ.head p) (Memᴰ.tail (Memᴰ.tail m)) s n = elim m [ ]
two-HasUniqueIds a b (Memᴰ.tail (Memᴰ.head p)) (Memᴰ.tail (Memᴰ.tail m)) s n = elim m [ ]
two-HasUniqueIds a b (Memᴰ.tail (Memᴰ.tail m)) _ s n = elim m [ ]
