-- ===== src/Sync/Codec.antt =====
-- What syncstore takes from Go's standard library: the conversion of float64 to int64, base64 and
-- encoding/json. `N` is the type of JSON numbers (float64) and `P` that of JSON texts.
use boox_bridge.Prelude.{ℕ, String, ◌≡◌, Option, some, List}
use boox_bridge.Prelude.Int.{ℤ}
use boox_bridge.Prelude.Result.{Result}
use boox_bridge.Sync.Op.{Op}

pub record Codec (N P : Type 0) : Type 0 where
  pub to_int64 : N → ℤ  -- int64(v)
  pub decode_base64 : String → Result (List ℕ)  -- base64.StdEncoding.DecodeString
  pub marshal : Op N → Option P  -- json.Marshal
  pub unmarshal : P → Option (Op N)  -- json.Unmarshal

-- A marshalled operation is read back as it was, as encoding/json documents for its types.
pub record IsRoundTrip {N P : Type 0} (c : Codec N P) : Type 0 where
  pub back : (op : Op N) (p : P) → c.marshal op ≡ some p → c.unmarshal p ≡ some op
