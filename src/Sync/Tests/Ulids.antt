-- ===== src/Sync/Tests/Ulids.antt =====
-- ULIDs at concrete bytes.
use boox_bridge.Prelude.{◌≡◌, refl, true, arith}
use boox_bridge.Sync.Op.Ulid.{codes, Bytes16, encode_ulid, alphabet_at, is_ulid, mint}
use boox_bridge.Sync.Op.Ulid.Mint.{mint-is_ulid}
use boox_bridge.Sync.Op.Ulid.Laws.{base32_from, base256_from, bytes, encode_ulid-value}

abbrev sample : Bytes16
sample = record {
  b0 = 1;
  b1 = 86;
  b2 = 62;
  b3 = 58;
  b4 = 181;
  b5 = 211;
  b6 = 214;
  b7 = 118;
  b8 = 76;
  b9 = 97;
  b10 = 239;
  b11 = 185;
  b12 = 147;
  b13 = 2;
  b14 = 189;
  b15 = 91;
}

sample_text : codes "01ARZ3NDEKTSV4RRFFQ69G5FAV" ≡ encode_ulid sample
unfolding encode_ulid alphabet_at
sample_text = refl

encode_ulid-value_example : base32_from 0 (encode_ulid sample) ≡ base256_from 0 (bytes sample)
encode_ulid-value_example = encode_ulid-value sample (omega arith)

minted : codes "01ARZ3NDEKTSV4RRFFQ69G5FAV" ≡ encode_ulid (mint 1469922850259 sample)
unfolding encode_ulid alphabet_at mint
minted = refl

mint-is_ulid_example : is_ulid "01ARZ3NDEKTSV4RRFFQ69G5FAV" ≡ true
mint-is_ulid_example =
    mint-is_ulid 1469922850259 sample "01ARZ3NDEKTSV4RRFFQ69G5FAV" (omega arith) minted
