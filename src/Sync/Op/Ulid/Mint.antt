-- ===== src/Sync/Op/Ulid/Mint.antt =====
-- The identifiers that the server makes for itself with `newULID`.
use boox_bridge.Prelude.{ℕ, ◌%◌, ◌<◌, String, ◌≡◌, true, arith}
use boox_bridge.Sync.Op.Ulid.{Bytes16, codes, encode_ulid, is_ulid, mint}
use boox_bridge.Sync.Op.Ulid.Laws.{bytes, AllBelow, encode_ulid-is_ulid}

low_byte : (n : ℕ) → n % 256 < 256
low_byte n = omega arith

mint-AllBelow :
    (ms : ℕ) (drawn : Bytes16) → AllBelow 256 (bytes drawn) → AllBelow 256 (bytes (mint ms drawn))
unfolding mint
mint-AllBelow ms drawn (_, (_, (_, (_, (_, (_, h)))))) =
    (low_byte _, (low_byte _, (low_byte _, (low_byte _, (low_byte _, (low_byte _, h))))))

-- A text whose code points are the encoding of what newULID fills in, at any time after the epoch
-- and for any ten random bytes below 256, passes IsULID.
pub mint-is_ulid :
    (ms : ℕ) (drawn : Bytes16) (s : String)
    → AllBelow 256 (bytes drawn)
    → codes s ≡ encode_ulid (mint ms drawn)
    → is_ulid s ≡ true
mint-is_ulid ms drawn s h e = encode_ulid-is_ulid (mint ms drawn) s (mint-AllBelow ms drawn h) e
