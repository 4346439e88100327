-- ===== src/Ethereum/Tests.antt =====
-- Decoding and inclusion at small inputs: an item is its own value, and lists itself twice.
use polkadot_ethereum.Prelude.{◌∷◌, some, ℕ, ◌+◌, []}
use polkadot_ethereum.Ethereum.{Codec}
use polkadot_ethereum.Core.{Bytes}

abbrev sum_bytes : Bytes → ℕ
sum_bytes [] = 1000
sum_bytes (b ∷ bs) = b + sum_bytes bs

abbrev codec : Codec
codec = record {
  keccak_256 = sum_bytes;
  as_bytes = λ hash. hash ∷ [];
  from_bytes = λ bytes. 0;
  stream_out = λ n fields. [];
  items = λ bytes. bytes ∷ bytes ∷ [];
  item_count = λ bytes. some 2;
  payload = λ bytes. some bytes;
  val_bytes = λ bytes. some bytes;
  val_u64 = λ bytes. some 0;
  val_h160 = λ bytes. some 0;
  val_h256 = λ bytes. some 0;
}
