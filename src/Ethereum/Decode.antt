-- ===== src/Ethereum/Decode.antt =====
-- parachain/primitives/ethereum/src/log.rs, receipt.rs and the bloom of header.rs: decoding.
-- `Rlp::as_list` decodes every item of the list, and the errors carry no information here.
use polkadot_ethereum.Prelude.Optional.{◌>>=◌, traverse}
use polkadot_ethereum.Core.{Bytes}
use polkadot_ethereum.Prelude.{
  ◌∷◌, Option, ◌≡◌, List, ◌==◌, arith, Bool, none, ◌↔◌, true, In, if◌then◌else◌, [], find, length,
  get_elem?, some,
}
use polkadot_ethereum.Ethereum.{Codec, Log, Receipt, log_beq, log_beq_iff}
use polkadot_ethereum.Prelude.Map.{is_some}

module _ (c : Codec) where
  open c use {items, payload, val_bytes, val_u64, val_h160, val_h256}

  unfoldable pub decode_log : Bytes → Option Log
  decode_log rlp = do
    let iter = items rlp
    address ← get_elem? iter 0 >>= val_h160
    topics ← get_elem? iter 1 >>= λ item. traverse val_h256 (items item)
    body ← get_elem? iter 2 >>= payload
    some (record { address = address; topics = topics; body = body })

  unfoldable pub decode_bloom : Bytes → Option Bytes
  decode_bloom rlp = do v ← val_bytes rlp; if length v == 256 then some v else none

  unfoldable pub decode_receipt : Bytes → Option Receipt
  unfolding decode_bloom decode_log
  decode_receipt rlp = do
    let iter = items rlp
    status ← get_elem? iter 0 >>= val_bytes
    gas ← get_elem? iter 1 >>= val_u64
    bloom ← get_elem? iter 2 >>= decode_bloom
    logs ← get_elem? iter 3 >>= λ item. traverse decode_log (items item)
    some (record {
      post_state_or_status = status;
      cumulative_gas_used = gas;
      bloom = bloom;
      logs = logs;
    })

-- `Receipt::contains_log`
unfoldable pub contains_log : Receipt → Log → Bool
contains_log receipt log = is_some (find (λ l. log_beq l log) receipt.logs)

found_In :
    (log : Log) (logs : List Log) → (is_some (find (λ l. log_beq l log) logs) ≡ true) ↔ In log logs
unfolding find
found_In log [] = (λ h. cc, λ h. elim h [ ])
found_In log (l ∷ ls) = ground (arith, log_beq_iff l log, found_In log ls)

-- The test finds a log exactly when the receipt lists one that is equal to it in every field.
pub contains_log_iff :
    (receipt : Receipt) (log : Log) → (contains_log receipt log ≡ true) ↔ In log receipt.logs
unfolding contains_log
contains_log_iff receipt log = found_In log receipt.logs
