-- ===== src/LightClient/Tests/Executions.antt =====
-- Imports and verifications at the small chain of the tests.
use polkadot_ethereum.Prelude.{find}
use polkadot_ethereum.LightClient.Import.{insert_header}
use polkadot_ethereum.LightClient.Validate.{check_pow}
use polkadot_ethereum.LightClient.Validate.{check_difficulty}
use polkadot_ethereum.LightClient.Validate.{check_basic}
use polkadot_ethereum.Prelude.Map.{lookup, insert, contains_key}
use polkadot_ethereum.LightClient.{Config, LightClient, ancestry, ancestry_from}
use polkadot_ethereum.Prelude.{◌↔◌, arith, some, ℕ, false, ◌∷◌, ◌≡◌, refl, [], suc, zero}
use polkadot_ethereum.Ethereum.{Log, HeaderId}
use polkadot_ethereum.Core.{Bytes, asset_eq, Message}
use polkadot_ethereum.Frame.{Origin, err, ok, DispatchError, unknown}
use polkadot_ethereum.LightClient.Import.{
  import_header, nth_ancestor, track_best, import_validated_header, finalize,
  get_best_finalized_header, mark_finalized, clean_up,
}
use polkadot_ethereum.LightClient.Prune.{prune_header_range}
use polkadot_ethereum.Prelude.Eq.{nat_eq, pair_eq, list_eq}
use polkadot_ethereum.Ethereum.Hashing
use polkadot_ethereum.Ethereum.Difficulty
use polkadot_ethereum.LightClient.Validate.Verified.{Verified, verify_iff}
use polkadot_ethereum.LightClient.Import.Failure.{track_best-fails_iff, Conflict}
use polkadot_ethereum.LightClient.Validate.{
  verify, fail, validate_header_to_import, ancestor_at, check_child,
}
use polkadot_ethereum.LightClient.Tests.{state, block_9, config, stored_at, block_7, chain}

abbrev zeros : ℕ → Bytes
zeros zero = []
zeros (suc n) = 0 ∷ zeros n

abbrev log_0 : Log
log_0 = record { address = 0; topics = zeros 4; body = zeros 256 }

abbrev message : Message
message = record {
  raw = zeros 256;
  proof = record { block_hash = 1007; tx_index = 0; keys = []; values = zeros 256 ∷ [] };
}

verify_iff_example :
    (((verify config message state).0 ≡ ok log_0) ↔ Verified config message state log_0)
    × ((verify config message state).1 ≡ state)
verify_iff_example = verify_iff config message state log_0

-- Block 9 is stored and has become the best block, two steps above block 7, but block 8 is final.
abbrev deep : Config
deep = record config { descendants_until_finalized = 2 }

abbrev reorganized : LightClient
reorganized = record state {
  headers = (1009, stored_at block_9 9097000 false) ∷ chain;
  finalized_block = record { number = 8; hash = 1008 };
}

abbrev id_9 : HeaderId
id_9 = record { number = 9; hash = 1009 }

track_best-fails_iff_example :
    (((track_best deep id_9 9097000 reorganized).0 ≡ err (fail unknown))
      ↔ Conflict deep id_9 reorganized)
    × ((e : DispatchError)
        → (track_best deep id_9 9097000 reorganized).0 ≡ err e
        → (track_best deep id_9 9097000 reorganized).0 ≡ err (fail unknown))
    × ((track_best deep id_9 9097000 reorganized).1.best_block ≡ (id_9, 9097000))
track_best-fails_iff_example = track_best-fails_iff deep id_9 9097000 reorganized

reorganized-Conflict : Conflict deep id_9 reorganized
unfolding nth_ancestor ancestry ancestry_from lookup
reorganized-Conflict = record {
  hash = 1007;
  header = block_7.header;
  buried = refl;
  not_younger = omega arith;
  differs = λ e. omega (arith, e);
}

track_9_fails : (track_best deep id_9 9097000 reorganized).0 ≡ err (fail unknown)
track_9_fails = (track_best-fails_iff deep id_9 9097000 reorganized).0.1 reorganized-Conflict

-- Block 9 passes every check, and block 8 becomes final.
import_9 :
    ((import_header config (Origin.signed 1) block_9 [] state).0 ≡ ok tt)
    × ((import_header config (Origin.signed 1) block_9 [] state).1.finalized_block.hash ≡ 1008)
unfolding import_header import_validated_header track_best finalize get_best_finalized_header
    mark_finalized clean_up nth_ancestor ancestry ancestry_from lookup insert contains_key
    validate_header_to_import ancestor_at check_child check_basic check_difficulty check_pow
    insert_header prune_header_range Hashing.compute_hash Hashing.rlp Hashing.stream_fields
    Hashing.stream_length Hashing.mix_hash Hashing.nonce Hashing.decoded_seal_field
    Hashing.has_ommers Difficulty.calc_difficulty Difficulty.bomb_delay Difficulty.block_time_div_9
    Difficulty.adjusted Difficulty.sigma2 Difficulty.period_count Difficulty.with_bomb find
import_9 = (refl, refl)

-- With block 8 final and two descendants asked for, the import of block 9 returns `Unknown`, and
-- block 9 is stored all the same.
abbrev late : LightClient
late = record state { finalized_block = record { number = 8; hash = 1008 } }

import_9_late :
    ((import_header deep (Origin.signed 1) block_9 [] late).0 ≡ err (fail unknown))
    × (lookup 1009 (import_header deep (Origin.signed 1) block_9 [] late).1.headers
        ≡ some (record {
          submitter = some 1;
          header = block_9;
          total_difficulty = 9097000;
          finalized = false;
        }))
unfolding import_header import_validated_header track_best finalize get_best_finalized_header
    mark_finalized clean_up nth_ancestor ancestry ancestry_from lookup insert contains_key
    validate_header_to_import ancestor_at check_child check_basic check_difficulty check_pow
    insert_header prune_header_range Hashing.compute_hash Hashing.rlp Hashing.stream_fields
    Hashing.stream_length Hashing.mix_hash Hashing.nonce Hashing.decoded_seal_field
    Hashing.has_ommers Difficulty.calc_difficulty Difficulty.bomb_delay Difficulty.block_time_div_9
    Difficulty.adjusted Difficulty.sigma2 Difficulty.period_count Difficulty.with_bomb find
import_9_late = (refl, refl)
