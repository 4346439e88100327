-- ===== src/Runtime/Tests.antt =====
-- The chain at small inputs. FRAME keeps nothing, and a call of it that holds others passes its origin
-- on.
mod Messages
use polkadot_ethereum.Prelude.{
  true, ℕ, List, [], ◌∷◌, none, some, refl, arith, ◌≡◌, ◌-◌, leb, if◌then◌else◌, false, length,
}
use polkadot_ethereum.Prelude.Eq.{nat_eq, pair_eq}
use polkadot_ethereum.Prelude.Map.{lookup, insert}
use polkadot_ethereum.Frame.{Origin, ok}
use polkadot_ethereum.Core.{AccountId, AssetId, Bytes, ChannelId, Erc721TokenData, U256, asset_eq}
use polkadot_ethereum.Contracts.{Token}
use polkadot_ethereum.Assets.Calls.{build}
use polkadot_ethereum.Assets.Configured as Configured
use polkadot_ethereum.Assets.Configured.{Distinct, build-IsSound}
use polkadot_ethereum.Assets.Sound.{IsSound}
use polkadot_ethereum.Assets.{total_issuance}
use polkadot_ethereum.Ethereum.Ethash.Tests.{crate}
use polkadot_ethereum.LightClient.Tests as LightTests
use polkadot_ethereum.Nft.Genesis as NftGenesis
use polkadot_ethereum.Xcm.{Transactor, concrete_fungible, general_key}
use polkadot_ethereum.Runtime.{Chain, rococo}
use polkadot_ethereum.Runtime.Calls.{
  RuntimeCall, RuntimeCalls, External, eth_mint, eth_burn, nested, and_call, no_calls,
  basic_inbound_submit, frame_call,
}
use polkadot_ethereum.Runtime.Depth.{KeepsAccount, run_depth}
use polkadot_ethereum.Runtime.Run.{run, execute}
use polkadot_ethereum.Runtime.History.{
  Step, initialize, extrinsic, xcm_deposit, xcm_withdraw, frame_hook, steps,
}
use polkadot_ethereum.Runtime.Reached.{IsGenesis, steps-Kept}
use polkadot_ethereum.Runtime.Kept.{Kept}

-- Any payload is decoded as the call that mints 30 for account 1.
abbrev pub external : External (Unit {0}) (Unit {0})
external = record {
  codec = LightTests.codec;
  crate = crate;
  cross_boundary = λ difficulty. 1;
  decode_basic_event = λ log. some (Token.address 65 ∷ Token.uint 4 ∷ Token.byte_string [] ∷ []);
  decode_incentivized_event = λ log. none;
  decode_call = λ payload. some (eth_mint 9 1 30);
  lookup_account = λ source. some source;
  encode_account = λ who. who ∷ [];
  encode_function = λ name tokens. [];
  abi_encode = λ tokens. [];
  keccak_256 = λ bytes. 0;
  key_of = λ channel hash. [];
  root_or_half_council = λ origin. false;
  mul_ceil = λ fraction amount. amount;
  currency = record {
    withdraw = λ who amount s. (ok tt, s);
    deposit_into_existing = λ who amount s. (ok amount, s);
    resolve_creating = λ who amount s. s;
    same = λ a b. if leb b a then some (a - b) else none;
  };
  transfer_allow_death = λ from to amount s. (ok tt, s);
  transfer_keep_alive = λ from to amount s. (ok tt, s);
  dot_account = 100;
  treasury_account = 101;
  run_frame_call = λ o origin s. (ok tt, s);
  origin_of_nested = λ o origin s. some origin;
  all_or_nothing = λ o. true;
}

pub external-KeepsAccount : KeepsAccount external
external-KeepsAccount = record { keeps = λ o account b inner e. ground (arith, e) }

abbrev entries : List (AssetId × AccountId × U256)
entries = (AssetId.eth, 1, 50) ∷ (AssetId.eth, 2, 20) ∷ []

abbrev tokens : List (AccountId × Bytes × Erc721TokenData)
tokens = (1, [], record { token_contract = 5; token_id = 6 }) ∷ []

-- The applications on Ethereum have the addresses 64 to 67.
abbrev pub start : Chain (Unit {0})
start = record {
  frame = tt;
  basic_inbound = record { source_channel = 0; nonce = 3 };
  basic_outbound = record {
    interval = 10;
    message_queue = [];
    principal = 1;
    nonce = 0;
    digest = [];
    offchain = [];
  };
  incentivized_inbound = record { source_channel = 0; nonce = 3; reward_fraction = 0 };
  incentivized_outbound = record {
    interval = 10;
    message_queue = [];
    nonce = 0;
    fee = 5;
    digest = [];
    offchain = [];
  };
  dispatch_events = [];
  light_client = LightTests.state;
  assets = (build entries Configured.nothing).1;
  nft = (NftGenesis.build 340282366920938463463374607431768211456 tokens NftGenesis.nothing).1;
  dot_app = 64;
  eth_app = 65;
  erc20_app = 66;
  erc721_app = 67;
  tokens_by_erc721_id = [];
}

entries_built : (build entries Configured.nothing).0 ≡ ok tt
unfolding build total_issuance lookup insert
entries_built = refl

entries-Distinct : Distinct entries
entries-Distinct = ((refl, tt), (tt, tt))

abbrev transactor : Transactor ℕ
transactor = record {
  decode_asset_id = λ key. some AssetId.eth;
  convert = λ location. some location;
  text_of = λ e. "";
}

-- A block, a burn of ether on the incentivized channel, a forged mint, and an XCM deposit.
abbrev actions : List (Step (Unit {0}) (Unit {0}) ℕ)
actions =
    initialize 1
    ∷ extrinsic (eth_burn ChannelId.incentivized 9 20) (Origin.signed 1)
    ∷ extrinsic (nested tt (and_call (eth_mint 9 1 30) no_calls)) (Origin.ethereum 66)
    ∷ xcm_deposit (concrete_fungible (general_key [] ∷ []) 7) 2
    ∷ []

start-IsGenesis : IsGenesis entries tokens start
start-IsGenesis = record { assets = refl; nft = refl; basic = refl; incentivized = refl }

steps-Kept_example : Kept rococo external start (steps rococo external transactor actions start)
steps-Kept_example =
    steps-Kept rococo external transactor actions start entries tokens entries-Distinct
      entries_built start-IsGenesis

run_depth_example :
    run rococo external 3
      (nested tt (and_call (eth_mint 9 1 30) no_calls))
      (Origin.ethereum 65)
      start
    ≡ execute rococo external
        (nested tt (and_call (eth_mint 9 1 30) no_calls))
        (Origin.ethereum 65)
        start
run_depth_example =
    run_depth rococo external external-KeepsAccount 2
      (nested tt (and_call (eth_mint 9 1 30) no_calls)) (Origin.ethereum 65) start

pub start-IsSound : IsSound start.assets
start-IsSound = build-IsSound entries entries-Distinct entries_built
