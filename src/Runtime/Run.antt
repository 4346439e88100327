-- ===== src/Runtime/Run.antt =====
-- parachain/runtime/rococo/src/lib.rs: the configuration of each pallet by the others, and the calls of
-- the chain.
use polkadot_ethereum.Prelude.{ℕ, Bool, none, some, true, zero, suc, if◌then◌else◌}
use polkadot_ethereum.Frame.{Origin, Dispatch, DispatchError, ok, err, Part, zoom}
use polkadot_ethereum.Core.{H160, U256, asset_eq}
use polkadot_ethereum.Contracts.{MessageDispatch, Verifier, OutboundRouter}
use polkadot_ethereum.Contracts.LightClientVerifier.{light_client_verifier}
use polkadot_ethereum.LightClient as Light
use polkadot_ethereum.LightClient.Import.{import_header}
use polkadot_ethereum.LightClient.Work.{with_prover}
use polkadot_ethereum.Channels.Basic.Inbound as BasicInbound
use polkadot_ethereum.Channels.Basic.Outbound as BasicOutbound
use polkadot_ethereum.Channels.Incentivized.Inbound as IncentivizedInbound
use polkadot_ethereum.Channels.Incentivized.Outbound as IncentivizedOutbound
use polkadot_ethereum.Dispatch as DispatchPallet
use polkadot_ethereum.Router.{router, max_message_payload_size, max_messages_per_commit}
use polkadot_ethereum.Router.Fee.{ether_fee}
use polkadot_ethereum.Assets.Calls.{transfer_by}
use polkadot_ethereum.Apps.{App}
use polkadot_ethereum.Apps.Dot as Dot
use polkadot_ethereum.Apps.Eth as Eth
use polkadot_ethereum.Apps.Erc20 as Erc20
use polkadot_ethereum.Apps.Erc721 as Erc721
use polkadot_ethereum.Prelude.Word.{u128_mod}
use polkadot_ethereum.Runtime.{
  Constants, Chain, frame_part, basic_inbound_part, basic_outbound_part, incentivized_inbound_part,
  incentivized_outbound_part, dispatch_events_part, light_client_part, assets_part, nft_part,
  dot_app_part, eth_app_part, erc20_app_part, erc721_app_part, tokens_by_erc721_id_part,
}
use polkadot_ethereum.Runtime.Calls.{
  RuntimeCall, RuntimeCalls, External, basic_inbound_submit, incentivized_inbound_submit,
  incentivized_inbound_set_reward_fraction, light_client_import_header, assets_transfer, dot_lock,
  dot_unlock, eth_burn, eth_mint, erc20_burn, erc20_mint, erc721_burn, erc721_mint, frame_call,
  nested, no_calls, and_call,
}

-- `CallFilter`
abbrev pub call_filter : {O : Type 0} → RuntimeCall O → Bool
call_filter call = true

module _ {B O : Type 0} (k : Constants) (x : External B O) where
  abbrev pub light_client_config : Light.Config
  light_client_config = with_prover x.crate (record {
    codec = x.codec;
    descendants_until_finalized = k.descendants_until_finalized;
    difficulty_config = k.difficulty_config;
    verify_pow = k.verify_pow;
    hashimoto_merkle = λ header_hash nonce number proof. none;
    cross_boundary = x.cross_boundary;
  })

  abbrev pub basic_outbound_config : BasicOutbound.Config
  basic_outbound_config = record {
    max_message_payload_size = max_message_payload_size;
    max_messages_per_commit = max_messages_per_commit;
    set_principal_origin = x.root_or_half_council;
    lookup_account = x.lookup_account;
    abi_encode = x.abi_encode;
    hash = x.keccak_256;
    key_of = x.key_of;
  }

  abbrev pub incentivized_outbound_config : IncentivizedOutbound.Config (Chain B)
  incentivized_outbound_config = record {
    outbound = incentivized_outbound_part;
    max_message_payload_size = max_message_payload_size;
    max_messages_per_commit = max_messages_per_commit;
    withdraw_fee = ether_fee assets_part;
    set_fee_origin = x.root_or_half_council;
    abi_encode = x.abi_encode;
    hash = x.keccak_256;
    key_of = x.key_of;
  }

  -- `OutboundRouter<Runtime>`
  abbrev pub outbound_router : OutboundRouter (Chain B)
  outbound_router = router basic_outbound_part basic_outbound_config incentivized_outbound_config

  abbrev pub app_at : Part (Chain B) H160 → App (Chain B)
  app_at address = record {
    address = address;
    router = outbound_router;
    lookup_account = x.lookup_account;
    encode_account = x.encode_account;
    encode_function = x.encode_function;
  }

  -- `Balances`, within the chain
  abbrev pub balances : IncentivizedInbound.Currency (Chain B)
  balances = record {
    withdraw = λ who amount. zoom frame_part (x.currency.withdraw who amount);
    deposit_into_existing =
        λ who amount. zoom frame_part (x.currency.deposit_into_existing who amount);
    resolve_creating =
        λ who amount s. record s { frame = x.currency.resolve_creating who amount s.frame };
    same = x.currency.same;
  }

  abbrev pub native : Dot.Native (Chain B)
  native = record {
    transfer_allow_death =
        λ from to amount. zoom frame_part (x.transfer_allow_death from to amount);
    transfer_keep_alive = λ from to amount. zoom frame_part (x.transfer_keep_alive from to amount);
    account_id = x.dot_account;
    decimals = k.decimals;
  }

  -- `FeeConverter`, whose `expect` does not fail at the decimals of the runtimes.
  unfoldable pub fee_converter : U256 → ℕ
  fee_converter amount = elim (Dot.unwrap amount k.decimals) [ none ↦ 0 | some fee ↦ fee ]

  abbrev pub verifier : Verifier (Chain B)
  verifier = light_client_verifier light_client_part light_client_config

  -- The inbound channels, given what runs the messages.
  module _ (d : MessageDispatch (Chain B)) where
    abbrev pub basic_inbound_config : BasicInbound.Config (Chain B)
    basic_inbound_config = record {
      inbound = basic_inbound_part;
      verifier = verifier;
      dispatcher = d;
      decode_event = x.decode_basic_event;
    }

    abbrev pub incentivized_inbound_config : IncentivizedInbound.Config (Chain B)
    incentivized_inbound_config = record {
      inbound = incentivized_inbound_part;
      verifier = verifier;
      dispatcher = d;
      decode_event = x.decode_incentivized_event;
      currency = balances;
      source_account = x.dot_account;
      treasury_account = x.treasury_account;
      fee_converter = fee_converter;
      update_origin = x.root_or_half_council;
      mul_ceil = x.mul_ceil;
    }

    -- A call, given what runs the messages.
    unfoldable mutual
      pub run_with : RuntimeCall O → Origin → Dispatch (Chain B)
      run_with (basic_inbound_submit message) origin =
          BasicInbound.submit basic_inbound_config origin message
      run_with (incentivized_inbound_submit message) origin =
          IncentivizedInbound.submit incentivized_inbound_config origin message
      run_with (incentivized_inbound_set_reward_fraction fraction) origin =
          IncentivizedInbound.set_reward_fraction incentivized_inbound_config origin fraction
      run_with (light_client_import_header header proof) origin =
          zoom light_client_part (import_header light_client_config origin header proof)
      run_with (assets_transfer asset_id dest amount) origin =
          zoom assets_part (transfer_by x.lookup_account origin asset_id dest amount)
      run_with (dot_lock channel_id recipient amount) origin =
          Dot.lock (app_at dot_app_part) native origin channel_id recipient amount
      run_with (dot_unlock sender recipient amount) origin =
          Dot.unlock (app_at dot_app_part) native origin sender recipient amount
      run_with (eth_burn channel_id recipient amount) origin =
          Eth.burn (app_at eth_app_part) assets_part origin channel_id recipient amount
      run_with (eth_mint sender recipient amount) origin =
          Eth.mint (app_at eth_app_part) assets_part origin sender recipient amount
      run_with (erc20_burn channel_id contract recipient amount) origin =
          Erc20.burn (app_at erc20_app_part) assets_part origin channel_id contract recipient amount
      run_with (erc20_mint contract sender recipient amount) origin =
          Erc20.mint (app_at erc20_app_part) assets_part origin contract sender recipient amount
      run_with (erc721_burn channel_id nft_id recipient) origin =
          Erc721.burn (app_at erc721_app_part) nft_part tokens_by_erc721_id_part u128_mod origin
            channel_id nft_id recipient
      run_with (erc721_mint sender recipient contract token_id token_uri) origin =
          Erc721.mint (app_at erc721_app_part) nft_part tokens_by_erc721_id_part u128_mod origin
            sender recipient contract token_id token_uri
      run_with (frame_call o) origin = zoom frame_part (x.run_frame_call o origin)
      run_with (nested o calls) origin = λ s. elim (x.origin_of_nested o origin s.frame) [
        | none ↦ (err DispatchError.bad_origin, s)
        | some inner ↦
            let (r, t) = run_all calls inner s in
            if x.all_or_nothing o
            then elim r [ ok _ ↦ (ok tt, t) | err e ↦ (err e, s) ]
            else (ok tt, t)
      ]

      pub run_all : RuntimeCalls O → Origin → Dispatch (Chain B)
      run_all no_calls origin s = (ok tt, s)
      run_all (and_call call calls) origin s =
          let (r, t) = run_with call origin s in
          elim r [ ok _ ↦ run_all calls origin t | err e ↦ (err e, t) ]

  -- `dispatch::Config`, given how the calls are run.
  abbrev pub dispatch_config :
      (RuntimeCall O → Origin → Dispatch (Chain B))
      → DispatchPallet.Config (Chain B) (RuntimeCall O)
  dispatch_config run_call = record {
    decode = x.decode_call;
    call_filter = call_filter;
    run = run_call;
    events = dispatch_events_part;
  }

  -- A call, where messages may be dispatched within messages up to the given depth: past it a message
  -- is dropped.
  unfoldable pub run : ℕ → RuntimeCall O → Origin → Dispatch (Chain B)
  unfolding run_with
  run zero = run_with (record { dispatch = λ source id payload s. s })
  run (suc depth) = run_with (DispatchPallet.dispatcher (dispatch_config (run depth)))

  -- A call of the chain. The depth is enough (Depth).
  abbrev pub execute : RuntimeCall O → Origin → Dispatch (Chain B)
  execute = run 1

  -- What becomes of a message.
  abbrev pub deliver : MessageDispatch (Chain B)
  deliver = DispatchPallet.dispatcher (dispatch_config (run 0))
