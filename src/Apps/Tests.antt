-- ===== src/Apps/Tests.antt =====
-- The applications at small inputs. The storage of the chain holds the assets and the address of the
-- peer contract.
use polkadot_ethereum.Apps.Eth
use polkadot_ethereum.Prelude.{◌∷◌, some, refl, ◌↔◌, ◌+◌, ◌≤◌, ◌<◌, ◌-◌, ◌*◌, ℕ, arith, ◌≡◌, []}
use polkadot_ethereum.Core.{H160, U256, AssetId}
use polkadot_ethereum.Apps.Eth.Exact.{Mints, mint_iff}
use polkadot_ethereum.Frame.{Origin, ok, DispatchError, Origin, Part, err}
use polkadot_ethereum.Assets.{Assets}
use polkadot_ethereum.Apps.Dot.Wrap.{unwrap-wrap, unwrap_bounds}
use polkadot_ethereum.Apps.{App}
use polkadot_ethereum.Apps.Dot.{unwrap, wrap, power}
use polkadot_ethereum.Prelude.Word.{u128_mod}

abbrev Chain : Type 0
Chain = Assets × H160

abbrev assets_part : Part Chain Assets
assets_part = record {
  get = λ s. s.0;
  put = λ p s. (p, s.1);
  get_put = λ p s. refl;
  put_get = λ s. refl;
}

abbrev app : App Chain
app = record {
  address = record {
    get = λ s. s.1;
    put = λ p s. (s.0, p);
    get_put = λ p s. refl;
    put_get = λ s. refl;
  };
  router = record { submit = λ channel who target payload s. (ok tt, s) };
  lookup_account = λ source. some source;
  encode_account = λ who. who ∷ [];
  encode_function = λ name tokens. [];
}

abbrev chain : Chain
chain = (
  record { total_issuances = (AssetId.eth, 50) ∷ []; balances = ((AssetId.eth, 1), 50) ∷ [] },
  77,
)

mint_iff_example :
    ((t : Chain)
      → (Eth.mint app assets_part (Origin.ethereum 77) 9 1 20 chain ≡ (ok tt, t))
        ↔ Mints app assets_part chain (Origin.ethereum 77) 1 20 t)
    × ((e : DispatchError)
        → (Eth.mint app assets_part (Origin.ethereum 77) 9 1 20 chain).0 ≡ err e
        → (Eth.mint app assets_part (Origin.ethereum 77) 9 1 20 chain).1 ≡ chain)
mint_iff_example = mint_iff app assets_part (Origin.ethereum 77) 9 1 20 chain

unwrap-wrap_example :
    (wrapped : U256) × (wrap 1234 10 ≡ some wrapped) × (unwrap wrapped 10 ≡ some 1234)
unwrap-wrap_example = unwrap-wrap 1234 10 (omega arith) (omega arith)

unwrap_bounds_example :
    (amount : ℕ) × (unwrap 123456789012 10 ≡ some amount)
    × (amount * power 10 (18 - 10) ≤ 123456789012)
    × (123456789012 < u128_mod * power 10 (18 - 10)
        → 123456789012 < (amount + 1) * power 10 (18 - 10))
unwrap_bounds_example = unwrap_bounds 123456789012 10 (omega arith)
