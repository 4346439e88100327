-- ===== src/Nft/Tests.antt =====
-- Tokens at small inputs.
use polkadot_ethereum.Nft.Owners.{operations-IsIndexed, IsIndexed}
use polkadot_ethereum.Prelude.{[]}
use polkadot_ethereum.Frame.{Keeps}
use polkadot_ethereum.Nft.{mint, burn, transfer}

operations-IsIndexed_example :
    Keeps
      (IsIndexed 4294967296)
      (mint 4294967296 1 [] (record { token_contract = 5; token_id = 6 }))
    × Keeps (IsIndexed 4294967296) (burn 1 0)
    × Keeps (IsIndexed 4294967296) (transfer 1 2 0)
operations-IsIndexed_example =
    operations-IsIndexed 4294967296 1 2 0 [] (record { token_contract = 5; token_id = 6 })
