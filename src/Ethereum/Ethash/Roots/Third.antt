-- ===== src/Ethereum/Ethash/Roots/Third.antt =====
-- DAGS_MERKLE_ROOTS of parachain/primitives/ethereum/src/ethashdata.rs: epochs 256 to 383.
use polkadot_ethereum.Prelude.{ℕ, List, [], ◌∷◌}

unfoldable pub third_roots : List ℕ
third_roots =
    0x8609ba6e215f939caae8770e47d25f8a ∷ 0x4287aec47a1da79aa2351f31cbd4ed0c
    ∷ 0xb033cc4424fc38cbf7992491211c84c5 ∷ 0xcce1d898301da9cddb02d7f36181f8c2
    ∷ 0x79e12de9d9e677ac2322705cc8a922b1 ∷ 0xc448a85e856037d8e88f672979a551eb
    ∷ 0x467403ae25f597deb3c1094a2d33d413 ∷ 0xd7e03948dfccb6abb773409bd4a3c930
    ∷ 0x674a8c75924d08965e7039c2e41f7940 ∷ 0x9220bbcb1742381fd5936662dee7210f
    ∷ 0x505e4a4e5a49243957ee68bcf2ddb9e4 ∷ 0x85952e0b3c1032f7cad908bbd3a2b8a3
    ∷ 0xf6e25da02626214f2dca471706a057d0 ∷ 0xdc7efbb16d990fb6db9e68efbc7fe740
    ∷ 0xa3231a207b1daf19693a1a5ad18c6ac4 ∷ 0x90c5a0bbbc65a3fe44f2be3f860c5f0e
    ∷ 0x3d8f53b6024c3b33b9097cc678de9a28 ∷ 0x1ad8cb3b8d1d4e04bb25330acd10b3e7
    ∷ 0xc4830b15a969f30d1592527eda63bf82 ∷ 0x9d51b6f0c5be845ef775b6b900f0c993
    ∷ 0xabdb6ff729edfa1fdf81725236fe166c ∷ 0xf92a2b3fb5ebe93ee6fdac51e55f58d0
    ∷ 0xbad463d68b2067ee099b35bc976d4262 ∷ 0x8a326abf1bf139fd19a9931aad716e2b
    ∷ 0x21a32ae99babd87319e21b115291fa93 ∷ 0xaed51baf66ff4910f3b84c6dddd277d0
    ∷ 0x65c3bbb3015925ae57d939a67bb3e1a2 ∷ 0x97bc9538e14c7d221d3fba271fe1a9a3
    ∷ 0x6394e2557149a2acf674610e834f02a7 ∷ 0x280dcfe6935188046eefb81a77e043db
    ∷ 0x313d0d27a7b82f6e85b32037b3458025 ∷ 0xaf7416b95834809dc8619c24d9f70575
    ∷ 0x9e14b1882ac75f1b7ac8735e89bd1dcf ∷ 0xf770f4047a86f36727fcde69c0cb8b68
    ∷ 0x004610125634efd77979c429a95f16e9 ∷ 0x9fb78c563cc2617353fb943c5c6029d9
    ∷ 0xaddc6c96bafb15254e0e2c2a21f6eca0 ∷ 0xb2e1d71c4419cf35d2ccb202727e9006
    ∷ 0x22c2cf6192e5f767d518ba32d2628f27 ∷ 0xd4a9a8dedeaa916c20451f72d868e54c
    ∷ 0xe15c7e3a6935f188aab577be046518f8 ∷ 0xd00f06b2b19fb192d885586001624318
    ∷ 0x3c1133d7e7085944fa800c1365d4b4f3 ∷ 0x3963a16de74721a202e7f10d66278fe4
    ∷ 0x2f886a0a39058911d72b46e15bc34672 ∷ 0xbf8c454a96a689eb71c30d9639aaecee
    ∷ 0x761b3e46118bc24bc62987107f3d12c6 ∷ 0x891583dc69ff4a5e64070d942aaa435f
    ∷ 0xd8b34532a52763f1afd495aa3e36b2ef ∷ 0x2f9e4d03913cd937e09c451b3ed20dcb
    ∷ 0x93d22323cd8c06ec945733ee811d8ac8 ∷ 0x2a9d9c385dc260a178c9dd5902499f7e
    ∷ 0x45e79066792ee537ae6106b3c897d44c ∷ 0x4e00df4f849deba8f05284dba1a8daf6
    ∷ 0x9ed2f8a53f69dee1e9b2d4a332ac80d5 ∷ 0xb0cb763b4c0e4bddbdeab130195681bb
    ∷ 0xc25c64f479521ed7a68cb75637498e67 ∷ 0xa66e88f5a0279ebbfc9063d5d7fc9681
    ∷ 0x97f23e83e5a2c1e6209a1e0baa4c9048 ∷ 0x08efb5ef7d86b52c486f88ea92865e2e
    ∷ 0x750b98718c4d7f9b63a0fe4135a00143 ∷ 0xbd71d4d32938661a8e4e8e198f6e3c71
    ∷ 0xdac6dce2e49f253706ee5ea4549abb67 ∷ 0x1dfa7fc8cff2108f4de96a6f6404321b
    ∷ 0x58fa94796612dacc2f2a60fbac5f85d6 ∷ 0xaf4a599a7afc59244662fb56a32f38cb
    ∷ 0x7b2920aac8c076c5fccfdf3325fc8455 ∷ 0xb3328f0b1057958da28bab59330133a7
    ∷ 0xad4e0add9ad103421f47d88eeb5c711f ∷ 0x4825b9d42589e834f61e6ef705641713
    ∷ 0x3da44d4f1d8bb790537ec42ba2af168c ∷ 0x87db7dab6b1aa2857fcf861273b9a58d
    ∷ 0xc32c902e1389ebda24a09ae882575370 ∷ 0xcf17c3f198e852d5123942c402918656
    ∷ 0x9f1cf97072ee00922c301340a19c91b7 ∷ 0xb3e163f4cbeac4437a962c84a85a1e5b
    ∷ 0xa70314ea9655ebf03ee78a4a320d1ecc ∷ 0x2ab485395195fd37e0fd5b2336f0a00a
    ∷ 0x9f77060b503e1fbccf8b682215821b07 ∷ 0xa4fd17b615f2794b3fbb98ac81e0c5e7
    ∷ 0x3e7faa44b3e919bf089ce8962a41596b ∷ 0xf1cb06f527cfdb2bfb3e3341c878101d
    ∷ 0xfe8cedf87702d7b090a0f07571607d86 ∷ 0xf569a8f30771d73544ad99fb1610b174
    ∷ 0x1e332a7f9b33fc91369ba33503353023 ∷ 0xe04c52de8e81749474a0a3ef746c4c9d
    ∷ 0xe961634b1721573ccbaf4c195ece7bd4 ∷ 0xc50b42bd793d49f0505df93353c4acde
    ∷ 0xf8a9ea7fd860ad32e03ed50aebeb92f2 ∷ 0xf6a622025cb1659a5bce3c4cc7ed0680
    ∷ 0xb6a78250c0253c2a8a985beb3ed16309 ∷ 0xd2ba47f421049058107969e08458e7bc
    ∷ 0x66809b4880f156c8f539441829d11b90 ∷ 0x980b88f3b17ad1bf46ddc89356df550c
    ∷ 0x083177d975088d3b3acb85c5e767948f ∷ 0x07a3e31da3988ccc22a48cb61890ed83
    ∷ 0x12c4f7a7402ada8fac7c2ddc784ca2cb ∷ 0xa7bd8cdd867b4b3812f3066b3db3c006
    ∷ 0xaa098d01c41cc948c138f864a8a62481 ∷ 0x18457233e28062083f7d23b2e481189d
    ∷ 0x1702cda0b76772ba09cea0edc5e5746e ∷ 0xdb200270afe9e05cba79d94ff6d2da8c
    ∷ 0xb93ce415bb6beb51157141149e34bd0e ∷ 0x6266741ef0b85a2fd5ac4a1fb816835b
    ∷ 0x8dba28245cf055574881b05fef9953a6 ∷ 0xe4af90f7979c2c631633131d642dd8bd
    ∷ 0x97f98f4275be120a445cd0275e2cd73a ∷ 0x150a9c0526b11752453a23d8b18a8f3b
    ∷ 0x010bbf6895ade2375c8478a0c3151ce5 ∷ 0x355796530fdacf6d87bcc370f17fc71e
    ∷ 0x9a404317c26f415ed025f32dfabe8598 ∷ 0x15d2eb783afced72c733f6ce90bf7349
    ∷ 0xfb9f445a7acf24b91e6cbe8f9489a7c2 ∷ 0x6f03e5d4ef52a7c05a5a5fd28b159b5b
    ∷ 0x2466fb6d4eb8aa1c700e728fded218df ∷ 0x676cfafe2fbcffd070ddb236d2bb0021
    ∷ 0x91e33a111622283750412eea13c83f35 ∷ 0x88b1f25057c3bac8ee1eeca2ff2209a3
    ∷ 0xc10d6e9c953ebdc8ece36c5cd6223387 ∷ 0x1fb01164b818aa63387a0ec14be5e3e7
    ∷ 0xaca8367a8bfd04541cc836e293255b77 ∷ 0x8b74b13c0d49da16c37a8de608c18e7e
    ∷ 0x79e4197b401889e0756cedda74f46812 ∷ 0xfdfc1643dbd6ad08bd6a4eba37a0e3c3
    ∷ 0x3c4b6a74dd034b4e72bc84652a09a3ff ∷ 0x2f31fab52ef05919d280c2abcf422fab
    ∷ 0x4a2f98048e8605e4d439ff8554ab6e63 ∷ 0x3b7e760d63c75a4c368dd53425084427 ∷ []
