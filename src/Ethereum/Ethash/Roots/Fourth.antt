-- ===== src/Ethereum/Ethash/Roots/Fourth.antt =====
-- DAGS_MERKLE_ROOTS of parachain/primitives/ethereum/src/ethashdata.rs: epochs 384 to 511.
use polkadot_ethereum.Prelude.{ℕ, List, [], ◌∷◌}

unfoldable pub fourth_roots : List ℕ
fourth_roots =
    0xdbd55facc2eed4edae760a2ba92b4f39 ∷ 0x43b123b7bca43b561fc26e423bcef939
    ∷ 0xb6305a7b627bc5973e579f6984661e92 ∷ 0xec1c177be3ea3294f799a7431bddc5ed
    ∷ 0xdb89f09027441e9465a797737c5a647a ∷ 0x56dd88789701e0e1c682d8ad251dbeb3
    ∷ 0x569403a8edac9edce0cf1e8876c53174 ∷ 0x7713e55406eb2a9076398f94d0a58692
    ∷ 0xc1f88b2f71fa2e1a988038cf9d3df04f ∷ 0xd81ef241ea5de4b34aaf39ab1b083642
    ∷ 0xd375d23cdd8026becba44bba2b294c3f ∷ 0x1b7eee6c46118d885bcaaaabb2f9badb
    ∷ 0x89558455a420ed8268a592b0eaf204c6 ∷ 0xb17d6916a9d0db09432db599e90327d7
    ∷ 0xe1b36f36682b4fae32da6979590cc499 ∷ 0x612373badc313851be94e09ccff61c5a
    ∷ 0xfaf60883e0085e9672e6521bcdb86f5a ∷ 0x7784f2c8187dddb17dc42deeb335b625
    ∷ 0xe53fa1a5071b726701e5eae987891d4f ∷ 0x5c8291e6ac0b0abeac024d54547aec5b
    ∷ 0x6462d16fbb1f465357418796773abc49 ∷ 0xcab6e515313f84de7345574d91480771
    ∷ 0x5f64f987085767b41be43f261a8ba025 ∷ 0xd6c688f958dbe3b9a333041c25e067f9
    ∷ 0x80f05a86da8eb6a002c54c1305d5dc21 ∷ 0x60bfbb201ce2fb723edf4a6e2433b6d7
    ∷ 0xebc37a445da40d345532a1b9bad5445c ∷ 0xd47c63b0619011b6bf65c269a047def5
    ∷ 0x1aba33a3d2b769a78bd6ff673be3b632 ∷ 0x04b7d271316b4c31a58f21d31ddb5fd0
    ∷ 0x3226afaecb913b1380a2c4220efcf329 ∷ 0xdc0605dbfafa3292db3e030284dae0c9
    ∷ 0x42cb016d792a792545f5d3628d280b86 ∷ 0x209c20b1a337f22459ddfe9cb9cc5616
    ∷ 0xf136ac0b645a83514ba9e2b5dd6b33f6 ∷ 0x93d1365bf44fee8d78521c97ba8fe6a5
    ∷ 0x9500fa38f25ee9bd5140db4f3f9ca585 ∷ 0x3dc470c2bf7dbd809c66c922c31b673d
    ∷ 0xd03478b8608f6d68335d25256c9ddecb ∷ 0xe696ad7c49a89b837a68bf8aad0670e6
    ∷ 0x8c4a01a4de7453ea9d5e01851b68c624 ∷ 0x0064ee1b40e9947a06f5692a367cfcf7
    ∷ 0x44a780519b6751d1ce84c01dfd26919a ∷ 0x810e0008a42674b8503ccee1e487359b
    ∷ 0x14f37bbb397085efd87ca8d08f73745c ∷ 0xa4531df9fb35ffeb48f433aec36d2644
    ∷ 0xebbcecd01539dbbf24f6f918afb8c8f5 ∷ 0xe594f29d5159f01eb37b4de961edf17f
    ∷ 0x435fb4690bd8681ce2e7aa577fe88428 ∷ 0xc685712dda4ca735a9336290c19e6757
    ∷ 0x76fa7c02c91a2acd4feac2c8b7e79241 ∷ 0x6ded6bbb2b6ac1a8bf368ec35f8c0004
    ∷ 0x853104204b4e7dd21f1891a57dc99bda ∷ 0x016c939b9fad1bc914827b81b63f8f8a
    ∷ 0x0aad21f534784ce6e55bc860be909ff8 ∷ 0xd892c0ed69e87bbcb0b75e954629415e
    ∷ 0x6e00495d56c440a0bfe596a261856dc3 ∷ 0x12c24ed58e08eb9d84123af23954338c
    ∷ 0xb253ed770e7a12a526eb55524e9b2d78 ∷ 0x867143a311b72df9301212469856d6e8
    ∷ 0x30645981186d86d7f453b627474bb186 ∷ 0x628df7191dbce185c3894f83b4b100bc
    ∷ 0xabf05f494a51a66d0be185be6f9b55ab ∷ 0x23b6a4e817837ea9bc1e8cf4d12432b5
    ∷ 0xeedbaa71b581216e1bb14b5b6e370cfe ∷ 0x6571c261d0d1d9ac6ec81ef3c5579738
    ∷ 0x90ca319d7900ab33585929f87f87f4f7 ∷ 0x3aaad6c72aba1f9bbeb03ddca6716189
    ∷ 0xe2c1d3bd988d38bc6baaa7572d4b33a3 ∷ 0x2b06afc482dc2a2814244c0ddb85172d
    ∷ 0x311d1fdee66191a759777222b885042a ∷ 0xd32037774ed016be27a05110188f33f5
    ∷ 0x8bbe9d2540a8548c6e837c1ca1be1736 ∷ 0x97d081a75c821656392370b91f0551e7
    ∷ 0x6cdb7e28fad3da3419f3bdbfda3670ef ∷ 0x0eef01ab63f2fea60d800a3e50ce7f4d
    ∷ 0x26de913e72381b29ae92553c5dd56026 ∷ 0xc010b7c20f4e8eb014c9e14ae5a2cfe7
    ∷ 0x36349c7a4f4419889ac51938e01dd562 ∷ 0x62a66c09d10bb962a9482a274fdd1ad6
    ∷ 0x0ca8993c5f9e9441ee476186e825fd02 ∷ 0x32720f4423f0c648aa43f00eec2faa7d
    ∷ 0xa5a0c7c7cd1643d0ed59990e9aaab8e1 ∷ 0x75a4421dc20eb16958d5cc74d0018376
    ∷ 0xd18f3989a5ad09f60559eb953918ce96 ∷ 0xbc1b06b4746555e1da474d99578e1bd8
    ∷ 0xc156a24e9e9461df6a7b38135e15251d ∷ 0xa86706531ea8351a7ab7e346af0f29c3
    ∷ 0x1e09fb83c81c2e837ec8182d573fb9d3 ∷ 0x6056b80049473d253538113d651825fe
    ∷ 0x48aecd0743c8149eb5f9aec60f347f7d ∷ 0xa028808b3199d97d3fc40436bde64c56
    ∷ 0x9c84842024616e12f5733c3c64877d8f ∷ 0x61a39835bde221a5e1ceef6f92b8ab78
    ∷ 0xa9705493cafe59c707acd9d03b91f648 ∷ 0x0bc0761a4c3ec1f871638dbdd7786fe1
    ∷ 0xa798e4c2b322a4e64cbe4a1f86ab3721 ∷ 0x5c36cd452450b556692b4958b5c64d2c
    ∷ 0xfcbcc2f7cb02c16981037e57c8a6aac6 ∷ 0x68b580e09ca06432272557e38d2cb250
    ∷ 0x8166a9706fdf02dfb2548852b0080cde ∷ 0xf5bf78f8ea50a5cc718e8cfd22f96013
    ∷ 0xf78d251520533f415055ec2f705d050f ∷ 0xc4ae15a70fa1e873e3ea7c747b7eb2df
    ∷ 0x219aea4518c67efe0389e5b3eb083d3a ∷ 0x92eedded99e1bb261e106a9d23bb6b97
    ∷ 0xe6c5f02b94e81da315deffa12bbf5f8f ∷ 0xbeea81cbe3ebf59d893c325dababaa8c
    ∷ 0xd838adeb0ac44aeb59d09eede9074d14 ∷ 0xfabaa47e5558692b9b17621a26549da7
    ∷ 0xef9da8f942af3ee8bf2803c65e25e51a ∷ 0x200211848e159a56eeb6cec602ed583c
    ∷ 0x83b04a1330ad921447fc3ded47ff75f0 ∷ 0xcdba71a13a331d9fb32e16e103bd5dc6
    ∷ 0x6d261a84b2e3f0f45f945982000a07db ∷ 0xf607a8685065a531fa2a7198ca2181b7
    ∷ 0x7f636cf604a13da02fc30d632feb1088 ∷ 0x717a02b8df54a19dc814b7fc875ecfdb
    ∷ 0x828188a8255344756d3763267c145ee6 ∷ 0x7cf82d8169205840fb432bf99543f39a
    ∷ 0x47409b2432ff64f26c16f3bafccacfc8 ∷ 0xb0266545e832b14a2a70aa9f64bfee3c
    ∷ 0xa27425aabc0a1193e41c8a25da150268 ∷ 0xf631b7ec97e689f418d953ab50c6eea2
    ∷ 0xcdd6e178da5a864c0f4efcaf2f09a7a1 ∷ 0x8dfb54b631c611bdd3d9b8ea1a139351
    ∷ 0x75c92c082a8a3b145cae31cf00f84fa3 ∷ 0x7a9010568819de327a24fa495029adcb ∷ []
