-- ===== src/Ethereum/Ethash/Roots/First.antt =====
-- DAGS_MERKLE_ROOTS of parachain/primitives/ethereum/src/ethashdata.rs: epochs 0 to 127.
use polkadot_ethereum.Prelude.{ℕ, List, [], ◌∷◌}

unfoldable pub first_roots : List ℕ
first_roots =
    0x55b891e842e58f58956a847cbbf67821 ∷ 0xfba03a3d1902b9256ebe9177d03242fe
    ∷ 0x2b186dc65b93be71780e5194fd44fc70 ∷ 0x94c0532d49523cd9309057a847ef0dbd
    ∷ 0xf61d6da773315bdd4c79418186ebaa4a ∷ 0x28e89dd2e1e5e09ee3e4cf412af58a0e
    ∷ 0x54a0171c74e7336634f5b6b61f2b302c ∷ 0x3be685b693d9ddfc342406fcc8d98512
    ∷ 0x1887acc39d0818a7c6d47e33904a150a ∷ 0xe1434e68f6a9f30252e2f31be8db9658
    ∷ 0xa5e981ffaa1f770de8a1d21550f49755 ∷ 0xf4a55238db60864330a300e1d05dba16
    ∷ 0xf4b2032ab23f95f9c9516db6d43372ce ∷ 0x5fa11b8f22bd56e5bbb4cb0f843b6730
    ∷ 0xad4e75d7abf04b5798d8d0c832bf6833 ∷ 0x7df3208dec48fb446e0f89da95843d8a
    ∷ 0x250e4cae8e10486589190b68608af301 ∷ 0xa55b182e12b1433a4935514bb729d2b2
    ∷ 0x99456d6b4f8886afbbafa6a758830a92 ∷ 0xcfd122fe8a0b3c8984e1a603e97bae53
    ∷ 0x0d05ebdd6eae46efa4b0c7694e6db158 ∷ 0x7e59bb58278cbd8f9470fe8636c4edee
    ∷ 0xc48e2800c2442220eb1d0a9d9d08b437 ∷ 0x185f8beff965e31b7859b9b63fc79f97
    ∷ 0x6e6c22abdb238266d3fa0f2902f85d7c ∷ 0x7345950e2b649e10596ae6be11782110
    ∷ 0x0cc51bae63bfb29add017e4a0f89f97a ∷ 0x0a5a13ee1aea57228395fc64b8a1852e
    ∷ 0xecb847d99f761b457747886f4e0c81d7 ∷ 0x9eaf4241ffab9b2d693b96420dbd0356
    ∷ 0x93f46416f3ef2d5ea57fe1a25c89cfea ∷ 0xec1ba1810cafc7c0fe76e7bf50809bb2
    ∷ 0x5ce691721774a58d63e53da2b80f0dbc ∷ 0xf570455f0bfca4359608d92ba076c0cc
    ∷ 0x1cdc79438ea2129bc739fc9497f53c14 ∷ 0x52bfc78f0fc5839e04f1c729c73a1469
    ∷ 0xd711787384841b856ff7f4d53e5e42df ∷ 0x63dd408ecfdd6e71d45cddfd45aff23b
    ∷ 0xb0b09781e2c5249c9c248e0062a681ea ∷ 0x0d9d5d09f198c9637b510bbac6f33f34
    ∷ 0xb572f9b06f63d012d848174bd1191588 ∷ 0xd7ab790f4a80e62b38d3a8ae4d170832
    ∷ 0x9184028922c8de7accdd9d72106aed6b ∷ 0x9d52e83fb1ccb288a8bbd7094ea25221
    ∷ 0xcb56adf452205662e1f83e51c0c496b5 ∷ 0x761eb4593abc7603cf0b5ea95d3661bd
    ∷ 0x35ca47a1892c4524442a83fdc5231d3d ∷ 0x289f4c7339489b0d07c8716fbf169c74
    ∷ 0x75ec671be4712c1ce838fff26ef1122d ∷ 0xab650e5529ec2ce4147efe135a061eb1
    ∷ 0xe0e637747620e8c1c0ef440b99eb9ce7 ∷ 0x94c0e63214f027f2ddd3ea463e44beb8
    ∷ 0x8548626524a60410aee37ee400d237fc ∷ 0xd80eb32a857a1f84b23801f6e4242459
    ∷ 0x4853cb0907651c681f1dfbab0646a828 ∷ 0xecd1edccd4844736d8a8e01d4ab21e59
    ∷ 0xfb58a3ad252f9d576dcd1cfb23d32b89 ∷ 0x583b5070f416adbbf796976b2ca27066
    ∷ 0x259d6fdcd7c3e46dd1a57ae64abda536 ∷ 0xd0c6caf2ce368aa85881e8c3bca18192
    ∷ 0x7d54a3c9d517fba4ffb88cace0276c43 ∷ 0x630201121608bdec230db5d012bacfb4
    ∷ 0x0da36e18ac524cab0cbd44ed0e70bf0e ∷ 0x864cf4a44dfa1f5419a85613e03340b3
    ∷ 0xd0369950eb82302e887caaca083d31b7 ∷ 0x2993e04f04c9b8476e92871886d88d7a
    ∷ 0xdd49abb10a5bfaff4503b3a31874ac65 ∷ 0x96f5bb80bb703cd6b940b0fab926195a
    ∷ 0x10e2c9baae90477c9be2f10365c29130 ∷ 0x696469c514035c0cdf657865a76c8b05
    ∷ 0xe988c9b6348ae392d81e9d224c608247 ∷ 0x81a816b9971534a48e6ec21994b78c81
    ∷ 0x5498cb9019ba94f896e2c04140cd036a ∷ 0x17fa73eaa092e4bce97e3ba4b770a0b8
    ∷ 0xe8c7b08816fc5215dfbe44cd46b47dec ∷ 0xc30789092db881251b0c5f7373e0c6f0
    ∷ 0xf397a1ac039c5e8bc374d1fd03568042 ∷ 0x33ec1f25215eae69085a3fbf7a6b27fa
    ∷ 0xf6fdd17ce7427518d0631e269924f45b ∷ 0x036c902bf005559ba3082e5f2201e614
    ∷ 0x1fc45e655afc624fb90a7e0795b20b86 ∷ 0xbc94ffd5e4f606a12f0c0425d7bf1013
    ∷ 0x21abfc7ec366c0b93e047d0d9d9df4bf ∷ 0xb8a9f1c0b2d0601e00bb6fa35f3970e2
    ∷ 0xd67fcb43ff2287a0cf8cf1f0a78ebc85 ∷ 0xade2d8bdd4c48bd437b41d2a36424ef1
    ∷ 0xd5550bdc493b35a3480c7a5f5d93e939 ∷ 0xb069c39e1059a068f9aa767b5a2c39d1
    ∷ 0xe151a181c34b360acc4ae8f41f0eb923 ∷ 0xfa407454a0690b03f714c08ec72b3247
    ∷ 0x10ffffcebaf525fbadcbe4aa46104680 ∷ 0x25569aef3173e2e81bd94a5e7904fc1b
    ∷ 0x28681502310381ebc0ae31947c3cb188 ∷ 0x5db958abc1654596872a50938a0c9b24
    ∷ 0x7c744e082a52a74767b70a72ec4489a9 ∷ 0x5b18ccdaa7efd9b3aff6bad60d547c81
    ∷ 0x86322eab36c65090a3b7fdb5d7bc091c ∷ 0x8423baac6908031fd9d08157f686b2dc
    ∷ 0x08a1ade53581b4c029e1c002e51ceaf3 ∷ 0xf1ed7d196dff54c3421321acf939e08e
    ∷ 0x2752d9c907207388e62373ed510c4e88 ∷ 0xc3c06fa841383ac60ccb91e4e05580d5
    ∷ 0xa4c95f5a9ed58116110e43e663425608 ∷ 0x2c5bd140dff9063bba7ec0a206a3a4a0
    ∷ 0xa5848a52ea19a2e85afeb598ce50eb47 ∷ 0xff6279dc1306e5169f95f0b060e34b39
    ∷ 0xda33c34ef46e9dd360b8dbe6531901b4 ∷ 0x83b7e0dbe63ffc49ffc59bae4b7b683e
    ∷ 0x5c051f94fa62a73c11cfee276461fdb0 ∷ 0x798e3ba76c500e8177f392003ed1872b
    ∷ 0x583d7265ee7126131854bbcb0de1f310 ∷ 0x90e4980b35640a8b3bb682ef2606e476
    ∷ 0x6d431024b5bffd1270c0d041a05b815f ∷ 0x496322b442254a79d1dd0dfdd6f51def
    ∷ 0x92182683f38300b23bc0412e4138ac05 ∷ 0x212df134572585d10dd251f536025085
    ∷ 0x63e2dbdb3937238a5d08cdf2b578b4e1 ∷ 0x96b819206e1d15573307e27b6ad290db
    ∷ 0x0c54a577923b77c5a4ee726412c43be2 ∷ 0x155b53faed668b73ad702c93296a3e01
    ∷ 0x896d7317a2f611e7363d93db93bcb72a ∷ 0xa39c09d3a4ba25f3ce6691b85b390f3d
    ∷ 0x7148171957df73a82553216488e35859 ∷ 0xca049d60e60b7b69047e42f0b436ff67
    ∷ 0x6f402a4a8208e9e49d4bf06f6ce7e11e ∷ 0x95773e0c271ded0e10d2b47221c91e0e
    ∷ 0x80fd5388433e89d3e74da2637216e3d8 ∷ 0xe35fe60581edd06fe880059a63952380 ∷ []
