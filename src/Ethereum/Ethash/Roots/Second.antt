-- ===== src/Ethereum/Ethash/Roots/Second.antt =====
-- DAGS_MERKLE_ROOTS of parachain/primitives/ethereum/src/ethashdata.rs: epochs 128 to 255.
use polkadot_ethereum.Prelude.{ℕ, List, [], ◌∷◌}

unfoldable pub second_roots : List ℕ
second_roots =
    0x24a5b87aba928ac920362a8bb3a853c1 ∷ 0x5a82f1cd0c0c58f0fbebb02c062dd029
    ∷ 0xd8a989f4d05f65c07cd4f78d4c83d6de ∷ 0x7e100ed69fa83cb97318cf268e063802
    ∷ 0x5f7d7cb3363d1c4b41736787c8fa3a36 ∷ 0x03292bdeef76208a33368b1dd89c5f4f
    ∷ 0x6b619e4bfd91e47efc4c6a18d6d2ddd4 ∷ 0x49e98cfac5039df5711f7bc82ca704fc
    ∷ 0xbd17f87c484f37449d0cb26bee85352d ∷ 0xb29204f91eeec3a61cf80f78d341e981
    ∷ 0x0e2806dac2236f555aa1b60d44e6bb94 ∷ 0x84762739d031e5c2809951560a9aeaa2
    ∷ 0xdf1404d9feadf66ce9b6106bd730323f ∷ 0xbf36c772e3f353b177dd77ff0af7f658
    ∷ 0xc01a75724444ea62092d205d4f1faff8 ∷ 0x0eb6c4edf01055c26f19606f80660a82
    ∷ 0xc5475e77e5b769f6e97f0aee53bb2927 ∷ 0x3a2a5f7f0ca0c8270800aa61bf75a256
    ∷ 0xe2fbc1e07d14ac6e3a96cc9055750013 ∷ 0x226e5bbb1137417f87d4d0a638739739
    ∷ 0x745c89d0db4461d9cf03e483f9ed2d66 ∷ 0x70ab39feaf98c852e8fac994ca8cc297
    ∷ 0xcd9d7ebd5e7484375ec35bda9ebfad9b ∷ 0x080de890fd9263b983b58e52f6dee214
    ∷ 0xf67c8e857d379a60f7bf47b13ec08dc8 ∷ 0xb0b8ce46fdfa7f8b0091182cd9e52c19
    ∷ 0x3fe2d70b44670254ddeaed4e46ba2d6a ∷ 0x1e0f257e0107db4a3be7208c3490f3e8
    ∷ 0xd0eb4a9ff0dc08a9149b275e3a64e93d ∷ 0xeeab095cfa3a4dc8de4daf9c3e5affbe
    ∷ 0xbee906bac51d709fa6c8d852834506fb ∷ 0x85cd74d6633623e3e09d3b2ea0e8eebd
    ∷ 0xf296dfe85523c5ab10cda4edaa513a52 ∷ 0x7d8ced87ed7fd15b2e4bbc0264e76f99
    ∷ 0xae69988dd1df0ff853e6ee66a5fe3210 ∷ 0x4469c4d95255369c6461be2862b915b4
    ∷ 0x5709b43c1560bff7d265cfd850627680 ∷ 0xdeb4f8617f931348359a3811076a30eb
    ∷ 0xf881b9bdedd6f655e33220d24e1cc2eb ∷ 0xad903ea64fc18d570cd9a50e86bf033c
    ∷ 0x4b3ac2630be5f8aab921697d1d1404bd ∷ 0x07d5dd8bb48e7a72880b329cff744c4a
    ∷ 0x84567d5b5e74e94c2373574d42ade1be ∷ 0x63cf6b1ebbb29334730d8b9321cd264d
    ∷ 0x83094b1464a6bbf92363619af081e20e ∷ 0x7a93ae31b228b723301bf96ab9b0a09f
    ∷ 0x16873ac9aead7c99286cce23dd91b4ee ∷ 0xbf293be8af1eb38d7080957c7e1f8aeb
    ∷ 0x967668d49545810fcf18632a5a3431e9 ∷ 0x475d5bbd6272a2695f66d2056da42bd9
    ∷ 0xafc7e6ef08b5b8dc7a2bb1027160cd9c ∷ 0xaa694f10ce796540ed77418cd9b35c86
    ∷ 0x8be1f7a470d0c1edbbec6728fb0ff366 ∷ 0x7444078510fe6d9b3cf94188059a1366
    ∷ 0x3739215eb46221b4040eea02c7757573 ∷ 0xa71b11286fff39e65eb3c8b3ac9a7219
    ∷ 0x4b48bc59af9ddec38279e60178263779 ∷ 0x6076a0b6743690958cf040bfaefac391
    ∷ 0xbead81dbb9227ba51a02f827f8dee2c5 ∷ 0x89508f9f01576f81853e8b92ba917838
    ∷ 0xd075a5b5dcf20971f2e70e816bbcbb7e ∷ 0x009554c550589a814909c9805279c743
    ∷ 0xb470cf622846d536ad7b288b9074d667 ∷ 0xb87704373978613853240a3ec9368e8b
    ∷ 0x7127b8d0e757abd6830b787afd829201 ∷ 0xf0cab8ea67e0a38ad606ab83ba6bc67e
    ∷ 0xa408633718e44f4817c329af0395aabb ∷ 0x4607a3ecef00a24da74521f22a6f8bee
    ∷ 0x917cb60d42ccc40442e48be457f51dea ∷ 0x90222d408a76f7f55fbb18282bef90da
    ∷ 0x481d56afbd0ba6978e0ab2ada7b3506c ∷ 0x604d874175bd36f8a02ce56b31ca827c
    ∷ 0x6dc7717dfba128a330ea277dca94141d ∷ 0x86226285351eba0c6e818826b1c562fb
    ∷ 0xae7280a5b84931846adff138820f221c ∷ 0xbe628492637e26e6489375f3a2938180
    ∷ 0x7559678bfebb6f78e5c8026b17eadca3 ∷ 0xf38e7a19c004dd22688cf0079680bb1c
    ∷ 0xc3b0e6a2b106f925aa2f92aac6213f8c ∷ 0xeec733087a807a87a0c346de11513e12
    ∷ 0x4c6d1ee77b414dc3bc448ecc0769a376 ∷ 0x303db177352ecf1920f09ba9fc8c6514
    ∷ 0x8e38c47ebaf4ce8dc05178f3c5a9e86b ∷ 0x104570237e9cbf0f4836ec8c4ff42f65
    ∷ 0x4776ebe704f27086bcb98059906e8e3a ∷ 0xc5aa722b23a6deef1d15a95f32dc4797
    ∷ 0xc6188b4ee8720e1efa99aebeb02c7a67 ∷ 0x32701ac4e10f922048e0a7368e1f0452
    ∷ 0xe5988223410c1d4f4260994faaf952b3 ∷ 0x2a92d9428c88e74bf47e545ea2025857
    ∷ 0x04ca250a42e1f227955846abb768a035 ∷ 0x05b4a77d503468b71c0e730753fc1a56
    ∷ 0xd7caf66b03181401cda1369c123d19f6 ∷ 0x6d3e29cb829b58d3fe90129c20dc9abb
    ∷ 0x41b4f0817f11f8016023d74dea3eec97 ∷ 0xaeaa60d08ac92150b54908f7f8a92857
    ∷ 0xc9453b8e185fb93ea0e1282e8803eff0 ∷ 0xe87f027df74563c88e700dfe057432ee
    ∷ 0xaf377ff39afc683033823eeb3ed0f10b ∷ 0xf56a0b076a6bfc3eea7b1804b946d947
    ∷ 0x69ba2470b6623fa3b9d68124e329513e ∷ 0x575aee5f222f5ae9cca0973be3ad572f
    ∷ 0xda97a6cd52c728a6f3bca987ebfa8cad ∷ 0x4b5536ec8aad2250a2e38f6bfcdf58f4
    ∷ 0x8fd3b4c5ad2c5743a6aae9f8219a60c6 ∷ 0x145b1a9812d684da23e74fead96c8552
    ∷ 0x7617defe6ad9c021bc9bd7c809675624 ∷ 0xd9a2e97eaf84cce6294581acce315ed7
    ∷ 0x3199b22620f39d534cd96fa8a032998b ∷ 0xb1ca9b7eb944ea1f16364a1222b9afcd
    ∷ 0xecd0e506f3792f650fe5a00694afc356 ∷ 0x3b96f1eb7ad3124a51372cbe56f5c5e4
    ∷ 0x962a5ed01d20d1202172cae5c4b1c7ed ∷ 0xb5e9dc0e5c554931dba835dc88102421
    ∷ 0x4596b31e8bf6c1f24b122de58efc7e1b ∷ 0x224536fd41573a41daf7e131be8bdb09
    ∷ 0xef9661b2ac61737aa4bbba6fcad9f860 ∷ 0x26c9661a65164390de94c2d38c1f568a
    ∷ 0xcc0b4699871953942cea3d167e8c9956 ∷ 0x575617f32549dc68ceb014b2f69d3b80
    ∷ 0x932544c41c0e2d7af28189e513fb7ec5 ∷ 0x4b8e46de3ce76638280b9a699dfdb620
    ∷ 0x53406aff68e56538b48fb98364e1a5a5 ∷ 0x928ae8d7116355d36b946a8182fc9923
    ∷ 0xe30282bce7cdf44def0f840b6321e335 ∷ 0xbeed3d40f310c0c6d0e18443f3304a60
    ∷ 0xe2725bfdbac45fa18dabf0eb892f03d9 ∷ 0x07b43c42513772bc09aac4e471d67b16 ∷ []
