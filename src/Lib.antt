-- ===== src/Lib.antt =====
-- The Polkadot-Ethereum bridge (Snowbridge): the parachain's pallets and its Ethereum primitives.
--
-- A relayer brings Ethereum headers to the light client and messages to an inbound channel. The channel
-- has the light client verify that a finalized block holds the log of the message, checks the nonce, and
-- hands the payload to the dispatch pallet, which runs the call that it encodes with the origin of an
-- Ethereum account. The applications mint or unlock on such calls, and burn or lock on calls of users,
-- for which they submit a message to an outbound channel. An outbound channel queues messages and commits
-- to them, in the digest of a block, every `Interval` blocks.
--
-- The files and the code:
--   Prelude          lists, options, machine words, storage maps, integers: no code of the repository
--   Frame            what FRAME gives a pallet: results, calls that change storage and may fail,
--                    transactions, origins, and the storage of one pallet within that of the chain
--   Core, Contracts  parachain/primitives/core/src: shared types, and the traits as interfaces
--   Ethereum         parachain/primitives/ethereum/src: headers, receipts and logs, their decoding
--                    (Decode), trie proofs (Mpt), hashes (Hashing), the difficulty (Difficulty),
--                    Merkle proofs of the Ethash dataset, and the cache of epochs (Ethash)
--   LightClient      parachain/pallets/ethereum-light-client/src/lib.rs: storage and `ancestry`, the checks
--                    and `verify` (Validate), `import_header` (Import), `prune_header_range` (Prune),
--                    `initialize_storage` (Genesis), its proofs of work (Work)
--   Channels         parachain/pallets/basic-channel/src and incentivized-channel/src: `submit` of the
--                    inbound side, `submit` and `commit` of the outbound side, fees
--   Dispatch         parachain/pallets/dispatch/src/lib.rs
--   Router           parachain/runtime/common/src/lib.rs: the outbound router
--   Xcm              parachain/primitives/xcm-support/src/lib.rs
--   Apps             parachain/pallets/eth-app, erc20-app, dot-app and erc721-app
--   Assets, Nft      parachain/pallets/assets/src/lib.rs and nft/src/lib.rs
--   Runtime          parachain/runtime/rococo/src/lib.rs, with the constants of snowbridge and local: the
--                    storage of the chain, its calls (Calls), the `Config` of each pallet and the dispatch
--                    of calls (Run), and the steps of the chain from its genesis on (History)
--
-- The storage of a pallet is a record with a field for each storage item; a map of the storage is an
-- association list. A call takes the storage and returns a result with the storage it leaves, also when
-- it fails: only a `#[transactional]` call is rolled back. A pallet that calls another one, or that is
-- generic in it, takes the interface of the other as an argument (`Verifier`, `MessageDispatch`,
-- `OutboundRouter`, `Currency`), and `Part` says where its own storage lies in that of the chain.
--
-- Integers are natural numbers with their bounds written out: `checked_add` at `u64_mod` or `u256_mod`,
-- `% u64_mod` where the code wraps. `U256` arithmetic that overflows aborts in the code, which is the error
-- `panic` here. Hashes, addresses and accounts are numbers, byte strings are lists of numbers.
--
-- The iterator `ancestry` gets one step for each stored header, which is enough where numbers grow along
-- the parent links. The loop that marks finalized headers at genesis gets as many, which is enough in
-- the same way. The dispatch of messages within messages gets one level, which is enough (Depth). All
-- other loops are over a list or a range.
--
-- Not modelled: Keccak, SHA-256, RLP, SCALE and ABI coding, and the crate `ethash` (parameters of the
-- definitions that call them); events that nothing reads, logging and weights; the pallets of FRAME,
-- Cumulus and XCM (a storage and calls that the runtime takes as parameters) with their configuration
-- and the fees of transactions, and calls of the root that write to the storage of others; the node,
-- benchmarks, the relayer and the contracts.
pub mod Prelude
pub mod Frame
pub mod Core
pub mod Assets
pub mod Ethereum
pub mod LightClient
pub mod Contracts
pub mod Channels
pub mod Dispatch
pub mod Apps
pub mod Nft
pub mod Router
pub mod Xcm
pub mod Runtime
