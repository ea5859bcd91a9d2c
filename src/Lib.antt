-- ===== src/Lib.antt =====
-- The indexer of the repository: it follows the logs of the Diamond contract and keeps what they say
-- in RocksDB.
--
-- Parts, and the files that model them (paths from the root of the repository):
--   packages/indexer/internal/store/store.go, the database layer
--     Store/Keys: the key of each kind of row (tokenMetaKey, holderKey, eventKey, ...)
--     Store/Records: the structs, and what json.Marshal and json.Unmarshal do with them
--     Store/Values: the loops over rows, and the reading of values; RocksDb/Scan and Backward, the
--       prefix scans in both directions
--     Store/Tokens, Events, Assets, Identities, Freezes, Cursor: the operations on each kind of row
--     Store/Ledger: RecordMint, RecordBurn, RecordTransfer and RecordEventOnly
--   packages/indexer/internal/indexer/indexer.go, the event loop
--     Indexer/Abi: words, slices and ABI-encoded strings
--     Indexer/Transfers, Assets, Wallets, Protocol, Recording: the handlers of the logs
--     Indexer/Quiet: the handlers, seen from the rows of the ledgers
--     Indexer/Dispatch: handleLog; Indexer/Sync: backfill, pollNewBlocks and Run
--     Indexer/Replay: the moves of units that logs report, as an abstract machine next to handleLog
--   packages/indexer/internal/config/config.go
--     Config: Load and AllAddresses
--   packages/indexer/internal/graph, the GraphQL interface
--     Graph: the resolvers of NewSchema in schema.go, buildAssetView, and Handler in handler.go
--   packages/indexer/cmd/indexer/main.go
--     Process: the answer of /health
--
-- A log reaches handleLog, which finds the handler of its first topic; the handler calls the store;
-- then the cursor is set to the block of the log. An operation is a function from a state of the
-- database to an outcome: a value, an error or a panic, with the state that is left (Action).
-- Action/Returning has the rules for calls that return.
-- Functions keep their names in snake case. Log output, waiting and the locks of the process are
-- left out.
--
-- The abstract view of the ledgers (Store/Ledger/Holdings) is the number of units of each token
-- that each address holds, with the moves mint, burn and transfer. Rows track holdings if every
-- token has a ledger in them (Store/Ledger/Rows: metadata, holder rows and rows by address agree)
-- and every address its balance. Store/Ledger/Refinement compares the mutations with the moves.
-- Indexer/Replay has the relation between holdings that a list of logs describes, and
-- Indexer/Sync/Refinement the one of the ranges of a backfill.
-- That relation has steps for `Minted`, `Burned` and `TransferSingle` between addresses, for the
-- `TransferSingle` from or to the zero address directly in front of the `Minted` or `Burned` of the
-- same move, and for logs of other signatures. It has no step for `TransferBatch`, which handleLog
-- has no case for, and none for a mint that only `TransferSingle` reports (AssetGroupFacet.sol),
-- which handleTransferSingle skips; the units of both are missing from the rows of the indexer.
--
-- A resolver is a function from its arguments to an action on the store. graphql-go, which parses
-- the query, fills in default arguments and serialises the answer, is not modelled; Handler takes
-- its run and the decoding of the request as parameters, and returns the calls on the response
-- writer.
--
-- Parameters. RocksDb is the interface of the database, with any state and any errors; IsReliable
-- says that its calls do not fail and that its rows are a table sorted by key, as RocksDB documents,
-- and RocksDb/Memory is one that meets it. Ethereum holds the functions of go-ethereum on addresses
-- and hashes; IsLawful says that the texts are plain and that different addresses have different
-- texts. IsDistinct (Indexer/Replay) says that the hashes of the signatures in front of the cases do
-- not collide. Node answers block numbers, log queries and calls; nothing is assumed of it.
--
-- Numbers. Big integers are the integers of Prelude/Int, and uint64 arithmetic wraps at 2^64. JSON
-- is modelled from structs to objects of fields and back, with the checks on the size of numbers and
-- on UTF-8; the text of an object is written only where the code stores it as a string (Json/Text).
--
-- Termination. The chunk loop of backfill runs on fuel, one more than the latest block. Since each
-- chunk moves on by 1001 blocks and the first block is not 0, the fuel is enough unless the block
-- number overflows, where the loop of the code does not end. The tries of a query are counted as in
-- the code, five after the first. The ticks of Run are a list. All other loops are structural.
--
-- Not modelled: the types of the GraphQL fields and the page of PlaygroundHandler; the start, the
-- signals and the servers of the process, which call libraries only; New and Close of the store, for
-- the same reason; the bindings, which abigen generates and the indexer does not call; the
-- contracts, the web application and the tools, which are not part of the indexer.
pub mod Prelude
pub mod Bytes
pub mod Action
pub mod Json
pub mod RocksDb
pub mod Store
pub mod Ethereum
pub mod Node
pub mod Indexer
pub mod Graph
pub mod Process
pub mod Config
pub mod Tests
