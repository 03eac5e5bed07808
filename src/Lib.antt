-- ===== src/Lib.antt =====
-- WcashExplorer, the indexer and store of a merge-mined chain.
--
-- The indexer (src/indexer.rs) follows a Wcash node through JSON-RPC (src/rpc.rs). Each block that it
-- fetches is verified (src/auxpow.rs): the proof in the raw block, the node's word on that very
-- witness, and what the configured parent sources report. The store (src/db.rs) keeps blocks,
-- witnesses and transactions, and the canonical chain that selects some of them; a reorganization
-- replaces the end of the canonical chain in one transaction. The HTTP API (src/api.rs,
-- src/analytics.rs) reads what is stored.
--
-- Models, Error: src/models.rs and src/error.rs, type by type; a `String` is the list of its bytes, a
-- `DateTime` its distance from the epoch in nanoseconds. Crates: hex, base64, SHA-256 and chrono, as
-- parameters. Io: questions to the outside, answered as a function of the moment of the question, so
-- that two equal questions may be answered differently.
-- Config: Env reads variables, Network the settings of a network and their checks, Load `from_env`
-- over the parsers of URLs and socket addresses; Accepted and Loaded say what passes (src/config.rs).
-- Rpc: the answers of the client and their checks; Body the bounded read of a response body, Call one
-- request over a transport, Client the methods of the client, Identity `validate_chain_identity`.
-- AuxPow: CompactSize, Solution and Target decode bytes; Observations is the parent lookup and its
-- classification; Verifier is `AuxPowVerifier::verify`, over the proof crate as a parameter.
-- Store: Convert the guards of columns, Ledger `insert_transaction`, Evidence the part of
-- `insert_block` behind the block's row, Chain the blocks and the canonical table with
-- `commit_block`, Publish `replace_canonical_branch`, the status updates and the choice of the
-- evidence to refresh, Networks `initialize_network`. A table is the list of its rows; an
-- `INSERT … ON CONFLICT` is the function of Base.Table that has its name. A transaction is a function
-- to a result, so an error keeps the old tables. The order of the columns and the JSON that is only
-- preserved are not looked into. Selected and Refine see the canonical table as the list of the
-- hashes that it selects, and the operations as functions on that list.
-- Indexer: Sync the computations that ask the node and run transactions, Fetch one block, Pass
-- `find_common_ancestor`, `sync_once` and one tick of `run`; Triple how a property of the database
-- passes through a computation, Ancestor, Keeps, Finds, Stays and Safe the proofs. Loop is `run` as
-- a step relation, whose steps are passes, waits, and passes that are dropped at any moment when the
-- writer lease is lost; from one run to the next leads a start as `main` makes it, which binds the
-- database with `initialize_network`. Every database statement may fail, and the clock and the event
-- ids are functions of the moment.
-- Api (src/api.rs): Cursor the page cursors, Halving the next halving, Amount the printing of
-- amounts, Rows the rows of queries and their views, Pages the pages of blocks, Readiness `ready`
-- (Quorum and Sound say which rows make it ready), Search `search` (Hit says which rows it may
-- name), Lookup raw blocks, `status` and `address`, Evidence the AuxPoW evidence of a block, Detail
-- the details of a block and of a transaction and the pages of transactions. Listing and Followed are
-- about a client that follows the cursors from page to page.
-- Analytics (src/analytics.rs): Exact the limits and the exact arithmetic, History the two
-- histories, MergeMining the counts of merge mining, RichList the rich list, AddressStats the
-- statistics of the addresses. What an aggregate or a join selects is an argument of its handler;
-- the queries on the canonical table, its witnesses, links, observations and transactions that
-- decide readiness, search and the pages of blocks are written out.
-- Startup: `main` of src/main.rs up to the point where the explorer serves, which joins the
-- configuration, the database and the parent endpoints.
-- Examples: concrete inputs.
--
-- The printing of a number (Base.Decimal) runs on fuel, the number itself, which is more than its
-- digits; a client that follows cursors (Api.Followed) runs on the number of requests it may make.
-- Every loop of the source counts through heights, bytes or rows, and is recursion on them.
--
-- Not modelled: the timer, the lease monitor and the statements of the advisory lock, which choose
-- the steps of Indexer.Loop; the HTTP crate and the JSON decoders (src/rpc.rs), parameters of
-- Rpc.Call and Rpc.Client; of src/api.rs the router, the OpenAPI document and the list of
-- reorganizations; of src/analytics.rs the routes and the aggregate SQL; the serving, the signals
-- and the logging of src/main.rs; `connect` and `migrate` of src/db.rs, and the constraints of the
-- tables but those of the canonical one. Between two statements of a pass no other writer changes
-- the database, which is what the writer lease is for.
-- A COMMIT whose acknowledgement is lost is not modelled: a transaction that fails has changed
-- nothing. `ready` asks three queries, which here see one state of the database. Questions that
-- `try_join!` asks side by side are asked in the order of the source. A height of
-- `next_halving_height` is a number without a bound, where the source has a `u64`.
pub mod Base
pub mod Error
pub mod Models
pub mod Crates
pub mod Io
pub mod Rpc
pub mod AuxPow
pub mod Store
pub mod Indexer
pub mod Analytics
pub mod Api
pub mod Config
pub mod Startup
pub mod Examples
