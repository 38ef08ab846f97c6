-- ===== src/Lib.antt =====
-- The wallet core of full-service: its txos and transaction logs in the database, the choice of the
-- inputs of a transaction, and the sync of each account with the ledger.
--
-- Prelude has what the parts share: Boolean tests (Tests), lists (Lists), sorting (Order), signed
-- 64-bit integers and the casts of u64 values (Int), results (Result), calls that read and write a
-- state and may fail (State), properties that a call keeps (Keeps), and what it does to the state
-- and answers (Effects).
--
-- Db is the database (full-service/src/db/models.rs, schema.rs, wallet_db_error.rs and
-- full-service/migrations): the rows (Schema), the errors (Error), the tables with their keys and
-- statements (Tables), filters, joins, order and pages (Query), and laws of rows (Rows). A table is
-- the list of its rows in the order of insertion; a NULL column is an Option, and a comparison with
-- NULL lets no row pass.
--
-- External lists what the MobileCoin crates do for the program, as a record of functions over which
-- everything is parametric. Keys, hashes and encoded bytes are numbers, which are only compared.
--
-- Txos is full-service/src/db/txo.rs: the lists of txos by status (List), the status of one
-- (Status), the spendable ones and the selection (Spendable), memos (Memo), what a txo is shown
-- with (Info), the writes (Write, Remove), what they leave as it is (Frame, Others), the row of a
-- received one (Receive), and which lists may overlap (Overlap). The loop of
-- select_spendable_txos_for_value takes one txo a round, so it is recursion on the txos left. Sums
-- of values are natural numbers: the u128 of the source holds the sum of any list that fits in
-- memory.
--
-- Logs is full-service/src/db/transaction_log.rs with the proposals of
-- full-service/src/service/models/tx_proposal.rs (Proposal, Defs, Delete), the order of the
-- statuses (Lifecycle), and what the statements and operations keep (Keeping, Operations).
--
-- Sync is full-service/src/service/sync.rs with exclusive_transaction of
-- full-service/src/db/wallet_db.rs (Defs, Round): the blocks of one chunk (Load), the transaction
-- (Transaction), what a chunk keeps (Keeping, LogsForward), what a failed one and a round with
-- nothing to read leave (Settled), how far it brings the account (Progress), which logs it ends
-- (Spent, Tombstones), and sequences of calls (Runs). A chunk reads at most 1000 blocks, the bound
-- of the source, so load_blocks is recursion on the rounds left and needs no other fuel. The five
-- attempts at a transaction run on the same database and ledger; what another connection does in
-- between, and the waiting, are not modelled. The rows that the parallel iterators collect keep
-- their order.
--
-- Builder is full-service/src/service/transaction_builder.rs: the settings of a transaction, and
-- the totals and the change of build; the sums per token (Totals), the change (Change) and
-- select_txos (Select); get_rings with its sampling loop (Rings, Sampling, RingLaws); and build
-- with the fog resolver (Build, Conservation, Built). The u128 sums are natural numbers again. The
-- random numbers are a list of draws; the sampling loop is recursion on that list, a loop that is
-- not done when it ends has no result, and draws that go once through the ledger are enough. A
-- HashSet of indices is a list without repetition. The transaction builder of the MobileCoin crates
-- is a value that is passed on.
--
-- Accounts is full-service/src/db/account.rs and full-service/src/db/assigned_subaddress.rs: the
-- removal (Delete), subaddresses (Subaddresses), creation and imports (Create, Initial, Import,
-- Indices, NextIndex), and create_next_for_account, which repairs orphaned txos (Next,
-- NextAddress). Logs has the reads of the logs and their value map too (Reads, Values).
--
-- Service has the calls of full-service/src/service that the API dispatches to: transaction.rs
-- (Transaction, Submit) with the signing of models/tx_proposal.rs (Sign) and the parsing of its
-- texts (Parse), account.rs with address.rs (Accounts), receipt.rs with confirmation_number.rs
-- (Receipt), and txo.rs with transaction_log.rs (Txos). Its laws are what a submission leaves
-- behind (Safety), what a failed call takes back (Atomic), the checks of a request (Guards, Split),
-- and a checked receipt (Receipts). The state of a submission is the database, the counter that
-- picks a peer and what was proposed to the network. The peers, the fees, the signers and the
-- hardware wallet are parameters.
--
-- B58 is full-service/src/util/b58, over the printable wrapper of the MobileCoin crates. GiftCodes
-- is full-service/src/db/gift_code.rs with full-service/src/service/gift_code.rs: the table, the
-- status (Status), submission and removal (Calls, Store).
--
-- Balance is get_balance_inner of full-service/src/service/balance.rs: when its parts count no txo
-- twice (Bounds), and when they do (Twice). Tests has a small wallet on which the code is run.
--
-- Not modelled: the JSON-RPC API and its conversions, configuration, connections and migrations,
-- the webhook and T3 threads, the devices and the signer, the mirror and the validator, which are
-- I/O or calls of libraries; payment requests; and the building and claiming of gift codes.
pub mod Prelude
pub mod Db
pub mod External
pub mod Txos
pub mod Logs
pub mod Balance
pub mod Builder
pub mod Accounts
pub mod Sync
pub mod Service
pub mod B58
pub mod GiftCodes
pub mod Tests
