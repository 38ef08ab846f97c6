-- ===== src/Logs/Defs.antt =====
-- `TransactionLogModel` of full-service/src/db/transaction_log.rs: the status of a log, the logging
-- of a transaction that is built, signed or submitted, and the updates that the sync makes.
use Prim.Native.String.{String}
use full_service.Prelude.{ℕ, Bool, true, false, not, ◌&&◌, Option, none, some, List, [], ◌∷◌, min}
use full_service.Prelude.Tests.{◌==◌, if◌then◌else◌, is_some, is_none}
use full_service.Prelude.Int.{ℤ, as_i64, ltb_ℤ}
use full_service.Prelude.Lists.{any}
use full_service.Prelude.Result.{ok, err, ok_or}
use full_service.Prelude.State.{raise, reads, lift, for_each, ◌>>=◌, ◌>>◌}
use full_service.Db.Schema.{RowId, Bytes, TransactionLog}
use full_service.Db.Error.{invalid_argument, transaction_log_not_found}
use full_service.Db.Tables.{
  Db, DbAction, DbResult, update, insert_transaction_log, insert_transaction_input_txo,
}
use full_service.Db.Query.{find_account, find_log}
use full_service.External.{Crypto}
use full_service.Txos.Write.{OutputTxo, update_key_image, create_new_output}
use full_service.Logs.Proposal.{UnsignedTxProposal, TxProposal}

-- `signed` is the source's too, and no log has it.
pub data TxStatus : Type 0 where
  built signed pending succeeded failed : TxStatus

unfoldable pub status : TransactionLog → TxStatus
status l =
    if l.failed
    then failed
    else if is_some l.finalized_block_index
    then succeeded
    else if is_some l.submitted_block_index
    then pending
    else built

unfoldable pub get : RowId → Db → DbResult TransactionLog
unfolding find_log
get i db = ok_or (transaction_log_not_found i) (find_log i db)

-- `diesel::update(self)`
abbrev pub update_log : RowId → (TransactionLog → TransactionLog) → Db → Db
update_log i f db = record db { transaction_logs = update (λ l. l.id == i) f db.transaction_logs }

unfoldable pub update_submitted_block_index : TransactionLog → ℕ → DbAction (Unit {0})
update_submitted_block_index log block db =
    (ok tt, update_log log.id (λ l. record l { submitted_block_index = some (as_i64 block) }) db)

unfoldable pub update_comment : TransactionLog → String → DbAction (Unit {0})
update_comment log comment db = (ok tt, update_log log.id (λ l. record l { comment = comment }) db)

unfoldable pub update_tx_and_tombstone_block_index :
    TransactionLog → Bytes → Option ℤ → DbAction (Unit {0})
update_tx_and_tombstone_block_index log tx tombstone db =
    (ok tt, update_log log.id (λ l. record l { tx = tx; tombstone_block_index = tombstone }) db)

-- `.map(|txo| txo.tx_out.public_key).min()`
abbrev pub min_public_key : List OutputTxo → Option Bytes
min_public_key [] = none
min_public_key (o ∷ os) = elim (min_public_key os) [
  | none ↦ some o.tx_out.public_key
  | some k ↦ some (min o.tx_out.public_key k)
]

-- `TransactionId::try_from(payload_txos)`
unfoldable pub transaction_id : Crypto → List OutputTxo → DbResult RowId
transaction_id c os = elim (min_public_key os) [
  | none ↦ err invalid_argument
  | some k ↦ ok (c.hex_fmt k)
]

unfoldable pub log_built :
    Crypto → UnsignedTxProposal → (account_id : RowId) → DbAction TransactionLog
log_built c p account_id = do
  reads (find_account account_id)
  i ← lift (transaction_id c p.payload_txos)
  insert_transaction_log (record {
    id = i;
    account_id = account_id;
    fee_value = as_i64 p.tx_prefix.fee;
    fee_token_id = as_i64 p.tx_prefix.fee_token_id;
    submitted_block_index = none;
    tombstone_block_index = none;
    finalized_block_index = none;
    comment = "";
    tx = 0;
    failed = false;
  })
  for_each p.unsigned_input_txos (λ t.
      insert_transaction_input_txo (record { transaction_log_id = i; txo_id = c.txo_id t.tx_out }))
  for_each p.payload_txos (λ o. create_new_output c o false i)
  for_each p.change_txos (λ o. create_new_output c o true i)
  reads (get i)

-- The row that `log_signed` and `log_submitted` insert.
abbrev pub new_transaction_log : TxProposal → String → RowId → RowId → Option ℤ → TransactionLog
new_transaction_log p comment account_id i submitted = record {
  id = i;
  account_id = account_id;
  fee_value = as_i64 p.tx.prefix.fee;
  fee_token_id = as_i64 p.tx.prefix.fee_token_id;
  submitted_block_index = submitted;
  tombstone_block_index = some (as_i64 p.tx.prefix.tombstone_block);
  finalized_block_index = none;
  comment = comment;
  tx = p.tx.encoded;
  failed = false;
}

-- The branch of a log that is not there yet, which `log_signed` and `log_submitted` share.
unfoldable pub insert_log_and_txos :
    Crypto → TxProposal → String → RowId → RowId → Option ℤ → DbAction (Unit {0})
insert_log_and_txos c p comment account_id i submitted = do
  insert_transaction_log (new_transaction_log p comment account_id i submitted)
  for_each p.input_txos (λ t. do
    update_key_image c (c.txo_id t.tx_out) t.key_image none
    insert_transaction_input_txo (record { transaction_log_id = i; txo_id = c.txo_id t.tx_out }))
  for_each p.payload_txos (λ o. create_new_output c o false i)
  for_each p.change_txos (λ o. create_new_output c o true i)

unfoldable pub sign_existing : Crypto → TxProposal → String → TransactionLog → DbAction (Unit {0})
sign_existing c p comment log = do
  for_each p.input_txos (λ t. update_key_image c (c.txo_id t.tx_out) t.key_image none)
  update_comment log comment
  update_tx_and_tombstone_block_index log p.tx.encoded (some (as_i64 p.tx.prefix.tombstone_block))

-- `match TransactionLog::get(..)`
abbrev pub on_result :
    DbResult TransactionLog
    → (TransactionLog → DbAction (Unit {0}))
    → DbAction (Unit {0})
    → DbAction (Unit {0})
on_result (ok log) found missing = found log
on_result (err (transaction_log_not_found i)) found missing = missing
on_result (err e) found missing = raise e

unfoldable pub on_log :
    RowId → (TransactionLog → DbAction (Unit {0})) → DbAction (Unit {0}) → DbAction (Unit {0})
on_log i found missing db = on_result (get i db) found missing db

unfoldable pub log_signed :
    Crypto → TxProposal → String → (account_id_hex : RowId) → DbAction TransactionLog
log_signed c p comment account_id = do
  reads (find_account account_id)
  i ← lift (transaction_id c p.payload_txos)
  on_log i (sign_existing c p comment) (insert_log_and_txos c p comment account_id i none)
  reads (get i)

unfoldable pub submit_existing : String → ℕ → TransactionLog → DbAction (Unit {0})
submit_existing comment block log = do
  update_submitted_block_index log block
  update_comment log comment

unfoldable pub log_submitted :
    Crypto
    → TxProposal
    → (block_index : ℕ) → String
    → (account_id_hex : RowId) → DbAction TransactionLog
log_submitted c p block comment account_id = do
  reads (find_account account_id)
  i ← lift (transaction_id c p.payload_txos)
  on_log i (submit_existing comment block)
      (insert_log_and_txos c p comment account_id i (some (as_i64 block)))
  reads (get i)

-- Submitted, not failed and not finalised, with the txo as an input.
abbrev pub awaits_txo : Db → RowId → TransactionLog → Bool
awaits_txo db t l =
    any (λ j. (j.transaction_log_id == l.id) && (j.txo_id == t)) db.transaction_input_txos
    && (is_some l.submitted_block_index && (not l.failed && is_none l.finalized_block_index))

-- The ids are collected first, and then the logs with these ids are updated. The id is the primary
-- key, so these are the same rows.
unfoldable pub update_pending_associated_with_txo_to_succeeded :
    (txo_id_hex : RowId) (finalized_block_index : ℕ) → DbAction (Unit {0})
update_pending_associated_with_txo_to_succeeded t block db = (
  ok tt,
  record db {
    transaction_logs =
        update (awaits_txo db t) (λ l. record l { finalized_block_index = some (as_i64 block) })
          db.transaction_logs;
  },
)

-- `tombstone_block_index < block_index AND NOT failed AND finalized_block_index IS NULL`
abbrev pub lt_int : Option ℤ → ℤ → Bool
lt_int none v = false
lt_int (some c) v = ltb_ℤ c v

abbrev pub exceeds_tombstone : ℕ → TransactionLog → Bool
exceeds_tombstone block l =
    lt_int l.tombstone_block_index (as_i64 block)
    && (not l.failed && is_none l.finalized_block_index)

unfoldable pub update_pending_exceeding_tombstone_block_index_to_failed :
    (block_index : ℕ) → DbAction (Unit {0})
update_pending_exceeding_tombstone_block_index_to_failed block db = (
  ok tt,
  record db {
    transaction_logs =
        update (exceeds_tombstone block) (λ l. record l { failed = true }) db.transaction_logs;
  },
)
