-- ===== src/Logs/Delete.antt =====
-- `TransactionLog::delete_all_for_account` of full-service/src/db/transaction_log.rs.
use full_service.Prelude.{Bool, not, ◌&&◌}
use full_service.Prelude.Tests.{◌==◌}
use full_service.Prelude.Lists.{any, filter}
use full_service.Prelude.Result.{ok}
use full_service.Prelude.State.{reads, for_each, ◌>>=◌, ◌>>◌}
use full_service.Db.Schema.{RowId, TransactionInputTxo, TransactionOutputTxo}
use full_service.Db.Tables.{Db, DbAction, delete_transaction_logs}

-- Rows of the two link tables whose log belongs to the account.
abbrev pub log_of_account : Db → RowId → RowId → Bool
log_of_account db a i = any (λ l. (l.id == i) && (l.account_id == a)) db.transaction_logs

unfoldable pub delete_input_row : TransactionInputTxo → DbAction (Unit {0})
delete_input_row i db = (
  ok tt,
  record db {
    transaction_input_txos =
        filter (λ j. not ((j.transaction_log_id == i.transaction_log_id) && (j.txo_id == i.txo_id)))
          db.transaction_input_txos;
  },
)

unfoldable pub delete_output_row : TransactionOutputTxo → DbAction (Unit {0})
delete_output_row i db = (
  ok tt,
  record db {
    transaction_output_txos =
        filter (λ j. not ((j.transaction_log_id == i.transaction_log_id) && (j.txo_id == i.txo_id)))
          db.transaction_output_txos;
  },
)

unfoldable pub delete_all_for_account : (account_id_hex : RowId) → DbAction (Unit {0})
delete_all_for_account a = do
  inputs ←
      reads (λ db.
        ok (filter (λ j. log_of_account db a j.transaction_log_id) db.transaction_input_txos))
  for_each inputs delete_input_row
  outputs ←
      reads (λ db.
        ok (filter (λ j. log_of_account db a j.transaction_log_id) db.transaction_output_txos))
  for_each outputs delete_output_row
  delete_transaction_logs a
