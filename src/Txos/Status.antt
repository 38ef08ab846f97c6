-- ===== src/Txos/Status.antt =====
-- `Txo::status` of full-service/src/db/txo.rs: the counts of joined rows as tests that a row is there.
use full_service.Prelude.{Bool, ◌&&◌, ◌||◌}
use full_service.Prelude.Tests.{◌==◌, if◌then◌else◌, is_some}
use full_service.Prelude.Lists.{any}
use full_service.Db.Schema.{RowId, Txo}
use full_service.Db.Tables.{Db}
use full_service.Db.Query.{output_rows}
use full_service.Txos.List.{
  TxoStatus, created, orphaned, pending, secreted, spent, unspent, unverified, log_is_pending,
  log_is_unsent, row_is_secreted,
}

-- `transaction_logs JOIN transaction_input_txos JOIN transaction_output_txos` has a row of a pending
-- log that names the txo as input or as output.
has_pending_log : Db → RowId → Bool
has_pending_log db i =
    any
      (λ l.
        log_is_pending l
        && any
            (λ j.
              (j.transaction_log_id == l.id)
              && any (λ o. (o.transaction_log_id == l.id) && (j.txo_id == i || o.txo_id == i))
                  db.transaction_output_txos)
            db.transaction_input_txos)
      db.transaction_logs

-- The row of txos is joined again, so its account is the stored one.
has_secreted_log : Db → Txo → Bool
has_secreted_log db t =
    any (λ r. any (λ u. (u.id == r.output.txo_id) && row_is_secreted u r) db.txos)
      (output_rows db t)

has_created_log : Db → Txo → Bool
has_created_log db t = any (λ r. log_is_unsent r.log) (output_rows db t)

unfoldable pub status : Db → Txo → TxoStatus
unfolding has_pending_log has_secreted_log has_created_log
status db t =
    if is_some t.spent_block_index
    then spent
    else if has_pending_log db t.id
    then pending
    else if has_secreted_log db t
    then secreted
    else if has_created_log db t
    then created
    else if is_some t.subaddress_index && is_some t.key_image
    then unspent
    else if is_some t.subaddress_index
    then unverified
    else orphaned
