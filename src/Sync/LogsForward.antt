-- ===== src/Sync/LogsForward.antt =====
-- What one chunk does to the logs.
use full_service.Prelude.{ℕ, ◌+◌, ◌≡◌, refl, sym, subst, Option, none, some, List}
use full_service.Prelude.Result.{Result, ok, err}
use full_service.Prelude.Keeps.{Keeps, Keeps-pure, Keeps-bind, Keeps-lift}
use full_service.Db.Schema.{RowId, Account, TransactionLog}
use full_service.Db.Tables.{Db}
use full_service.External.{Crypto}
use full_service.Logs.Lifecycle.{AllValid, Follows}
use full_service.Logs.Keeping.{Forward, succeeded-Forward, failed-Forward}
use full_service.Sync.Defs.{
  SyncError, Ledger, Chunk, update_next_block_index, process_chunk, process_loaded, sync_chunk_body,
  rolled_back, exclusive_transaction, sync_account_next_chunk,
}
use full_service.Sync.Transaction.{exclusive_transaction_lem}
use full_service.Sync.Keeping.{process_chunk-Keeps}

-- The logs of a chunk, whether it succeeds or fails half way.
module _ (before : List TransactionLog) where
  next_block_index-Forward :
      (account : Account) (n : ℕ) → Keeps (Forward before) (update_next_block_index account n)
  unfolding update_next_block_index
  next_block_index-Forward account n = record {
    at = λ db h. record { valid = h.valid; follows = h.follows };
  }

  process_chunk-Forward :
      (c : Crypto) (account : Account) (a : RowId) (chunk : Chunk) (last : ℕ)
      → Keeps (Forward before) (process_chunk c account a chunk last)
  process_chunk-Forward c account a chunk last =
      process_chunk-Keeps (Forward before)
        (λ x y s h. record {
          valid = subst AllValid (sym s.transaction_logs) h.valid;
          follows = subst (Follows before) (sym s.transaction_logs) h.follows;
        })
        (succeeded-Forward before) (failed-Forward before) c account a chunk last
        (next_block_index-Forward account (last + 1))

  process_loaded-Forward :
      (c : Crypto) (account : Account) (a : RowId) (chunk : Chunk) (last : Option ℕ)
      → Keeps (Forward before) (process_loaded c account a chunk last)
  process_loaded-Forward c account a chunk none = Keeps-pure _
  process_loaded-Forward c account a chunk (some last) =
      process_chunk-Forward c account a chunk last

  body-Forward :
      (c : Crypto) (ledger : Ledger) (a : RowId)
      → Keeps (Forward before) (sync_chunk_body c ledger a)
  unfolding sync_chunk_body
  body-Forward c ledger a =
      Keeps-bind _ _ (record { at = λ db h. h })
        λ account. Keeps-bind _ _ (Keeps-lift _) λ chunk. process_loaded-Forward c account a chunk _

  pub chunk-Forward :
      (c : Crypto) (ledger : Ledger) (a : RowId)
      → Keeps (Forward before) (sync_account_next_chunk c ledger a)
  unfolding sync_account_next_chunk
  chunk-Forward c ledger a = record {
    at = λ db h. by_result db h (sync_chunk_body c ledger a db).0 refl;
  }
    where
      by_result :
          (db : Db)
          → Forward before db
          → (r : Result SyncError ℕ) → (sync_chunk_body c ledger a db).0 ≡ r
          → Forward before (exclusive_transaction (sync_chunk_body c ledger a) db).1
      by_result db h (ok n) e =
          rw (exclusive_transaction_lem (sync_chunk_body c ledger a) db, rolled_back, e)
            ((body-Forward c ledger a).at db h)
      by_result db h (err x) e =
          rw (exclusive_transaction_lem (sync_chunk_body c ledger a) db, rolled_back, e) h
