-- ===== src/Sync/Spent.antt =====
-- What the sync does to a log when it finds one of its inputs spent.
use full_service.Prelude.{ℕ, ◌≡◌, refl, ap, ◌∙◌, Bool, true, false, some, arith}
use full_service.Prelude.Tests.{◌==◌, if◌then◌else◌}
use full_service.Prelude.Int.{as_i64}
use full_service.Prelude.State.{◌>>=◌, ◌>>◌}
use full_service.Db.Schema.{RowId, TransactionLog}
use full_service.Db.Tables.{Db}
use full_service.Db.Query.{find_log}
use full_service.Db.Rows.{find?-update, find?-update_at, update_found}
use full_service.External.{Crypto}
use full_service.Txos.Write.{update_spent_block_index}
use full_service.Logs.Defs.{
  succeeded, status, awaits_txo, exceeds_tombstone, update_pending_associated_with_txo_to_succeeded,
  update_pending_exceeding_tombstone_block_index_to_failed,
}
use full_service.Sync.Defs.{from_db, mark_spent}

-- The log with its block.
abbrev finalized : ℕ → TransactionLog → TransactionLog
finalized block l = record l { finalized_block_index = some (as_i64 block) }

finalized-succeeded :
    (db : Db) (t : RowId) (block : ℕ) (l : TransactionLog)
    → awaits_txo db t l ≡ true
    → status (finalized block l) ≡ succeeded
unfolding status
finalized-succeeded db t block l h = ground arith

marked :
    (c : Crypto) (db : Db) (t i : RowId) (block : ℕ) (l : TransactionLog)
    → find_log i db ≡ some l
    → awaits_txo db t l ≡ true
    → find_log i (mark_spent c (block, t) db).1 ≡ some (finalized block l)
unfolding find_log mark_spent update_spent_block_index
    update_pending_associated_with_txo_to_succeeded ◌>>=◌
marked c db t i block l e h =
    find?-update_at (λ k. k.id == i) (awaits_txo db t) (finalized block) (λ k. refl)
      db.transaction_logs l e h

expiry_spares :
    (db : Db) (i : RowId) (end block : ℕ) (l : TransactionLog)
    → find_log i db ≡ some (finalized block l)
    → find_log i (update_pending_exceeding_tombstone_block_index_to_failed end db).1
      ≡ some (finalized block l)
unfolding find_log update_pending_exceeding_tombstone_block_index_to_failed
expiry_spares db i end block l e =
    find?-update (λ k. k.id == i) (exceeds_tombstone end) (λ k. record k { failed = true })
      (λ k. refl) db.transaction_logs
    ∙ ap (update_found (exceeds_tombstone end) (λ k. record k { failed = true })) e
    ∙ spared (exceeds_tombstone end (finalized block l)) (ground arith)
  where
    spared :
        (b : Bool)
        → b ≡ false
        → some (if b then record (finalized block l) { failed = true } else finalized block l)
          ≡ some (finalized block l)
    spared true p = cc
    spared false p = refl

-- A submitted log that waits for a txo has succeeded, in the block given, once the txo is marked as
-- spent and the tombstones are passed, whatever its tombstone block.
pub spent_log_succeeds :
    (c : Crypto) (db : Db) (t i : RowId) (block end : ℕ) (l : TransactionLog)
    → find_log i db ≡ some l
    → awaits_txo db t l ≡ true
    → (find_log i
          ((mark_spent c (block, t)
              >> from_db (update_pending_exceeding_tombstone_block_index_to_failed end))
            db).1
        ≡ some (record l { finalized_block_index = some (as_i64 block) }))
      × (status (record l { finalized_block_index = some (as_i64 block) }) ≡ succeeded)
unfolding mark_spent ◌>>=◌ update_spent_block_index
    update_pending_exceeding_tombstone_block_index_to_failed
    update_pending_associated_with_txo_to_succeeded
spent_log_succeeds c db t i block end l e h = (
  expiry_spares (mark_spent c (block, t) db).1 i end block l (marked c db t i block l e h),
  finalized-succeeded db t block l h,
)
