-- ===== src/Sync/Tombstones.antt =====
-- What the tombstone update of a chunk does to the logs, of every account.
use full_service.Prelude.{
  ℕ, ◌+◌, ◌≡◌, sym, ap, ◌∙◌, true, false, Option, none, some, List, [], ◌∷◌, arith, inl, inr,
}
use full_service.Prelude.Tests.{Bool-cases}
use full_service.Prelude.Int.{as_u64}
use full_service.Prelude.Lists.{All}
use full_service.Prelude.Result.{ok, is_ok, ok-injective}
use full_service.Prelude.State.{pure, ◌>>=◌, ◌>>◌}
use full_service.Prelude.Keeps.{Keeps, Ends, Ends-bind, Ends-then}
use full_service.Db.Schema.{RowId, Account, TransactionLog}
use full_service.Db.Tables.{Db, update}
use full_service.Db.Query.{find_account}
use full_service.External.{Crypto}
use full_service.Logs.Defs.{
  exceeds_tombstone, update_pending_exceeding_tombstone_block_index_to_failed,
}
use full_service.Sync.Defs.{
  SyncAction, Ledger, Chunk, from_db, blocks_chunk_size, empty_chunk, load_blocks,
  update_next_block_index, process_chunk, process_loaded, sync_account_next_chunk,
}
use full_service.Sync.Progress.{done}

-- No log is waiting past the block.
abbrev pub NoneWaits : ℕ → List TransactionLog → Type 0
NoneWaits block ls = All (λ l. exceeds_tombstone block l ≡ false) ls

update-NoneWaits :
    (block : ℕ) (ls : List TransactionLog)
    → NoneWaits block (update (exceeds_tombstone block) (λ l. record l { failed = true }) ls)
update-NoneWaits block [] = tt
update-NoneWaits block (l ∷ ls) = elim (Bool-cases (exceeds_tombstone block l)) [
  | inl e ↦ rw e (ground arith, update-NoneWaits block ls)
  | inr e ↦ rw e (e, update-NoneWaits block ls)
]

module _ (c : Crypto) (account : Account) (a : RowId) where
  anything : {A : Type 0} (m : SyncAction A) → Keeps (λ db. Unit) m
  anything m = record { at = λ db h. tt }

  expires-NoneWaits :
      (block : ℕ)
      → Ends
          (λ db. Unit)
          (λ db. NoneWaits block db.transaction_logs)
          (from_db (update_pending_exceeding_tombstone_block_index_to_failed block))
  unfolding update_pending_exceeding_tombstone_block_index_to_failed
  expires-NoneWaits block = record { at = λ db h e. update-NoneWaits block db.transaction_logs }

  finish-NoneWaits :
      (block n k : ℕ)
      → Ends
          (λ db. NoneWaits block db.transaction_logs)
          (λ db. NoneWaits block db.transaction_logs)
          (from_db (update_next_block_index account n) >> pure k)
  unfolding update_next_block_index ◌>>=◌
  finish-NoneWaits block n k = record { at = λ db h e. h }

  process_chunk-NoneWaits :
      (chunk : Chunk) (last : ℕ)
      → Ends
          (λ db. Unit)
          (λ db. NoneWaits (last + 1) db.transaction_logs)
          (process_chunk c account a chunk last)
  unfolding process_chunk
  process_chunk-NoneWaits chunk last = Ends-bind _ _ (anything _) λ received.
      Ends-bind _ _ (anything _) λ _. Ends-bind _ _ (anything _) λ spent.
        Ends-bind _ _ (anything _)
          λ _. Ends-then _ _ (expires-NoneWaits (last + 1)) λ _. finish-NoneWaits (last + 1) _ _

-- Once a chunk of one account has been read up to the block `last` and has returned, no log of any
-- account is left neither finalised nor failed with a tombstone block of `last` or below.
pub tombstones_pass :
    (c : Crypto) (ledger : Ledger) (a : RowId) (db : Db) (account : Account) (chunk : Chunk)
    (last : ℕ)
    → find_account a db ≡ ok account
    → load_blocks ledger blocks_chunk_size (as_u64 account.next_block_index) empty_chunk ≡ ok chunk
    → chunk.end_block_index ≡ some last
    → is_ok (sync_account_next_chunk c ledger a db).0 ≡ true
    → NoneWaits (last + 1) (sync_account_next_chunk c ledger a db).1.transaction_logs
tombstones_pass c ledger a db account chunk last known read end h =
    let d = done c ledger a db account known h in
    let same : d.chunk ≡ chunk = ok-injective (sym d.read ∙ read) in
    let end' : d.chunk.end_block_index ≡ some last = ap (λ k. k.end_block_index) same ∙ end in
    by_end d.chunk d.chunk.end_block_index end' d.processed d.same
  where
    by_end :
        (k : Chunk) (e : Option ℕ)
        → e ≡ some last
        → is_ok (process_loaded c account a k e db).0 ≡ true
        → sync_account_next_chunk c ledger a db ≡ process_loaded c account a k e db
        → NoneWaits (last + 1) (sync_account_next_chunk c ledger a db).1.transaction_logs
    by_end k none e p s = absurd cc
    by_end k (some n) e p s =
        let m : n ≡ last = ground arith in
        rw (s, ← m) ((process_chunk-NoneWaits c account a k n).at db tt p)
