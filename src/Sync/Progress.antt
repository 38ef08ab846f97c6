-- ===== src/Sync/Progress.antt =====
-- How far one chunk brings an account.
use full_service.Prelude.{
  ℕ, ◌+◌, ◌≤◌, ◌≡◌, ◌⊎◌, refl, sym, ap, ◌∙◌, inl, inr, true, Option, none, some, List, [], ◌∷◌,
  arith,
}
use full_service.Prelude.Tests.{◌==◌, if◌then◌else◌}
use full_service.Prelude.Int.{as_i64, as_u64}
use full_service.Prelude.Lists.{find?, length}
use full_service.Prelude.Result.{Result, ok, err, is_ok, ok_or}
use full_service.Prelude.State.{lift, ◌>>=◌}
use full_service.Db.Schema.{RowId, Account}
use full_service.Db.Error.{account_not_found}
use full_service.Db.Tables.{Db, update}
use full_service.Db.Query.{find_account}
use full_service.External.{Crypto}
use full_service.Logs.Defs.{
  update_pending_associated_with_txo_to_succeeded,
  update_pending_exceeding_tombstone_block_index_to_failed,
}
use full_service.Sync.Defs.{
  SyncError, Ledger, Chunk, BlockContents, not_found, blocks_chunk_size, empty_chunk, load_blocks,
  update_next_block_index, process_chunk, process_loaded, sync_chunk_body, rolled_back,
  sync_account_next_chunk,
}
use full_service.Sync.Transaction.{exclusive_transaction_lem}
use full_service.Sync.Keeping.{process_chunk-Ends}
use full_service.Db.Rows.{find?-update, update_found}
use full_service.Sync.Load.{IsLoaded, load_blocks-IsLoaded, last_block, Stored}

-- The accounts change in `next_block_index` only.
process_chunk-accounts :
    (c : Crypto) (account : Account) (a : RowId) (chunk : Chunk) (last : ℕ) (db : Db)
    → is_ok (process_chunk c account a chunk last db).0 ≡ true
    → (process_chunk c account a chunk last db).1.accounts
      ≡ update
          (λ b. b.id == account.id)
          (λ b. record b { next_block_index = as_i64 (last + 1) })
          db.accounts
unfolding update_next_block_index update_pending_associated_with_txo_to_succeeded
    update_pending_exceeding_tombstone_block_index_to_failed
process_chunk-accounts c account a chunk last db e =
    (process_chunk-Ends (λ d. d.accounts ≡ db.accounts) (λ x y s h. s.accounts ∙ h)
        (λ t b. record { at = λ d h. h }) (λ b. record { at = λ d h. h }) c
        (λ d.
          d.accounts
          ≡ update (λ b. b.id == account.id)
              (λ b. record b { next_block_index = as_i64 (last + 1) }) db.accounts)
        account a chunk last
        (λ d h.
          ap
            (update (λ b. b.id == account.id)
              (λ b. record b { next_block_index = as_i64 (last + 1) }))
            h)).at
      db refl e

-- A chunk that returns has loaded its blocks, and has done with them what its body says.
pub record ChunkIsDone (c : Crypto) (ledger : Ledger) (a : RowId) (db : Db) (account : Account)
    : Type 0 where
  pub chunk : Chunk
  pub read :
      load_blocks ledger blocks_chunk_size (as_u64 account.next_block_index) empty_chunk ≡ ok chunk
  pub loaded : IsLoaded ledger blocks_chunk_size (as_u64 account.next_block_index) empty_chunk chunk
  pub processed : is_ok (process_loaded c account a chunk chunk.end_block_index db).0 ≡ true
  pub same :
      sync_account_next_chunk c ledger a db
      ≡ process_loaded c account a chunk chunk.end_block_index db

module _ (c : Crypto) (ledger : Ledger) (a : RowId) (db : Db) (account : Account)
    (known : find_account a db ≡ ok account) where
  body_known :
      sync_chunk_body c ledger a db
      ≡ (lift (load_blocks ledger blocks_chunk_size (as_u64 account.next_block_index) empty_chunk)
            >>= λ chunk. process_loaded c account a chunk chunk.end_block_index)
          db
  unfolding sync_chunk_body ◌>>=◌
  body_known = rw known refl

  body_loaded :
      (r : Result SyncError Chunk)
      → load_blocks ledger blocks_chunk_size (as_u64 account.next_block_index) empty_chunk ≡ r
      → is_ok (sync_chunk_body c ledger a db).0 ≡ true
      → (chunk : Chunk) × (load_blocks ledger blocks_chunk_size
            (as_u64 account.next_block_index)
            empty_chunk
          ≡ ok chunk)
        × (sync_chunk_body c ledger a db
            ≡ process_loaded c account a chunk chunk.end_block_index db)
  unfolding ◌>>=◌
  body_loaded (ok chunk) e h = (chunk, e, body_known ∙ rw e refl)
  body_loaded (err x) e h = absurd (let h' = rw (body_known, e) at h in cc)

  pub done :
      is_ok (sync_account_next_chunk c ledger a db).0 ≡ true → ChunkIsDone c ledger a db account
  unfolding sync_account_next_chunk
  done h = by_result (sync_chunk_body c ledger a db).0 refl
    where
      committed :
          (n : ℕ)
          → (sync_chunk_body c ledger a db).0 ≡ ok n
          → rolled_back (sync_chunk_body c ledger a) db ≡ sync_chunk_body c ledger a db
      committed n e = rw (rolled_back, e) refl

      by_result :
          (r : Result SyncError ℕ)
          → (sync_chunk_body c ledger a db).0 ≡ r
          → ChunkIsDone c ledger a db account
      by_result (ok n) e =
          let (chunk, loaded, same) = body_loaded _ refl (ap is_ok e) in
          record {
            chunk = chunk;
            read = loaded;
            loaded =
                load_blocks-IsLoaded ledger blocks_chunk_size (as_u64 account.next_block_index)
                  chunk loaded;
            processed = ap (λ p. is_ok p.0) (sym same) ∙ ap is_ok e;
            same = exclusive_transaction_lem (sync_chunk_body c ledger a) db ∙ committed n e ∙ same;
          }
      by_result (err x) e = absurd (
          let h' =
            rw (exclusive_transaction_lem (sync_chunk_body c ledger a) db, rolled_back, e) at h in
          cc)

  found_after :
      (chunk : Chunk) (last : ℕ)
      → is_ok (process_chunk c account a chunk last db).0 ≡ true
      → find_account a (process_chunk c account a chunk last db).1
        ≡ ok (record account { next_block_index = as_i64 (last + 1) })
  unfolding find_account
  found_after chunk last h =
      let found : find? (λ b. b.id == a) db.accounts ≡ some account = ground arith in
      rw (process_chunk-accounts c account a chunk last db h) (
        ap (ok_or (account_not_found a)) (
          find?-update (λ b. b.id == a) (λ b. b.id == account.id) _ (λ b. refl) db.accounts
          ∙ ap (update_found (λ b. b.id == account.id) _) found
          ∙ ap
              (λ b.
                some
                  (if b then record account { next_block_index = as_i64 (last + 1) } else account))
              self))
    where
      self : (account.id == account.id) ≡ true
      self = ground arith

  -- Where a chunk returns, the ledger has the blocks that it read, one after the other from the
  -- account's next block on, at most 1000 of them, and it stopped there because it had 1000 or
  -- because the ledger has no next one. If there were none, 0 is returned and nothing is written;
  -- else the account is as it was with its next block after the last one read.
  pub chunk_advances :
      is_ok (sync_account_next_chunk c ledger a db).0 ≡ true
      → (blocks : List BlockContents) × Stored ledger (as_u64 account.next_block_index) blocks
        × (length blocks ≤ 1000)
        × ((length blocks ≡ 1000)
            ⊎ (ledger.get_block_contents (as_u64 account.next_block_index + length blocks)
                ≡ not_found))
        × (((blocks ≡ []) × (sync_account_next_chunk c ledger a db ≡ (ok 0, db)))
            ⊎ (find_account a (sync_account_next_chunk c ledger a db).1
                ≡ ok (record account {
                  next_block_index = as_i64 (as_u64 account.next_block_index + length blocks);
                })))
  chunk_advances h =
      let d = done h in
      (
        d.loaded.blocks,
        d.loaded.stored,
        d.loaded.bounded,
        d.loaded.stopped,
        by_end d.loaded.blocks d.chunk d.chunk.end_block_index d.loaded.end_block_index d.processed
            d.same,
      )
    where
      by_end :
          (blocks : List BlockContents) (chunk : Chunk) (end : Option ℕ)
          → end ≡ last_block none (as_u64 account.next_block_index) blocks
          → is_ok (process_loaded c account a chunk end db).0 ≡ true
          → sync_account_next_chunk c ledger a db ≡ process_loaded c account a chunk end db
          → ((blocks ≡ []) × (sync_account_next_chunk c ledger a db ≡ (ok 0, db)))
            ⊎ (find_account a (sync_account_next_chunk c ledger a db).1
                ≡ ok (record account {
                  next_block_index = as_i64 (as_u64 account.next_block_index + length blocks);
                }))
      by_end [] chunk end l p s = inl (refl, s ∙ rw l refl)
      by_end (b ∷ bs) chunk end l p s = inr (
          rw (s, l)
            (found_after chunk (as_u64 account.next_block_index + length bs) (rw l at p)
              ∙ ap (λ n. ok (record account { next_block_index = as_i64 n })) (omega arith)))
