-- ===== src/Tests/SyncExamples.antt =====
-- Runs of a chunk and of the calls that write logs on the wallet of `Tests.Wallet`, and each theorem
-- on them at one input.
use full_service.Prelude.{
  ℕ, ◌+◌, ◌≤◌, ◌≡◌, ◌⊎◌, refl, inl, inr, Bool, true, false, Option, none, some, List, [], ◌∷◌,
  arith,
}
use full_service.Prelude.Int.{pos, as_i64, as_u64}
use full_service.Prelude.Lists.{length, All}
use full_service.Prelude.Result.{ok, is_ok}
use full_service.Prelude.State.{for_each, ◌>>=◌, ◌>>◌}
use full_service.Db.Schema.{Account, TransactionLog}
use full_service.External.{Crypto}
use full_service.Prelude.Tests.{◌==◌}
use full_service.Db.Tables.{Db}
use full_service.Db.Query.{find_account, find_log}
use full_service.Txos.Write.{create_received}
use full_service.Logs.Defs.{status, log_built, TxStatus, pending, failed}
use full_service.Logs.Lifecycle.{AllValid, leads_to}
use full_service.Sync.Defs.{
  BlockContents, Chunk, Fetched, Ledger, found, not_found, empty_chunk, load_blocks,
  exclusive_transaction, rolled_back, sync_chunk_body, sync_account_next_chunk,
}
use full_service.Sync.Load.{IsLoaded, load_blocks-IsLoaded, Stored}
use full_service.Sync.Progress.{chunk_advances}
use full_service.Sync.Runs.{Runs, stay, then, builds, syncs, runs-AllValid, runs_lead}
use full_service.Sync.Tombstones.{NoneWaits, tombstones_pass}
use full_service.Logs.Defs.{
  awaits_txo, succeeded, update_pending_exceeding_tombstone_block_index_to_failed,
}
use full_service.Sync.Defs.{mark_spent, from_db}
use full_service.Sync.Round.{SyncState, sync_all_accounts}
use full_service.Sync.Settled.{round_settles}
use full_service.Sync.Spent.{spent_log_succeeds}
use full_service.Tests.Wallet.{
  crypto, wallet, ledger, unsigned_proposal, log_of, account_of, output_of,
}

-- The payment in block 5 is found.
chunk_result : (sync_account_next_chunk crypto ledger 1 wallet).0 ≡ ok 1
unfolding sync_account_next_chunk full_service.Sync.Defs.exclusive_transaction
    full_service.Sync.Defs.sync_chunk_body ◌>>=◌ find_account full_service.Sync.Defs.load_blocks
    as_u64 full_service.Sync.Defs.process_chunk full_service.Sync.Defs.decode_received for_each
    full_service.Sync.Defs.decode_amount full_service.Sync.Defs.write_received
    full_service.Txos.Write.create_received full_service.Txos.Write.view_private_key
    full_service.Db.Query.find_txo full_service.Db.Tables.insert_txo
    full_service.Txos.Memo.add_memo_to_database full_service.Txos.Memo.store_memo
    full_service.Db.Query.find_by_subaddress_spend_public_key
    full_service.Logs.Defs.update_pending_associated_with_txo_to_succeeded
    full_service.Logs.Defs.update_pending_exceeding_tombstone_block_index_to_failed as_i64
    full_service.Prelude.Order.insert_by full_service.Prelude.Order.sort_by
    full_service.Sync.Defs.attempts full_service.Sync.Defs.decode_subaddress_and_key_image
    full_service.Sync.Defs.decode_subaddress_index full_service.Sync.Defs.image_txo
    full_service.Sync.Defs.list_unspent_or_pending_key_images full_service.Sync.Defs.mark_spent
    full_service.Sync.Defs.update_next_block_index full_service.Txos.Memo.two_bytes_to_i32
    full_service.Txos.Write.update_as_received full_service.Txos.Write.update_spent_block_index
chunk_result = refl

-- Block 6 has spent txo 100, so the log that waited for it has succeeded.
log_after :
    find_log 41 (sync_account_next_chunk crypto ledger 1 wallet).1
    ≡ some (record (log_of 41 (some (pos 4)) false) { finalized_block_index = some (pos 6) })
unfolding sync_account_next_chunk full_service.Sync.Defs.exclusive_transaction
    full_service.Sync.Defs.sync_chunk_body ◌>>=◌ find_account full_service.Sync.Defs.load_blocks
    as_u64 full_service.Sync.Defs.process_chunk full_service.Sync.Defs.decode_received for_each
    full_service.Sync.Defs.decode_amount full_service.Sync.Defs.write_received
    full_service.Txos.Write.create_received full_service.Txos.Write.view_private_key
    full_service.Db.Query.find_txo full_service.Db.Tables.insert_txo
    full_service.Txos.Memo.add_memo_to_database full_service.Txos.Memo.store_memo
    full_service.Db.Query.find_by_subaddress_spend_public_key
    full_service.Logs.Defs.update_pending_associated_with_txo_to_succeeded
    full_service.Logs.Defs.update_pending_exceeding_tombstone_block_index_to_failed as_i64
    full_service.Prelude.Order.insert_by full_service.Prelude.Order.sort_by
    full_service.Sync.Defs.attempts full_service.Sync.Defs.decode_subaddress_and_key_image
    full_service.Sync.Defs.decode_subaddress_index full_service.Sync.Defs.image_txo
    full_service.Sync.Defs.list_unspent_or_pending_key_images full_service.Sync.Defs.mark_spent
    full_service.Sync.Defs.update_next_block_index full_service.Txos.Memo.two_bytes_to_i32
    full_service.Txos.Write.update_as_received full_service.Txos.Write.update_spent_block_index
    find_log
log_after = refl

chunk_is_ok : is_ok (sync_account_next_chunk crypto ledger 1 wallet).0 ≡ true
chunk_is_ok = rw chunk_result refl

account_known : find_account 1 wallet ≡ ok (account_of 1 (pos 5))
unfolding find_account
account_known = refl

chunk_advances_example :
    (blocks : List BlockContents) × Stored ledger (as_u64 (pos 5)) blocks
    × (length blocks ≤ 1000)
    × ((length blocks ≡ 1000)
        ⊎ (ledger.get_block_contents (as_u64 (pos 5) + length blocks) ≡ not_found))
    × (((blocks ≡ []) × (sync_account_next_chunk crypto ledger 1 wallet ≡ (ok 0, wallet)))
        ⊎ (find_account 1 (sync_account_next_chunk crypto ledger 1 wallet).1
            ≡ ok (record (account_of 1 (pos 5)) {
              next_block_index = as_i64 (as_u64 (pos 5) + length blocks);
            })))
chunk_advances_example =
    chunk_advances crypto ledger 1 wallet (account_of 1 (pos 5)) account_known chunk_is_ok

abbrev loaded : Chunk
loaded = record {
  end_block_index = some 6;
  tx_outs = (5, output_of 103 9) ∷ [];
  key_images = (6, 1100) ∷ [];
}

loaded_result : load_blocks ledger 1000 5 empty_chunk ≡ ok loaded
unfolding load_blocks
loaded_result = refl

load_blocks-IsLoaded_example : IsLoaded ledger 1000 5 empty_chunk loaded
load_blocks-IsLoaded_example = load_blocks-IsLoaded ledger 1000 5 loaded loaded_result

wallet-AllValid : AllValid wallet.transaction_logs
wallet-AllValid = (
  record { submitted = λ h. cc; not_failed = λ h. cc },
  (record { submitted = λ h. cc; not_failed = λ h. cc }, tt),
)

-- A transaction is built, and then the account is synced.
abbrev built_wallet : Db
built_wallet = (log_built crypto unsigned_proposal 1 wallet).1

abbrev synced_wallet : Db
synced_wallet = (sync_account_next_chunk crypto ledger 1 built_wallet).1

abbrev run : Runs crypto wallet synced_wallet
run = then (then (stay wallet) (builds unsigned_proposal 1 wallet)) (syncs ledger 1 built_wallet)

runs-AllValid_example : AllValid synced_wallet.transaction_logs
runs-AllValid_example = runs-AllValid crypto wallet synced_wallet run wallet-AllValid

pending_log : find_log 41 wallet ≡ some (log_of 41 (some (pos 4)) false)
unfolding find_log
pending_log = refl

runs_lead_example :
    (m : TransactionLog) × (find_log 41 synced_wallet ≡ some m)
    × (leads_to (status (log_of 41 (some (pos 4)) false)) (status m) ≡ true)
runs_lead_example =
    runs_lead crypto wallet synced_wallet run wallet-AllValid 41 (log_of 41 (some (pos 4)) false)
      pending_log

loaded_from_account : load_blocks ledger 1000 (as_u64 (pos 5)) empty_chunk ≡ ok loaded
unfolding load_blocks as_u64
loaded_from_account = refl

tombstones_pass_example :
    NoneWaits 7 (sync_account_next_chunk crypto ledger 1 wallet).1.transaction_logs
tombstones_pass_example =
    tombstones_pass crypto ledger 1 wallet (account_of 1 (pos 5)) loaded 6 account_known
      loaded_from_account refl chunk_is_ok

waits : awaits_txo wallet 100 (log_of 41 (some (pos 4)) false) ≡ true
waits = refl

spent_log_succeeds_example :
    (find_log 41
        ((mark_spent crypto (6, 100)
            >> from_db (update_pending_exceeding_tombstone_block_index_to_failed 30))
          wallet).1
      ≡ some (record (log_of 41 (some (pos 4)) false) { finalized_block_index = some (as_i64 6) }))
    × (status (record (log_of 41 (some (pos 4)) false) { finalized_block_index = some (as_i64 6) })
        ≡ succeeded)
spent_log_succeeds_example =
    spent_log_succeeds crypto wallet 100 41 6 30 (log_of 41 (some (pos 4)) false) pending_log waits

-- The memo of the second output of block 5 is of no known type; the first output is written before.
abbrev failing_crypto : Crypto
failing_crypto = record crypto { memo_type_try_from = λ b. none }

abbrev failing_block : Bool → Fetched
failing_block true = found (record {
  outputs = output_of 103 9 ∷ record (output_of 104 8) { e_memo = some 1 } ∷ [];
  key_images = [];
})
failing_block false = not_found

abbrev failing_ledger : Ledger
failing_ledger = record ledger { get_block_contents = λ b. failing_block (b == 5) }

abbrev after_failure : Db
after_failure = (sync_account_next_chunk failing_crypto failing_ledger 1 wallet).1

-- The ledger has 7 blocks, and both accounts have read them.
abbrev read_account : Account
read_account = record (account_of 1 (pos 7)) { resyncing = true }

abbrev before_round : SyncState
before_round = record {
  db = record wallet { accounts = read_account ∷ account_of 2 (pos 9) ∷ [] };
  accounts_with_deposits = (1, false) ∷ (8, false) ∷ [];
}

both_read : All (λ a. ledger.num_blocks ≤ as_u64 a.next_block_index) before_round.db.accounts
unfolding as_u64
both_read = (omega arith, (omega arith, tt))

round_settles_example : sync_all_accounts crypto ledger before_round ≡ (
  ok tt,
  record {
    db = record wallet { accounts = account_of 1 (pos 7) ∷ account_of 2 (pos 9) ∷ [] };
    accounts_with_deposits = (1, true) ∷ (8, false) ∷ [];
  },
)
round_settles_example = round_settles crypto ledger before_round (omega arith) both_read
