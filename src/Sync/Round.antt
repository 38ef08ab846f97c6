-- ===== src/Sync/Round.antt =====
-- `sync_all_accounts` of full-service/src/service/sync.rs: a round over all accounts.
use full_service.Prelude.{ℕ, ◌-◌, Bool, true, false, not, ◌&&◌, List, [], ◌∷◌}
use full_service.Prelude.Tests.{◌==◌, ltb, if◌then◌else◌}
use full_service.Prelude.Int.{as_u64}
use full_service.Prelude.Result.{ok}
use full_service.Prelude.State.{Action, for_each, ◌>>=◌}
use full_service.Db.Schema.{RowId, Account}
use full_service.Db.Tables.{Db}
use full_service.External.{Crypto}
use full_service.Sync.Defs.{
  SyncError, SyncAction, from_db, Ledger, update_resyncing, sync_account_next_chunk,
}

-- The flag of an account says that it is fully synced since its deposits were found.
abbrev pub Deposits : Type 0
Deposits = List (RowId × Bool)

-- `entry(i).and_modify(|v| *v = true)`
abbrev pub set_synced : RowId → Deposits → Deposits
set_synced i [] = []
set_synced i ((j, v) ∷ ds) = (if j == i then (j, true) else (j, v)) ∷ set_synced i ds

-- `insert(i, false)`
abbrev pub insert_deposit : RowId → Deposits → Deposits
insert_deposit i [] = (i, false) ∷ []
insert_deposit i ((j, v) ∷ ds) = if j == i then (i, false) ∷ ds else (j, v) ∷ insert_deposit i ds

pub record SyncState : Type 0 where
  pub db : Db
  pub accounts_with_deposits : Deposits

abbrev pub RoundAction : Type 0 → Type 0
RoundAction A = Action SyncState SyncError A

abbrev pub on_database : {A : Type 0} → SyncAction A → RoundAction A
on_database m s = ((m s.db).0, record s { db = (m s.db).1 })

module _ (c : Crypto) (ledger : Ledger) where
  -- The branch for an account with no new blocks.
  unfoldable pub finish_account : Account → RoundAction (Unit {0})
  finish_account a s =
      let t = record s { accounts_with_deposits = set_synced a.id s.accounts_with_deposits } in
      if a.resyncing then on_database (from_db (update_resyncing a false)) t else (ok tt, t)

  abbrev pub track_deposits : Account → (found_txos : ℕ) → RoundAction (Unit {0})
  track_deposits a n s = (
    ok tt,
    if ltb 0 n && not a.resyncing
        then record s { accounts_with_deposits = insert_deposit a.id s.accounts_with_deposits }
        else s,
  )

  unfoldable pub sync_account : Account → RoundAction (Unit {0})
  sync_account a =
      if ltb (ledger.num_blocks - 1) (as_u64 a.next_block_index)
      then finish_account a
      else (on_database (sync_account_next_chunk c ledger a.id) >>= track_deposits a)

  -- The accounts are loaded before the loop.
  unfoldable pub sync_all_accounts : RoundAction (Unit {0})
  sync_all_accounts s =
      if ledger.num_blocks == 0 then (ok tt, s) else for_each s.db.accounts sync_account s
