-- ===== src/Sync/Settled.antt =====
-- What a chunk that fails leaves behind, and a round over accounts that are up to date.
use full_service.Prelude.{
  ◌-◌, ◌<◌, ◌≤◌, ◌≡◌, refl, ap, ◌∙◌, Bool, true, false, not, ◌&&◌, ◌||◌, List, [], ◌∷◌, map, arith,
}
use full_service.Prelude.Tests.{◌==◌, ltb, if◌then◌else◌, ==_iff}
use full_service.Prelude.Int.{as_u64}
use full_service.Prelude.Lists.{All, any}
use full_service.Prelude.Order.{All-mono}
use full_service.Prelude.Result.{ok}
use full_service.Prelude.State.{for_each}
use full_service.Db.Schema.{RowId, Account}
use full_service.Db.Tables.{Db, update}
use full_service.External.{Crypto}
use full_service.Sync.Defs.{Ledger, from_db, update_resyncing}
use full_service.Sync.Round.{
  SyncState, Deposits, on_database, set_synced, finish_account, sync_account, sync_all_accounts,
}

-- The row of an account once the accounts `finished` are done with.
abbrev settled : (finished : List Account) → Account → Account
settled finished r = record r {
  resyncing = r.resyncing && not (any (λ a. a.resyncing && r.id == a.id) finished);
}

abbrev flagged : (finished : List Account) → RowId × Bool → RowId × Bool
flagged finished d = (d.0, d.1 || any (λ a. d.0 == a.id) finished)

abbrev after_finish : (finished : List Account) → SyncState → SyncState
after_finish finished s = record {
  db = record s.db { accounts = map (settled finished) s.db.accounts };
  accounts_with_deposits = map (flagged finished) s.accounts_with_deposits;
}

map-All : {A B : Type 0} (f g : A → B) (xs : List A) → All (λ x. f x ≡ g x) xs → map f xs ≡ map g xs
map-All f g [] h = refl
map-All f g (x ∷ xs) h = rw h.0 (ap (λ ys. g x ∷ ys) (map-All f g xs h.1))

-- What every element has of itself, some element has of it.
any_self :
    {A : Type 0} (q : A → Bool) (p : A → A → Bool)
    → ((x : A) → q x ≡ true → p x x ≡ true)
    → (xs : List A) → All (λ x. q x ≡ true → any (p x) xs ≡ true) xs
any_self q p h [] = tt
any_self q p h (x ∷ xs) = (
  (λ e. let own = h x e in ground arith),
  All-mono (λ y k e. let there = k e in ground arith) xs (any_self q p h xs),
)

set_synced_lem : (a : Account) (ds : Deposits) → set_synced a.id ds ≡ map (flagged (a ∷ [])) ds
set_synced_lem a [] = refl
set_synced_lem a ((j, v) ∷ ds) = ground (arith, set_synced_lem a ds)

update-settled :
    (a : Account) (rs : List Account)
    → (if a.resyncing
        then update (λ r. r.id == a.id) (λ r. record r { resyncing = false }) rs
        else rs)
      ≡ map (settled (a ∷ [])) rs
update-settled a [] = ground arith
update-settled a (r ∷ rs) = ground (arith, update-settled a rs)

-- A state by its accounts and deposits.
abbrev with_both : SyncState → List Account → Deposits → SyncState
with_both s accounts ds = record {
  db = record s.db { accounts = accounts };
  accounts_with_deposits = ds;
}

same_state :
    (s : SyncState) (xs ys : List Account) (ds es : Deposits)
    → xs ≡ ys
    → ds ≡ es
    → with_both s xs ds ≡ with_both s ys es
same_state s xs ys ds es e f = rw e (rw f refl)

module _ (c : Crypto) (ledger : Ledger) where
  finished_lem :
      (a : Account) (s : SyncState) → finish_account c ledger a s ≡ (ok tt, after_finish (a ∷ []) s)
  unfolding finish_account update_resyncing
  finished_lem a s = by_flag a.resyncing (update-settled a s.db.accounts)
    where
      by_flag :
          (b : Bool)
          → (if b
              then update (λ r. r.id == a.id) (λ r. record r { resyncing = false }) s.db.accounts
              else s.db.accounts)
            ≡ map (settled (a ∷ [])) s.db.accounts
          → (if b
              then on_database
                  (from_db (update_resyncing a false))
                  (record s { accounts_with_deposits = set_synced a.id s.accounts_with_deposits })
              else (
                ok tt,
                record s { accounts_with_deposits = set_synced a.id s.accounts_with_deposits },
              ))
            ≡ (ok tt, after_finish (a ∷ []) s)
      by_flag true e =
          ap (λ u. (ok tt, u)) (same_state s _ _ _ _ e (set_synced_lem a s.accounts_with_deposits))
      by_flag false e =
          ap (λ u. (ok tt, u)) (same_state s _ _ _ _ e (set_synced_lem a s.accounts_with_deposits))

  map-settled :
      (a : Account) (finished rs : List Account)
      → map (settled finished) (map (settled (a ∷ [])) rs) ≡ map (settled (a ∷ finished)) rs
  map-settled a finished [] = refl
  map-settled a finished (r ∷ rs) = rw (map-settled a finished rs) (
      ap (λ b. record r { resyncing = b } ∷ map (settled (a ∷ finished)) rs)
        (both r.resyncing (a.resyncing && r.id == a.id)
          (any (λ a. a.resyncing && r.id == a.id) finished)))
    where
      both : (x p q : Bool) → ((x && not (p || false)) && not q) ≡ (x && not (p || q))
      both x p q = ground arith

  map-flagged :
      (a : Account) (finished : List Account) (ds : Deposits)
      → map (flagged finished) (map (flagged (a ∷ [])) ds) ≡ map (flagged (a ∷ finished)) ds
  map-flagged a finished [] = refl
  map-flagged a finished (d ∷ ds) = rw (map-flagged a finished ds) (
      ap (λ b. (d.0, b) ∷ map (flagged (a ∷ finished)) ds)
        (both d.1 (d.0 == a.id) (any (λ a. d.0 == a.id) finished)))
    where
      both : (x p q : Bool) → ((x || (p || false)) || q) ≡ (x || (p || q))
      both x p q = ground arith

  -- No block is left to read for the account.
  abbrev IsUpToDate : Account → Type 0
  IsUpToDate a = ledger.num_blocks ≤ as_u64 a.next_block_index

  module _ (blocks : 0 < ledger.num_blocks) where
    loop_lem :
        (xs : List Account) (s : SyncState)
        → All IsUpToDate xs
        → for_each xs (sync_account c ledger) s ≡ (ok tt, after_finish xs s)
    unfolding for_each sync_account
    loop_lem [] s h =
        ap (λ u. (ok tt, u))
          (same_state s _ _ _ _ (unsettled s.db.accounts) (unflagged s.accounts_with_deposits))
      where
        unsettled : (rs : List Account) → rs ≡ map (settled []) rs
        unsettled [] = refl
        unsettled (r ∷ rs) =
            rw (← unsettled rs) (ap (λ b. record r { resyncing = b } ∷ rs) (same r.resyncing))
          where
            same : (x : Bool) → x ≡ (x && not false)
            same x = ground arith

        unflagged : (ds : Deposits) → ds ≡ map (flagged []) ds
        unflagged [] = refl
        unflagged (d ∷ ds) = rw (← unflagged ds) (ap (λ b. (d.0, b) ∷ ds) (same d.1))
          where
            same : (x : Bool) → x ≡ (x || false)
            same x = ground arith
    loop_lem (a ∷ xs) s h =
        let up : ltb (ledger.num_blocks - 1) (as_u64 a.next_block_index) ≡ true =
          let own = h.0 in ground arith in
        rw up (
          rw (finished_lem a s) (
            loop_lem xs (after_finish (a ∷ []) s) h.1
            ∙ ap (λ u. (ok tt, u))
                (same_state s _ _ _ _ (map-settled a xs s.db.accounts)
                  (map-flagged a xs s.accounts_with_deposits))))

  -- In a round over a ledger with blocks, with no block left to read for any account: the round returns,
  -- no account is resyncing any more, each account with deposits is marked as synced, and nothing else
  -- has changed.
  pub round_settles :
      (s : SyncState)
      → 0 < ledger.num_blocks
      → All IsUpToDate s.db.accounts
      → sync_all_accounts c ledger s ≡ (
        ok tt,
        record {
          db = record s.db {
            accounts = map (λ (r : Account). record r { resyncing = false }) s.db.accounts;
          };
          accounts_with_deposits =
              map
                (λ d. (d.0, d.1 || any (λ a. d.0 == a.id) s.db.accounts))
                s.accounts_with_deposits;
        },
      )
  unfolding sync_all_accounts
  round_settles s blocks h =
      let some_blocks : (ledger.num_blocks == 0) ≡ false = ground arith in
      rw some_blocks (
        loop_lem blocks s.db.accounts s h
        ∙ ap (λ u. (ok tt, u)) (same_state s _ _ _ _ all_settled refl))
    where
      all_settled :
          map (settled s.db.accounts) s.db.accounts
          ≡ map (λ (r : Account). record r { resyncing = false }) s.db.accounts
      all_settled = map-All _ _ s.db.accounts (
          All-mono (λ r k. ap (λ b. record r { resyncing = b }) (ground arith)) s.db.accounts
            (any_self (λ r. r.resyncing) (λ r a. a.resyncing && r.id == a.id)
              (λ r e. let own = (==_iff r.id r.id).1 refl in ground arith) s.db.accounts))
