-- ===== src/Accounts/Delete.antt =====
-- What is left of an account that was deleted.
use full_service.Prelude.{◌≡◌, refl, Bool, true, false, not, none, List, [], ◌∷◌, arith, inl, inr}
use full_service.Prelude.Tests.{◌==◌, if◌then◌else◌, Bool-cases}
use full_service.Prelude.Lists.{any, filter}
use full_service.Prelude.Result.{is_ok, ok, err}
use full_service.Db.Error.{WalletDbError}
use full_service.Prelude.Keeps.{Keeps, Ends, Ends-bind, Ends-then}
use full_service.Db.Schema.{RowId, Txo}
use full_service.Db.Tables.{
  Db, DbAction, DbResult, eq_id, update, delete_account_row, delete_transaction_logs, delete_txos,
}
use full_service.Txos.Remove.{scrub_account, is_unreferenced, delete_unreferenced}
use full_service.Logs.Delete.{delete_all_for_account}
use full_service.Accounts.{delete, delete_all}

module _ {ℓ} {A : Type ℓ} where
  any-filter-not : (p : A → Bool) (xs : List A) → any p (filter (λ x. not (p x)) xs) ≡ false
  any-filter-not p [] = refl
  any-filter-not p (x ∷ xs) = ground (arith, any-filter-not p xs)

  any-filter-none : (p q : A → Bool) (xs : List A) → any p xs ≡ false → any p (filter q xs) ≡ false
  any-filter-none p q [] h = refl
  any-filter-none p q (x ∷ xs) h = ground (arith, any-filter-none p q xs)

any-scrubbed :
    (a : RowId) (ts : List Txo)
    → any
        (λ t. eq_id t.account_id a)
        (update (λ t. eq_id t.account_id a) (λ t. record t { account_id = none }) ts)
      ≡ false
any-scrubbed a [] = refl
any-scrubbed a (t ∷ ts) = elim (Bool-cases (eq_id t.account_id a)) [
  | inl e ↦ rw e (any-scrubbed a ts)
  | inr e ↦ rw e (rw e (any-scrubbed a ts))
]

-- A statement that returns has passed its guard.
abbrev guarded_by : Bool → WalletDbError → Db → Db → DbResult (Unit {0}) × Db
guarded_by guard e failed after = if guard then (err e, failed) else (ok tt, after)

guarded :
    (Q : Db → Type 0) (guard : Bool) (e : WalletDbError) (failed after : Db)
    → Q after
    → is_ok (guarded_by guard e failed after).0 ≡ true
    → Q (guarded_by guard e failed after).1
guarded Q true e failed after q h = cc
guarded Q false e failed after q h = q

module _ (a : RowId) where
  -- What each statement of the removal adds.
  record HasNoLog (db : Db) : Type 0 where
    pub no_log : any (λ l. l.account_id == a) db.transaction_logs ≡ false

  record HasNoSubaddress (db : Db) : Type 0 where
    pub logs : HasNoLog db
    pub no_subaddress : any (λ s. s.account_id == a) db.assigned_subaddresses ≡ false

  record HasNoTxo (db : Db) : Type 0 where
    pub subaddresses : HasNoSubaddress db
    pub no_txo : any (λ t. eq_id t.account_id a) db.txos ≡ false

  record HasNoRow (db : Db) : Type 0 where
    pub txos : HasNoTxo db
    pub no_account : any (λ b. b.id == a) db.accounts ≡ false

  -- Nothing names the account, and each txo that is left belongs to another one or to a log.
  pub record IsGone (db : Db) : Type 0 where
    pub no_account : any (λ b. b.id == a) db.accounts ≡ false
    pub no_subaddress : any (λ s. s.account_id == a) db.assigned_subaddresses ≡ false
    pub no_log : any (λ l. l.account_id == a) db.transaction_logs ≡ false
    pub no_txo : any (λ t. eq_id t.account_id a) db.txos ≡ false
    pub no_unreferenced : any (λ t. is_unreferenced db t) db.txos ≡ false

  anything : {A : Type 0} (m : DbAction A) → Keeps (λ db. Unit) m
  anything m = record { at = λ db h. tt }

  logs_deleted : Ends (λ db. Unit) HasNoLog (delete_transaction_logs a)
  unfolding delete_transaction_logs
  logs_deleted = record {
    at = λ db h e. record {
      no_log = ground (arith, any-filter-not (λ l. l.account_id == a) db.transaction_logs);
    };
  }

  all_logs_deleted : Ends (λ db. Unit) HasNoLog (delete_all_for_account a)
  unfolding delete_all_for_account
  all_logs_deleted = Ends-bind _ _ (anything _) λ inputs.
      Ends-bind _ _ (anything _)
        λ _. Ends-bind _ _ (anything _) λ outputs. Ends-bind _ _ (anything _) λ _. logs_deleted

  subaddresses_deleted : Ends HasNoLog HasNoSubaddress (delete_all a)
  unfolding delete_all
  subaddresses_deleted = record {
    at = λ db h e. record {
      logs = record { no_log = h.no_log };
      no_subaddress = any-filter-not (λ s. s.account_id == a) db.assigned_subaddresses;
    };
  }

  txos_scrubbed : Ends HasNoSubaddress HasNoTxo (scrub_account a)
  unfolding scrub_account
  txos_scrubbed = record {
    at = λ db h e. record {
      subaddresses = record {
        logs = record { no_log = h.logs.no_log };
        no_subaddress = h.no_subaddress;
      };
      no_txo = any-scrubbed a db.txos;
    };
  }

  row_deleted : Ends HasNoTxo HasNoRow (delete_account_row a)
  unfolding delete_account_row
  row_deleted = record {
    at = λ db h e.
        guarded HasNoRow _ _ _ _
          (record {
            txos = record {
              subaddresses = record {
                logs = record { no_log = h.subaddresses.logs.no_log };
                no_subaddress = h.subaddresses.no_subaddress;
              };
              no_txo = h.no_txo;
            };
            no_account = any-filter-not (λ b. b.id == a) db.accounts;
          })
          e;
  }

  unreferenced_deleted : Ends HasNoRow IsGone delete_unreferenced
  unfolding delete_unreferenced delete_txos
  unreferenced_deleted = record {
    at = λ db h e.
        guarded IsGone _ _ _ _
          (record {
            no_account = h.no_account;
            no_subaddress = h.txos.subaddresses.no_subaddress;
            no_log = h.txos.subaddresses.logs.no_log;
            no_txo =
                any-filter-none (λ t. eq_id t.account_id a) (λ t. not (is_unreferenced db t))
                  db.txos h.txos.no_txo;
            no_unreferenced = any-filter-not (λ t. is_unreferenced db t) db.txos;
          })
          e;
  }

  -- A removal that returns leaves no account, subaddress or log of this id and no txo that names it,
  -- and every txo that is left has an account or is an input or output of a log.
  pub delete-IsGone : (db : Db) → is_ok (delete a db).0 ≡ true → IsGone (delete a db).1
  unfolding delete
  delete-IsGone db h =
      (Ends-then _ _ all_logs_deleted λ _. Ends-then _ _ subaddresses_deleted λ _.
          Ends-then _ _ txos_scrubbed λ _. Ends-then _ _ row_deleted λ _. unreferenced_deleted).at
        db tt h
