-- ===== src/Db/Tables.antt =====
-- The tables and the statements on them. Rows stand in insertion order. Primary and foreign keys
-- are those of full-service/migrations/*/up.sql; `PRAGMA foreign_keys` is on. A statement that
-- breaks a key changes nothing and fails.
use full_service.Prelude.{
  Bool, true, false, not, ◌&&◌, ◌||◌, Option, none, some, List, [], ◌∷◌, ◌++◌,
}
use full_service.Prelude.Tests.{◌==◌, if◌then◌else◌}
use full_service.Prelude.Int.{eqb_ℤ}
use full_service.Prelude.Lists.{filter, any}
use full_service.Prelude.Result.{Result, ok, err}
use full_service.Prelude.State.{Action}
use full_service.Db.Schema.{
  RowId, Account, Txo, AssignedSubaddress, TransactionLog, TransactionInputTxo,
  TransactionOutputTxo, AuthenticatedSenderMemo, DestinationMemo, GiftCode,
}
use full_service.Db.Error.{
  WalletDbError, DieselError, diesel, unique_violation, foreign_key_violation,
}

pub record Db : Type 0 where
  pub accounts : List Account
  pub txos : List Txo
  pub assigned_subaddresses : List AssignedSubaddress
  pub transaction_logs : List TransactionLog
  pub transaction_input_txos : List TransactionInputTxo
  pub transaction_output_txos : List TransactionOutputTxo
  pub authenticated_sender_memos : List AuthenticatedSenderMemo
  pub destination_memos : List DestinationMemo
  pub gift_codes : List GiftCode

abbrev pub DbAction : Type 0 → Type 0
DbAction A = Action Db WalletDbError A

abbrev pub DbResult : Type 0 → Type 0
DbResult A = Result WalletDbError A

-- `column = value` where the column may be NULL: a NULL makes the comparison NULL, which no filter
-- lets pass.
abbrev pub eq_id : Option RowId → RowId → Bool
eq_id none i = false
eq_id (some j) i = j == i

-- `UPDATE … SET … WHERE …`
abbrev pub update {ℓ} : {A : Type ℓ} → (A → Bool) → (A → A) → List A → List A
update p f [] = []
update p f (x ∷ xs) = (if p x then f x else x) ∷ update p f xs

-- Whether a row with this primary key is there.
abbrev pub has_account : Db → RowId → Bool
has_account db i = any (λ a. a.id == i) db.accounts

abbrev pub has_txo : Db → RowId → Bool
has_txo db i = any (λ t. t.id == i) db.txos

abbrev pub has_log : Db → RowId → Bool
has_log db i = any (λ l. l.id == i) db.transaction_logs

abbrev pub references_account : Db → Option RowId → Bool
references_account db none = true
references_account db (some i) = has_account db i

abbrev fails : DieselError → DbAction (Unit {0})
fails e db = (err (diesel e), db)

-- `INSERT INTO accounts`
unfoldable pub insert_account : Account → DbAction (Unit {0})
insert_account a db =
    if has_account db a.id
    then fails unique_violation db
    else (ok tt, record db { accounts = db.accounts ++ a ∷ [] })

-- `INSERT INTO txos`
unfoldable pub insert_txo : Txo → DbAction (Unit {0})
insert_txo t db =
    if has_txo db t.id
    then fails unique_violation db
    else if references_account db t.account_id
    then (ok tt, record db { txos = db.txos ++ t ∷ [] })
    else fails foreign_key_violation db

-- `INSERT INTO transaction_logs`
unfoldable pub insert_transaction_log : TransactionLog → DbAction (Unit {0})
insert_transaction_log l db =
    if has_log db l.id
    then fails unique_violation db
    else if has_account db l.account_id
    then (ok tt, record db { transaction_logs = db.transaction_logs ++ l ∷ [] })
    else fails foreign_key_violation db

-- `INSERT INTO transaction_input_txos`
unfoldable pub insert_transaction_input_txo : TransactionInputTxo → DbAction (Unit {0})
insert_transaction_input_txo i db =
    if any (λ j. j.transaction_log_id == i.transaction_log_id && j.txo_id == i.txo_id)
      db.transaction_input_txos
    then fails unique_violation db
    else if has_log db i.transaction_log_id && has_txo db i.txo_id
    then (ok tt, record db { transaction_input_txos = db.transaction_input_txos ++ i ∷ [] })
    else fails foreign_key_violation db

-- `INSERT INTO transaction_output_txos`
unfoldable pub insert_transaction_output_txo : TransactionOutputTxo → DbAction (Unit {0})
insert_transaction_output_txo o db =
    if any (λ j. j.transaction_log_id == o.transaction_log_id && j.txo_id == o.txo_id)
      db.transaction_output_txos
    then fails unique_violation db
    else if has_log db o.transaction_log_id && has_txo db o.txo_id
    then (ok tt, record db { transaction_output_txos = db.transaction_output_txos ++ o ∷ [] })
    else fails foreign_key_violation db

-- `INSERT INTO assigned_subaddresses`: the address, the spend key, and the index within an account are
-- unique.
unfoldable pub insert_assigned_subaddress : AssignedSubaddress → DbAction (Unit {0})
insert_assigned_subaddress a db =
    if any
      (λ b.
        b.public_address_b58 == a.public_address_b58
        || (b.spend_public_key == a.spend_public_key
            || (b.account_id == a.account_id && eqb_ℤ b.subaddress_index a.subaddress_index)))
      db.assigned_subaddresses
    then fails unique_violation db
    else if has_account db a.account_id
    then (ok tt, record db { assigned_subaddresses = db.assigned_subaddresses ++ a ∷ [] })
    else fails foreign_key_violation db

-- `INSERT INTO authenticated_sender_memos … ON CONFLICT DO NOTHING`
unfoldable pub insert_authenticated_sender_memo : AuthenticatedSenderMemo → DbAction (Unit {0})
insert_authenticated_sender_memo m db =
    if any (λ n. n.txo_id == m.txo_id) db.authenticated_sender_memos
    then (ok tt, db)
    else if has_txo db m.txo_id
    then (ok tt, record db { authenticated_sender_memos = db.authenticated_sender_memos ++ m ∷ [] })
    else fails foreign_key_violation db

-- `INSERT INTO destination_memos … ON CONFLICT DO NOTHING`
unfoldable pub insert_destination_memo : DestinationMemo → DbAction (Unit {0})
insert_destination_memo m db =
    if any (λ n. n.txo_id == m.txo_id) db.destination_memos
    then (ok tt, db)
    else if has_txo db m.txo_id
    then (ok tt, record db { destination_memos = db.destination_memos ++ m ∷ [] })
    else fails foreign_key_violation db

-- `DELETE FROM accounts WHERE id = i`
unfoldable pub delete_account_row : RowId → DbAction (Unit {0})
delete_account_row i db =
    if has_account db i
      && (any (λ t. eq_id t.account_id i) db.txos
          || any (λ l. l.account_id == i) db.transaction_logs
          || any (λ a. a.account_id == i) db.assigned_subaddresses)
    then fails foreign_key_violation db
    else (ok tt, record db { accounts = filter (λ a. not (a.id == i)) db.accounts })

-- `DELETE FROM transaction_logs WHERE account_id = i`
unfoldable pub delete_transaction_logs : RowId → DbAction (Unit {0})
delete_transaction_logs i db =
    if any
      (λ l.
        l.account_id == i
        && (any (λ j. j.transaction_log_id == l.id) db.transaction_input_txos
            || any (λ j. j.transaction_log_id == l.id) db.transaction_output_txos))
      db.transaction_logs
    then fails foreign_key_violation db
    else (
      ok tt,
      record db { transaction_logs = filter (λ l. not (l.account_id == i)) db.transaction_logs },
    )

-- `DELETE FROM txos WHERE …`
unfoldable pub delete_txos : (Txo → Bool) → DbAction (Unit {0})
delete_txos p db =
    if any
      (λ t.
        p t
        && (any (λ j. j.txo_id == t.id) db.transaction_input_txos
            || any (λ j. j.txo_id == t.id) db.transaction_output_txos
            || any (λ m. m.txo_id == t.id) db.authenticated_sender_memos
            || any (λ m. m.txo_id == t.id) db.destination_memos))
      db.txos
    then fails foreign_key_violation db
    else (ok tt, record db { txos = filter (λ t. not (p t)) db.txos })
