-- ===== src/Db/Query.antt =====
-- What the queries of full-service/src/db share: the optional filters, `ORDER BY
-- received_block_index DESC`, `OFFSET`/`LIMIT`, and the joins of a txo with its transaction logs.
use full_service.Prelude.{ℕ, Bool, true, false, ◌&&◌, Option, none, some, List, [], ◌∷◌, map}
use full_service.Prelude.Tests.{◌==◌}
use full_service.Prelude.Int.{ℤ, pos, negsuc, leb_ℤ, eqb_ℤ, as_i64}
use full_service.Prelude.Lists.{filter, find?, take, drop}
use full_service.Prelude.Result.{ok, err, ok_or, ◌>>=◌}
use full_service.Db.Schema.{
  RowId, Bytes, Account, Txo, AssignedSubaddress, TransactionLog, TransactionInputTxo,
  TransactionOutputTxo,
}
use full_service.Db.Error.{
  account_not_found, duplicate_entries, assigned_subaddress_not_found, txo_not_found,
}
use full_service.Db.Tables.{Db, DbResult, eq_id}

-- `column = value`, `column >= value` and `column <= value` where the column may be NULL.
abbrev pub eq_int : Option ℤ → ℤ → Bool
eq_int none v = false
eq_int (some c) v = eqb_ℤ c v

abbrev pub ge_int : Option ℤ → ℤ → Bool
ge_int none v = false
ge_int (some c) v = leb_ℤ v c

abbrev pub le_int : Option ℤ → ℤ → Bool
le_int none v = false
le_int (some c) v = leb_ℤ c v

-- The filters that a query adds for each optional argument; an absent one lets every row pass.
abbrev pub by_account : Option RowId → Txo → Bool
by_account none t = true
by_account (some a) t = eq_id t.account_id a

abbrev pub by_subaddress : Option AssignedSubaddress → Txo → Bool
by_subaddress none t = true
by_subaddress (some s) t =
    eq_int t.subaddress_index s.subaddress_index && eq_id t.account_id s.account_id

abbrev pub by_token : Option ℕ → Txo → Bool
by_token none t = true
by_token (some k) t = eqb_ℤ t.token_id (as_i64 k)

abbrev pub by_min : Option ℕ → Txo → Bool
by_min none t = true
by_min (some m) t = ge_int t.received_block_index (as_i64 m)

abbrev pub by_max : Option ℕ → Txo → Bool
by_max none t = true
by_max (some m) t = le_int t.received_block_index (as_i64 m)

-- `ORDER BY received_block_index DESC`: NULL is less than every integer.
abbrev pub desc : Option ℤ → Option ℤ → Bool
desc x none = true
desc none (some y) = false
desc (some x) (some y) = leb_ℤ y x

abbrev pub received_desc : Txo → Txo → Bool
received_desc t u = desc t.received_block_index u.received_block_index

-- A negative `LIMIT` is no limit, and a negative `OFFSET` is 0.
module _ {ℓ} {A : Type ℓ} where
  abbrev pub limited : ℤ → List A → List A
  limited (pos n) xs = take n xs
  limited (negsuc n) xs = xs

  abbrev pub skipped : ℤ → List A → List A
  skipped (pos n) xs = drop n xs
  skipped (negsuc n) xs = xs

  -- `if let (Some(o), Some(l)) = (offset, limit)`
  abbrev pub page : Option ℕ → Option ℕ → List A → List A
  page none l xs = xs
  page (some o) none xs = xs
  page (some o) (some l) xs = limited (as_i64 l) (skipped (as_i64 o) xs)

-- The row with a primary key.
unfoldable pub find_account : RowId → Db → DbResult Account
find_account i db = ok_or (account_not_found i) (find? (λ a. a.id == i) db.accounts)

unfoldable pub find_txo : RowId → Db → DbResult Txo
find_txo i db = ok_or (txo_not_found i) (find? (λ t. t.id == i) db.txos)

unfoldable pub find_log : RowId → Db → Option TransactionLog
find_log i db = find? (λ l. l.id == i) db.transaction_logs

unfoldable pub find_subaddress : RowId → Db → DbResult AssignedSubaddress
find_subaddress b db =
    ok_or (assigned_subaddress_not_found b)
      (find? (λ a. a.public_address_b58 == b) db.assigned_subaddresses)

-- `if let Some(b58) = … { AssignedSubaddress::get(b58)? … }`
unfoldable pub resolve_subaddress : Option RowId → Db → DbResult (Option AssignedSubaddress)
unfolding find_subaddress
resolve_subaddress none db = ok none
resolve_subaddress (some b) db = find_subaddress b db >>= λ s. ok (some s)

-- `LEFT JOIN`: an unmatched row is kept with NULLs.
abbrev pub left_join {ℓ} : {A : Type ℓ} → List A → List (Option A)
left_join [] = none ∷ []
left_join (x ∷ xs) = some x ∷ map some xs

abbrev log_of_input : Db → Option TransactionInputTxo → Option TransactionLog
log_of_input db none = none
log_of_input db (some i) = find? (λ l. l.id == i.transaction_log_id) db.transaction_logs

-- The rows of a txo in `txos LEFT JOIN transaction_input_txos LEFT JOIN transaction_logs`: of each
-- row the log, or `none` for NULLs.
unfoldable pub input_rows : Db → Txo → List (Option TransactionLog)
input_rows db t =
    map (log_of_input db) (left_join (filter (λ i. i.txo_id == t.id) db.transaction_input_txos))

pub record OutputRow : Type 0 where
  pub output : TransactionOutputTxo
  pub log : TransactionLog

abbrev row_of_output : Db → TransactionOutputTxo → Option OutputRow
row_of_output db o = elim (find? (λ l. l.id == o.transaction_log_id) db.transaction_logs) [
  | none ↦ none
  | some l ↦ some (record { output = o; log = l })
]

abbrev joined_outputs : Db → List TransactionOutputTxo → List OutputRow
joined_outputs db [] = []
joined_outputs db (o ∷ os) = elim (row_of_output db o) [
  | none ↦ joined_outputs db os
  | some r ↦ r ∷ joined_outputs db os
]

-- The rows of a txo in `txos JOIN transaction_output_txos JOIN transaction_logs`. A filter on a
-- column of the log drops the rows that a LEFT JOIN would add.
unfoldable pub output_rows : Db → Txo → List OutputRow
output_rows db t = joined_outputs db (filter (λ o. o.txo_id == t.id) db.transaction_output_txos)

-- `AssignedSubaddress::find_by_subaddress_spend_public_key` of
-- full-service/src/db/assigned_subaddress.rs, on the bytes of the key.
abbrev only_match : List AssignedSubaddress → DbResult (ℤ × RowId)
only_match [] = err (assigned_subaddress_not_found 0)
only_match (a ∷ []) = ok (a.subaddress_index, a.account_id)
only_match (a ∷ b ∷ r) = err duplicate_entries

unfoldable pub find_by_subaddress_spend_public_key : Bytes → Db → DbResult (ℤ × RowId)
find_by_subaddress_spend_public_key k db =
    only_match (filter (λ a. a.spend_public_key == k) db.assigned_subaddresses)
