-- ===== src/Logs/Reads.antt =====
-- `list_all`, `get_associated_txos` and `value_map` of full-service/src/db/transaction_log.rs.
use full_service.Prelude.{
  ℕ, ◌+◌, ◌%◌, Bool, true, not, ◌&&◌, Option, none, some, List, [], ◌∷◌, map,
}
use full_service.Prelude.Tests.{◌==◌, if◌then◌else◌}
use full_service.Prelude.Int.{as_i64, as_u64, u64_mod}
use full_service.Prelude.Lists.{filter, find?}
use full_service.Prelude.Order.{sort_by}
use full_service.Db.Schema.{RowId, Txo, TransactionLog, TransactionInputTxo, TransactionOutputTxo}
use full_service.Db.Tables.{Db}
use full_service.Db.Query.{desc, ge_int, le_int, page}
use full_service.Txos.Spendable.{value_of}

pub record AssociatedTxos : Type 0 where
  pub inputs : List Txo
  pub outputs : List (Txo × RowId)
  pub change : List (Txo × RowId)

-- `txos INNER JOIN transaction_input_txos`, in the order of the input rows.
abbrev pub joined_inputs : Db → List TransactionInputTxo → List Txo
joined_inputs db [] = []
joined_inputs db (i ∷ is) = elim (find? (λ t. t.id == i.txo_id) db.txos) [
  | none ↦ joined_inputs db is
  | some t ↦ t ∷ joined_inputs db is
]

-- `txos INNER JOIN transaction_output_txos`, with the address of the recipient.
abbrev pub joined_outputs : Db → List TransactionOutputTxo → List (Txo × RowId)
joined_outputs db [] = []
joined_outputs db (o ∷ os) = elim (find? (λ t. t.id == o.txo_id) db.txos) [
  | none ↦ joined_outputs db os
  | some t ↦ (t, o.recipient_public_address_b58) ∷ joined_outputs db os
]

unfoldable pub get_associated_txos : TransactionLog → Db → AssociatedTxos
get_associated_txos l db = record {
  inputs = joined_inputs db (filter (λ i. i.transaction_log_id == l.id) db.transaction_input_txos);
  outputs =
      joined_outputs db
        (filter (λ o. o.transaction_log_id == l.id && not o.is_change) db.transaction_output_txos);
  change =
      joined_outputs db
        (filter (λ o. o.transaction_log_id == l.id && o.is_change) db.transaction_output_txos);
}

-- A `HashMap` of sums per token: `*map.entry(k).or_insert(0) += v`, which wraps.
abbrev pub ValueMap : Type 0
ValueMap = List (ℕ × ℕ)

abbrev pub add_value : (k v : ℕ) → ValueMap → ValueMap
add_value k v [] = (k, v % u64_mod) ∷ []
add_value k v ((j, w) ∷ m) = if j == k then (j, (w + v) % u64_mod) ∷ m else (j, w) ∷ add_value k v m

abbrev pub value_of_token : ℕ → ValueMap → ℕ
value_of_token k [] = 0
value_of_token k ((j, w) ∷ m) = if j == k then w else value_of_token k m

unfoldable pub value_map_of : ValueMap → List (Txo × RowId) → ValueMap
value_map_of m [] = m
value_map_of m (o ∷ os) = value_map_of (add_value (as_u64 o.0.token_id) (value_of o.0) m) os

unfoldable pub value_map : TransactionLog → Db → ValueMap
unfolding get_associated_txos value_map_of
value_map l db = value_map_of [] (get_associated_txos l db).outputs

abbrev of_account : Option RowId → TransactionLog → Bool
of_account none l = true
of_account (some a) l = l.account_id == a

abbrev from_block : Option ℕ → TransactionLog → Bool
from_block none l = true
from_block (some m) l = ge_int l.submitted_block_index (as_i64 m)

abbrev to_block : Option ℕ → TransactionLog → Bool
to_block none l = true
to_block (some m) l = le_int l.submitted_block_index (as_i64 m)

-- `ORDER BY submitted_block_index DESC` before `OFFSET` and `LIMIT`.
unfoldable pub list_all :
    (account_id : Option RowId) (offset limit min_block_index max_block_index : Option ℕ)
    → Db
    → List (TransactionLog × AssociatedTxos × ValueMap)
unfolding get_associated_txos value_map
list_all a offset limit min max db =
    map (λ l. (l, get_associated_txos l db, value_map l db))
      (page offset limit (
        sort_by (λ l m. desc l.submitted_block_index m.submitted_block_index)
          (filter (λ l. of_account a l && (from_block min l && to_block max l))
            db.transaction_logs)))
