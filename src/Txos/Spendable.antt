-- ===== src/Txos/Spendable.antt =====
-- `list_spendable` and `select_spendable_txos_for_value` of full-service/src/db/txo.rs. `MAX_INPUTS`
-- is a constant of mc-transaction-core, so it is a parameter.
pub mod Window
pub mod Select
pub mod Laws
use full_service.Prelude.{ℕ, ◌+◌, ◌-◌, Bool, ◌&&◌, ◌||◌, Option, some, List, [], ◌∷◌, ◌++◌, reverse}
use full_service.Prelude.Tests.{ltb, leb, if◌then◌else◌, is_some, is_none, unwrap_or}
use full_service.Prelude.Int.{as_u64, as_i64, u64_max, eqb_ℤ}
use full_service.Prelude.Lists.{filter, any, take, length, is_empty}
use full_service.Prelude.Order.{sort_by}
use full_service.Prelude.Result.{ok, err, ◌>>=◌}
use full_service.Db.Schema.{RowId, Txo, AssignedSubaddress}
use full_service.Db.Error.{
  WalletDbError, no_spendable_txos, insufficient_funds, insufficient_funds_fragmented_txos,
  insufficient_funds_under_max_spendable,
}
use full_service.Db.Tables.{Db, DbResult}
use full_service.Db.Query.{by_account, by_subaddress, resolve_subaddress, input_rows}
use full_service.Txos.List.{releases_input}

-- `txo.value as u64`
abbrev pub value_of : Txo → ℕ
value_of t = as_u64 t.value

-- The sum of the values as `u128`: of any list that memory holds it stays below 2^128.
abbrev pub sum_values : List Txo → ℕ
sum_values [] = 0
sum_values (t ∷ ts) = value_of t + sum_values ts

-- `(b.value as u64).cmp(&(a.value as u64))`
abbrev pub value_desc : Txo → Txo → Bool
value_desc a b = leb (value_of b) (value_of a)

-- The filters of the query, and the one on `max_spendable_value`.
abbrev pub can_spend :
    Db
    → (account_id_hex : Option RowId) (max_spendable_value : Option ℕ)
      (subaddress : Option AssignedSubaddress) (token_id : ℕ)
    → Txo
    → Bool
can_spend db a cap s k t =
    (any releases_input (input_rows db t)
      && (is_some t.received_block_index
          && (is_none t.spent_block_index
              && (is_some t.subaddress_index
                  && (eqb_ℤ t.token_id (as_i64 k) && (by_subaddress s t && by_account a t))))))
    && leb (value_of t) (unwrap_or u64_max cap)

pub record SpendableTxosResult : Type 0 where
  pub spendable_txos : List Txo
  pub max_spendable_in_wallet : ℕ

pub record Selection : Type 0 where
  pub selected : List Txo
  pub total : ℕ

module _ (max_inputs : ℕ) where
  -- The sum of the largest values that one transaction can take, less the fee.
  abbrev pub max_spendable : List Txo → ℕ → ℕ
  max_spendable ts fee =
      let sum = sum_values (take max_inputs ts) in if ltb fee sum then sum - fee else 0

  unfoldable pub list_spendable :
      (account_id_hex : Option RowId) (max_spendable_value : Option ℕ)
      (assigned_subaddress_b58 : Option RowId) (token_id default_token_fee : ℕ)
      → Db
      → DbResult SpendableTxosResult
  list_spendable a cap b k fee db = resolve_subaddress b db >>= λ s.
      let ts = sort_by value_desc (filter (can_spend db a cap s k) db.txos) in
      ok (record { spendable_txos = ts; max_spendable_in_wallet = max_spendable ts fee })

  -- `selected_utxos` and `total` of the loop.
  abbrev pub remove_lowest : List Txo → ℕ → Selection
  remove_lowest [] total = record { selected = []; total = total }
  remove_lowest (removed ∷ kept) total = record {
    selected = kept;
    total = total - value_of removed;
  }

  -- One round: `push` the next txo, and remove the first one where there are too many.
  unfoldable pub grab : Selection → Txo → Selection
  grab s t =
      let pushed = s.selected ++ t ∷ [] in
      if ltb max_inputs (length pushed)
      then remove_lowest pushed (s.total + value_of t)
      else record { selected = pushed; total = s.total + value_of t }

  -- The loop. The list holds what is left in the order of `pop`, the smallest first; each round
  -- takes one element, so the loop ends.
  unfoldable pub select_loop : (target_value : ℕ) → List Txo → Selection → DbResult (List Txo)
  unfolding grab
  select_loop target [] s = if leb target s.total then ok s.selected else err insufficient_funds
  select_loop target (t ∷ rest) s =
      let next = select_loop target rest (grab s t) in
      if leb target s.total then ok s.selected else next

  -- The funds that are there but not in one transaction's reach.
  abbrev pub insufficient : List Txo → ℕ → ℕ → WalletDbError
  insufficient ts target fee =
      if leb (target + fee) (sum_values ts)
      then insufficient_funds_fragmented_txos
      else insufficient_funds_under_max_spendable

  -- The last test of the function.
  abbrev pub checked_selection : List Txo → DbResult (List Txo)
  checked_selection ts =
      if is_empty ts || ltb max_inputs (length ts) then err insufficient_funds else ok ts

  -- What the function does with the spendable txos.
  unfoldable pub select_from :
      (target_value default_token_fee token_id : ℕ) → SpendableTxosResult → DbResult (List Txo)
  unfolding select_loop
  select_from target fee k r =
      if is_empty r.spendable_txos
      then err no_spendable_txos
      else if ltb (r.max_spendable_in_wallet + fee) target
      then err (insufficient r.spendable_txos target fee)
      else (select_loop target (reverse r.spendable_txos) (record { selected = []; total = 0 })
          >>= checked_selection)

  unfoldable pub select_spendable_txos_for_value :
      (account_id_hex : RowId) (target_value : ℕ) (max_spendable_value : Option ℕ)
      (assigned_subaddress_b58 : Option RowId) (token_id default_token_fee : ℕ)
      → Db
      → DbResult (List Txo)
  unfolding list_spendable select_from
  select_spendable_txos_for_value a target cap b k fee db =
      list_spendable (some a) cap b k fee db >>= select_from target fee k
