-- ===== src/Tests/Examples.antt =====
-- Runs of the code on the wallet of `Tests.Wallet`, and each theorem on transactions and funds at
-- one input.
use mathlib.Core.List.{Mem, Sublistᴰ, mem-cons_self}
use full_service.Prelude.{◌+◌, ◌≤◌, ◌≡◌, ◌↔◌, refl, true, none, some, List, [], ◌∷◌, arith}
use full_service.Prelude.Int.{as_i64, as_u64}
use full_service.Prelude.Lists.{length, take, any}
use full_service.Prelude.Order.{sort_by, insert_by}
use full_service.Prelude.Result.{ok, is_ok}
use full_service.Db.Schema.{Txo}
use full_service.Db.Query.{resolve_subaddress, input_rows}
use full_service.Txos.List.{list_unspent, list_pending, releases_input, row_is_pending}
use full_service.Txos.Spendable.{
  SpendableTxosResult, list_spendable, select_spendable_txos_for_value, sum_values, grab,
  select_loop, select_from,
}
use full_service.Txos.Memo.{i32_to_two_bytes, two_bytes_to_i32, i32_to_two_bytes-two_bytes_to_i32}
use full_service.Txos.Spendable.Select.{IsSelectionOf}
use full_service.Txos.Spendable.Laws.{
  selects_exactly, selection-IsSelectionOf, max_spendable_bounds, max_spendable_attained,
}
use full_service.Txos.Overlap.{IsHeld, unspent_pending_disjoint, pending_txo_is_spendable}
use full_service.Txos.Spendable.{value_of}
use full_service.Balance.{Balance, get_balance_inner}
use full_service.Balance.Twice.{held_txo_counted_twice}
use full_service.Tests.Wallet.{wallet, plain_wallet, txo_of}

-- Txo 100 is waiting for log 41, so two txos are left.
abbrev listed : SpendableTxosResult
listed = record {
  spendable_txos = txo_of 101 50 ∷ txo_of 102 20 ∷ [];
  max_spendable_in_wallet = 69;
}

listed_result : list_spendable 2 (some 1) none none 0 1 plain_wallet ≡ ok listed
unfolding list_spendable resolve_subaddress input_rows as_i64 as_u64 sort_by insert_by
listed_result = refl

selected_result :
    select_spendable_txos_for_value 2 1 60 none none 0 1 plain_wallet
    ≡ ok (txo_of 102 20 ∷ txo_of 101 50 ∷ [])
unfolding list_spendable resolve_subaddress input_rows as_i64 as_u64 sort_by insert_by
    select_spendable_txos_for_value grab select_loop select_from
selected_result = refl

max_spendable_attained_example :
    (us : List Txo) × Sublistᴰ us listed.spendable_txos × (length us ≤ 2) × (sum_values us ≡ 69 + 1)
max_spendable_attained_example =
    max_spendable_attained 2 1 none none 0 1 plain_wallet listed listed_result (omega arith)

selects_exactly_example :
    (is_ok (select_spendable_txos_for_value 2 1 60 none none 0 1 plain_wallet) ≡ true)
    ↔ (60 ≤ sum_values (take 2 listed.spendable_txos))
selects_exactly_example =
    selects_exactly 2 1 none none 0 1 plain_wallet 60 listed listed_result (omega arith)
      (omega arith)

selection-IsSelectionOf_example :
    (r : SpendableTxosResult) × (list_spendable 2 (some 1) none none 0 1 plain_wallet ≡ ok r)
    × IsSelectionOf 2 60 r.spendable_txos (txo_of 102 20 ∷ txo_of 101 50 ∷ [])
selection-IsSelectionOf_example =
    selection-IsSelectionOf 2 1 none none 0 1 plain_wallet 60 (txo_of 102 20 ∷ txo_of 101 50 ∷ [])
      (omega arith) selected_result

max_spendable_bounds_example : sum_values (txo_of 101 50 ∷ []) ≤ 69 + 1
max_spendable_bounds_example =
    max_spendable_bounds 2 1 none none 0 1 plain_wallet listed (txo_of 101 50 ∷ []) listed_result
      (Sublistᴰ.cons-cons refl (Sublistᴰ.cons Sublistᴰ.slnil)) (omega arith)

one_log : (t : Txo) → length (input_rows plain_wallet t) ≤ 1
unfolding input_rows
one_log t = ground arith

unspent_result :
    list_unspent (some 1) none none none none none none plain_wallet
    ≡ ok (txo_of 101 50 ∷ txo_of 102 20 ∷ [])
unfolding list_unspent resolve_subaddress input_rows sort_by insert_by
unspent_result = refl

pending_result :
    list_pending (some 1) none none none none none none plain_wallet ≡ ok (txo_of 100 30 ∷ [])
unfolding list_pending resolve_subaddress input_rows sort_by insert_by
pending_result = refl

unspent_pending_disjoint_example : ¬ Mem (txo_of 101 50) (txo_of 100 30 ∷ [])
unspent_pending_disjoint_example =
    unspent_pending_disjoint plain_wallet (some 1) none (some 1) none none none none none none none
      none none none none (txo_of 101 50 ∷ txo_of 102 20 ∷ []) (txo_of 100 30 ∷ []) one_log
      unspent_result pending_result (txo_of 101 50) mem-cons_self

held : IsHeld (txo_of 100 30)
held = record { received = refl; at_subaddress = refl; with_image = refl; not_spent = refl }

releases : any releases_input (input_rows wallet (txo_of 100 30)) ≡ true
unfolding input_rows
releases = refl

waits : any row_is_pending (input_rows wallet (txo_of 100 30)) ≡ true
unfolding input_rows
waits = refl

held_txo_counted_twice_example :
    (r : Balance) × (get_balance_inner 16 (some 1) none 0 1 wallet ≡ ok r)
    × (value_of (txo_of 100 30) ≤ r.unspent)
    × (value_of (txo_of 100 30) ≤ r.pending)
unfolding as_i64
held_txo_counted_twice_example =
    held_txo_counted_twice wallet (txo_of 100 30) 1 0 16 1 held mem-cons_self refl refl releases
      waits

pending_txo_is_spendable_example :
    (r : SpendableTxosResult) × (list_spendable 16 (some 1) none none 0 1 wallet ≡ ok r)
    × Mem (txo_of 100 30) r.spendable_txos
    × (us : List Txo) × (list_pending (some 1) none (some 0) none none none none wallet ≡ ok us)
    × Mem (txo_of 100 30) us
unfolding as_i64 as_u64
pending_txo_is_spendable_example =
    pending_txo_is_spendable wallet (txo_of 100 30) held mem-cons_self 1 0 refl refl (omega arith)
      16 1 releases waits

i32_to_two_bytes-two_bytes_to_i32_example : i32_to_two_bytes (two_bytes_to_i32 (1, 2)) ≡ (1, 2)
i32_to_two_bytes-two_bytes_to_i32_example =
    i32_to_two_bytes-two_bytes_to_i32 1 2 (omega arith) (omega arith)
