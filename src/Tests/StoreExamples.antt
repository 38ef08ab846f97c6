-- ===== src/Tests/StoreExamples.antt =====
-- Runs of the balance, of the removal of an account and of the receipt of a txo on the wallet of
-- `Tests.Wallet`, and each theorem on them at one input.
use full_service.Prelude.{◌+◌, ◌≤◌, ◌≡◌, refl, true, none, some, arith}
use full_service.Prelude.Int.{as_i64, as_u64}
use full_service.Prelude.Lists.{length}
use full_service.Prelude.Order.{sort_by, insert_by}
use full_service.Prelude.Result.{ok, is_ok}
use full_service.Prelude.State.{for_each, ◌>>=◌}
use full_service.Db.Schema.{Txo}
use full_service.Db.Tables.{insert_txo, delete_account_row, delete_transaction_logs, delete_txos}
use full_service.Db.Query.{resolve_subaddress, input_rows, output_rows, find_account, find_txo}
use full_service.Txos.List.{
  list_unspent, list_spent, list_pending, list_unverified, list_secreted, list_orphaned,
}
use full_service.Txos.Spendable.{sum_values, list_spendable}
use full_service.Txos.Memo.{add_memo_to_database, store_memo, two_bytes_to_i32}
use full_service.Txos.Write.{create_received, view_private_key, update_as_received}
use full_service.Txos.Remove.{scrub_account, delete_unreferenced}
use full_service.Txos.Receive.{HasReceived, create_received-HasReceived}
use full_service.Txos.Others.{create_received-other}
use full_service.Logs.Delete.{delete_all_for_account, delete_input_row, delete_output_row}
use full_service.Balance.{Balance, get_balance_inner}
use full_service.Balance.Bounds.{balance_counts_once}
use full_service.Accounts.{delete, delete_all}
use full_service.Accounts.Delete.{IsGone, delete-IsGone}
use full_service.Tests.Wallet.{crypto, wallet, plain_wallet, output_of}

abbrev balance : Balance
balance = record {
  max_spendable = 69;
  unverified = 0;
  unspent = 70;
  pending = 30;
  spent = 0;
  secreted = 0;
  orphaned = 0;
}

balance_result : get_balance_inner 16 (some 1) none 0 1 plain_wallet ≡ ok balance
unfolding get_balance_inner list_unspent list_spent list_pending list_unverified list_secreted
    list_orphaned list_spendable resolve_subaddress input_rows output_rows as_i64 as_u64 sort_by
    insert_by
balance_result = refl

one_log_each : (t : Txo) → length (input_rows plain_wallet t) ≤ 1
unfolding input_rows
one_log_each t = ground arith

balance_counts_once_example : 70 + 0 + 30 + 0 ≤ sum_values plain_wallet.txos
balance_counts_once_example =
    balance_counts_once 16 (some 1) none 0 1 plain_wallet balance one_log_each
      (refl, (refl, (refl, tt))) balance_result

delete_result : is_ok (delete 1 wallet).0 ≡ true
unfolding delete delete_all delete_all_for_account delete_input_row delete_output_row
    delete_transaction_logs scrub_account delete_account_row delete_unreferenced delete_txos
    for_each ◌>>=◌
delete_result = refl

delete-IsGone_example : IsGone 1 (delete 1 wallet).1
delete-IsGone_example = delete-IsGone 1 wallet delete_result

receive_result :
    is_ok
      (create_received crypto
        (output_of 100 9)
        (some 0)
        (some 1103)
        (record { value = 9; token_id = 0 })
        5
        1
        wallet).0
    ≡ true
unfolding create_received find_account view_private_key find_txo update_as_received insert_txo
    add_memo_to_database store_memo two_bytes_to_i32 ◌>>=◌
receive_result = refl

create_received-HasReceived_example :
    HasReceived crypto
      (output_of 100 9)
      (some 0)
      (some 1103)
      (record { value = 9; token_id = 0 })
      5
      1
      (create_received crypto
        (output_of 100 9)
        (some 0)
        (some 1103)
        (record { value = 9; token_id = 0 })
        5
        1
        wallet).1
create_received-HasReceived_example =
    create_received-HasReceived crypto (output_of 100 9) (some 0) (some 1103)
      (record { value = 9; token_id = 0 }) 5 1 wallet receive_result

create_received-other_example :
    find_txo 101
      (create_received crypto
        (output_of 100 9)
        (some 0)
        (some 1103)
        (record { value = 9; token_id = 0 })
        5
        1
        wallet).1
    ≡ find_txo 101 wallet
create_received-other_example =
    create_received-other crypto (output_of 100 9) (some 0) (some 1103)
      (record { value = 9; token_id = 0 }) 5 1 wallet 101 refl
