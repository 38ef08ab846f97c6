-- ===== src/Tests/ReceiptExamples.antt =====
-- A receipt that is checked on the small wallet, and the theorem on it at one input.
use full_service.Prelude.{◌+◌, ◌≡◌, refl, some, [], ◌∷◌}
use full_service.Prelude.Tests.{◌==◌}
use full_service.Prelude.Int.{as_u64}
use full_service.Prelude.Result.{ok}
use full_service.Db.Query.{find_account, find_subaddress, find_txo, output_rows}
use full_service.Txos.List.{unspent}
use full_service.Txos.Status.{status}
use full_service.Txos.Info.{TxoInfo, unused, memo, validate_confirmation, select_by_public_key}
use full_service.Service.Receipt.{
  ReceiverReceipt, ReceiptCrates, transaction_success, check_confirmation, check_txo,
  check_receipt_status,
}
use full_service.Service.Receipts.{IsReceived, check_receipt_status-IsReceived}
use full_service.Tests.Wallet.{crypto, plain_wallet, txo_of}

-- A confirmation number is valid if it is the sum of the public key and the view private key.
abbrev receipt_crates : ReceiptCrates
receipt_crates = record {
  memos = record {
    authenticated_sender_types = (1, 0) ∷ [];
    destination_types = (2, 0) ∷ [];
    validate = λ confirmation public view. confirmation == public + view;
  };
  get_value = λ a s. some (record { value = a; token_id = 0 });
  get_masked_amount = λ t. some t.masked_amount;
  hex_encode = λ b. b;
  hex_decode = λ s. some s;
}

abbrev receipt : ReceiverReceipt
receipt = record { public_key = 101; confirmation = 112; tombstone_block = 20; amount = 50 }

abbrev received : TxoInfo
received = record { txo = txo_of 101 50; memo = unused; status = unspent }

receipt_result :
    check_receipt_status crypto receipt_crates 70 receipt plain_wallet
    ≡ ok (transaction_success, some received)
unfolding check_receipt_status find_subaddress find_account select_by_public_key memo status
    check_txo check_confirmation validate_confirmation find_txo output_rows as_u64
receipt_result = refl

check_receipt_status-IsReceived_example :
    IsReceived crypto receipt_crates receipt plain_wallet 70 (some received)
check_receipt_status-IsReceived_example =
    check_receipt_status-IsReceived crypto receipt_crates receipt plain_wallet 70 (some received)
      receipt_result
