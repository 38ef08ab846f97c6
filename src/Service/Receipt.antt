-- ===== src/Service/Receipt.antt =====
-- full-service/src/service/receipt.rs, and the check of a confirmation number in
-- full-service/src/service/confirmation_number.rs. Masked amounts and the hex encoding are parameters.
use full_service.Prelude.{ℕ, Bool, true, false, Option, none, some, List, [], ◌∷◌}
use full_service.Prelude.Tests.{◌==◌, if◌then◌else◌}
use full_service.Prelude.Result.{Result, ok, ok_or, map_err, ◌>>=◌}
use full_service.Db.Schema.{RowId, Bytes, Account, Txo}
use full_service.Db.Error.{WalletDbError}
use full_service.Db.Tables.{Db}
use full_service.Db.Query.{find_account, find_subaddress}
use full_service.External.{Crypto, TxOut, Amount}
use full_service.Txos.List.{
  TxoStatus, created, pending, orphaned, secreted, spent, unspent, unverified,
}
use full_service.Txos.Status.{status}
use full_service.Txos.Spendable.{value_of}
use full_service.Txos.Info.{MemoCrates, TxoInfo, memo, validate_confirmation, select_by_public_key}
use full_service.Txos.Write.{OutputTxo}
use full_service.Logs.Proposal.{TxProposal}

pub data ReceiptServiceError : Type 0 where
  database : WalletDbError → ReceiptServiceError
  prost_decode crypto_key hex_decode tx_out_conversion : ReceiptServiceError

pub record ReceiverReceipt : Type 0 where
  pub public_key : Bytes
  pub confirmation : Bytes
  pub tombstone_block : ℕ
  pub amount : Bytes

-- `AmountMismatch` holds the two values of its message.
pub data ReceiptTransactionStatus : Type 0 where
  transaction_success transaction_pending invalid_confirmation : ReceiptTransactionStatus
  amount_mismatch : (expected got : ℕ) → ReceiptTransactionStatus
  failed_amount_decryption : ReceiptTransactionStatus

-- `MaskedAmount::get_value` and `TxOut::get_masked_amount`, and the functions of `hex`.
pub record ReceiptCrates : Type 0 where
  pub memos : MemoCrates
  pub get_value : (amount shared_secret : Bytes) → Option Amount
  pub get_masked_amount : TxOut → Option Bytes
  pub hex_encode : Bytes → RowId
  pub hex_decode : RowId → Option Bytes

abbrev pub ReceiptResult : Type 0 → Type 0
ReceiptResult A = Result ReceiptServiceError A

abbrev pub Checked : Type 0
Checked = ReceiptTransactionStatus × Option TxoInfo

-- `(status == Pending) || (status == Created)`
abbrev pub not_landed : TxoStatus → Bool
not_landed pending = true
not_landed created = true
not_landed orphaned = false
not_landed secreted = false
not_landed spent = false
not_landed unspent = false
not_landed unverified = false

module _ (c : Crypto) (w : ReceiptCrates) where
  -- The confirmation number is encoded and decoded before it is validated.
  unfoldable pub check_confirmation :
      (account_id : RowId) → ReceiverReceipt → TxoInfo → Db → ReceiptResult Checked
  unfolding validate_confirmation
  check_confirmation a r info db = do
    bytes ← ok_or hex_decode (w.hex_decode (w.hex_encode (c.encode r.confirmation)))
    confirmation ← ok_or prost_decode (c.decode bytes)
    valid ← map_err database (validate_confirmation w.memos c a info.txo.id confirmation db)
    ok (if valid then transaction_success else invalid_confirmation, some info)

  abbrev pub check_amount :
      (account_id : RowId) → ReceiverReceipt → TxoInfo → Db → Option Amount → ReceiptResult Checked
  check_amount a r info db none = ok (failed_amount_decryption, some info)
  check_amount a r info db (some expected) =
      if value_of info.txo == expected.value
      then check_confirmation a r info db
      else ok (amount_mismatch expected.value (value_of info.txo), some info)

  -- From the status of the txo on.
  unfoldable pub check_txo :
      (account_id : RowId) → Account → ReceiverReceipt → TxoInfo → Db → ReceiptResult Checked
  unfolding check_confirmation
  check_txo a account r info db =
      if not_landed info.status
      then ok (transaction_pending, some info)
      else (ok_or prost_decode (c.decode_account_key account.account_key) >>= λ key.
          ok_or crypto_key (c.ristretto_public r.public_key) >>= λ public.
          check_amount a r info db (
            w.get_value r.amount
              (c.get_tx_out_shared_secret (c.account_view_private_key key) public)))

  abbrev pub check_first :
      (account_id : RowId) → Account → ReceiverReceipt → Db → List Txo → ReceiptResult Checked
  check_first a account r db [] = ok (transaction_pending, none)
  check_first a account r db (t ∷ ts) = map_err database (memo w.memos t db) >>= λ m.
      check_txo a account r (record { txo = t; memo = m; status = status db t }) db

  unfoldable pub check_receipt_status :
      (address : RowId) → ReceiverReceipt → Db → ReceiptResult Checked
  unfolding find_subaddress find_account select_by_public_key memo status check_txo
  check_receipt_status address r db = do
    assigned ← map_err database (find_subaddress address db)
    account ← map_err database (find_account assigned.account_id db)
    check_first assigned.account_id account r db (select_by_public_key c (r.public_key ∷ []) db)

  unfoldable pub receipts_of :
      (tombstone_block : ℕ) → (payload_txos : List OutputTxo) → ReceiptResult (List ReceiverReceipt)
  receipts_of tombstone [] = ok []
  receipts_of tombstone (o ∷ os) = do
    amount ← ok_or tx_out_conversion (w.get_masked_amount o.tx_out)
    rest ← receipts_of tombstone os
    ok (
        record {
          public_key = o.tx_out.public_key;
          confirmation = o.confirmation_number;
          tombstone_block = tombstone;
          amount = amount;
        }
        ∷ rest)

  unfoldable pub create_receiver_receipts : TxProposal → ReceiptResult (List ReceiverReceipt)
  unfolding receipts_of
  create_receiver_receipts p = receipts_of p.tx.prefix.tombstone_block p.payload_txos

  -- `validate_confirmation` of full-service/src/service/confirmation_number.rs
  unfoldable pub validate_confirmation_hex :
      (account_id txo_id confirmation_hex : RowId) → Db → ReceiptResult Bool
  unfolding validate_confirmation
  validate_confirmation_hex a i hex db = do
    bytes ← ok_or hex_decode (w.hex_decode hex)
    confirmation ← ok_or prost_decode (c.decode bytes)
    map_err database (validate_confirmation w.memos c a i confirmation db)
