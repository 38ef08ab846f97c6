-- ===== src/Service/Txos.antt =====
-- full-service/src/service/txo.rs and full-service/src/service/transaction_log.rs, with `get_confirmations`
-- of full-service/src/service/confirmation_number.rs.
use Prim.Native.String.{String}
use Prim.Native.Char.{Char}
use full_service.Prelude.{ℕ, zero, suc, ◌+◌, ◌/◌, ◌%◌, Option, none, some, List, [], ◌∷◌, map}
use full_service.Prelude.Tests.{◌==◌, if◌then◌else◌, unwrap_or}
use full_service.Prelude.Int.{ℤ, pos, negsuc}
use full_service.Prelude.Result.{Result, ok, err, ok_or, map_err, ◌>>=◌}
use full_service.Db.Schema.{RowId, Bytes, Txo, TransactionLog, AssignedSubaddress}
use full_service.Db.Error.{WalletDbError}
use full_service.Db.Tables.{Db, DbResult}
use full_service.Db.Query.{find_txo, find_account}
use full_service.External.{Crypto}
use full_service.Txos.List.{TxoStatus, list, list_for_account, list_for_address}
use full_service.Txos.Status.{status}
use full_service.Txos.Info.{MemoCrates, TxoInfo, memo}
use full_service.Accounts.Subaddresses.{get_for_account_by_index}
use full_service.Logs.Defs.{get}
use full_service.Logs.Reads.{AssociatedTxos, ValueMap, get_associated_txos, value_map}
use full_service.Logs.Proposal.{TxProposal, UnsignedTxProposal}
use full_service.Builder.Rings.{TxOutLedger}
use full_service.Builder.Build.{TxCrates}
use full_service.Service.Sign.{TransactionServiceError, ServiceResult, Signers, sign}
use full_service.Service.Transaction.{Network, Limits, BuildRequest, build_transaction}

-- `TxoServiceError` and `ConfirmationServiceError`, by the cases that the modelled code raises.
pub data TxoServiceError : Type 0 where
  database : WalletDbError → TxoServiceError
  transaction_service : TransactionServiceError → TxoServiceError
  txo_not_spendable_by_any_account : RowId → TxoServiceError
  prost_decode ledger_db : TxoServiceError
  missing_confirmation : RowId → TxoServiceError

abbrev pub TxoServiceResult : Type 0 → Type 0
TxoServiceResult A = Result TxoServiceError A

-- `i64::to_string`; an `i64` has at most 19 digits.
abbrev digit : ℕ → Char
digit d =
    if d == 0
    then "0"
    else if d == 1
    then "1"
    else if d == 2
    then "2"
    else if d == 3
    then "3"
    else if d == 4
    then "4"
    else if d == 5
    then "5"
    else if d == 6
    then "6"
    else if d == 7
    then "7"
    else if d == 8
    then "8"
    else "9"

unfoldable pub digits : (fuel n : ℕ) → String → String
digits zero n s = s
digits (suc fuel) n s =
    let rest = digits fuel (n / 10) (String.◌∷◌ (digit (n % 10)) s) in
    if n / 10 == 0 then String.◌∷◌ (digit (n % 10)) s else rest

unfoldable pub to_string : ℤ → String
unfolding digits
to_string (pos n) = digits 20 n ""
to_string (negsuc n) = String.◌∷◌ "-" (digits 20 (n + 1) "")

unfoldable pub get_transaction_log :
    (transaction_id_hex : RowId) → Db → DbResult (TransactionLog × AssociatedTxos × ValueMap)
unfolding get get_associated_txos value_map
get_transaction_log i db = get i db >>= λ l. ok (l, get_associated_txos l db, value_map l db)

abbrev pub request_of :
    (rth_memo : Bytes → Bytes) (txo_id : RowId) (output_values : List String)
    (fee_value fee_token_id tombstone_block : Option String)
    → Txo
    → (account_id : RowId) → AssignedSubaddress
    → BuildRequest
request_of rth i values fee token tombstone txo account address = record {
  account_id_hex = account;
  addresses_and_amounts =
      map
        (λ v. (address.public_address_b58, record { value = v; token_id = to_string txo.token_id }))
        values;
  input_txo_ids = some (i ∷ []);
  fee_value = fee;
  fee_token_id = token;
  tombstone_block = tombstone;
  max_spendable_value = none;
  memo = rth;
  block_version = none;
  spend_subaddress = none;
}

-- What `split_txo` asks `build_transaction` for.
unfoldable pub split_request :
    (rth_memo : Bytes → Bytes) (txo_id : RowId) (output_values : List String)
    (subaddress_index : Option ℤ) (fee_value fee_token_id tombstone_block : Option String)
    → Db
    → TxoServiceResult BuildRequest
unfolding find_txo get_for_account_by_index to_string
split_request rth i values index fee token tombstone db = do
  txo ← map_err database (find_txo i db)
  account ← ok_or (txo_not_spendable_by_any_account txo.id) txo.account_id
  address ← map_err database (get_for_account_by_index account (unwrap_or (pos 0) index) db)
  ok (request_of rth i values fee token tombstone txo account address)

module _ (c : Crypto) (signers : Signers) (crates : TxCrates) (ledger : TxOutLedger)
    (network : Network) (limits : Limits) where
  abbrev pub sign_split :
      (account_id : RowId)
      → Db
      → Option (ServiceResult UnsignedTxProposal)
      → Option (TxoServiceResult TxProposal)
  sign_split a db none = none
  sign_split a db (some r) = some (
      map_err transaction_service r >>= λ u. map_err database (find_account a db) >>= λ account.
      map_err transaction_service (sign c signers u account))

  abbrev pub build_split :
      (draws : List ℕ) → Db → TxoServiceResult BuildRequest → Option (TxoServiceResult TxProposal)
  build_split draws db (err e) = some (err e)
  build_split draws db (ok r) =
      sign_split r.account_id_hex db (build_transaction c crates ledger network limits draws r db)

  unfoldable pub split_txo :
      (draws : List ℕ) (rth_memo : Bytes → Bytes) (txo_id : RowId) (output_values : List String)
      (subaddress_index : Option ℤ) (fee_value fee_token_id tombstone_block : Option String)
      → Db
      → Option (TxoServiceResult TxProposal)
  unfolding split_request build_transaction find_account sign
  split_txo draws rth i values index fee token tombstone db =
      build_split draws db (split_request rth i values index fee token tombstone db)

-- `Confirmation`
pub record Confirmation : Type 0 where
  pub txo_id : RowId
  pub txo_index : ℕ
  pub confirmation : Bytes

module _ (memos : MemoCrates) where
  unfoldable pub get_txo : (txo_id : RowId) → Db → TxoServiceResult TxoInfo
  unfolding find_txo status memo
  get_txo i db = map_err database (find_txo i db) >>= λ t.
      map_err database (memo memos t db) >>= λ m.
      ok (record { txo = t; memo = m; status = status db t })

  abbrev pub infos_of : List Txo → Db → TxoServiceResult (List TxoInfo)
  infos_of [] db = ok []
  infos_of (t ∷ ts) db = map_err database (memo memos t db) >>= λ m.
      infos_of ts db >>= λ is. ok (record { txo = t; memo = m; status = status db t } ∷ is)

  abbrev pub txos_of :
      (account_id address : Option RowId)
      → Option TxoStatus
      → (min max offset limit token_id : Option ℕ) → Db
      → DbResult (List Txo)
  txos_of a (some b) s min max o l k db = list_for_address b s min max o l k db
  txos_of (some a) none s min max o l k db = list_for_account a s min max o l k db
  txos_of none none s min max o l k db = list s min max o l k db

  unfoldable pub list_txos :
      (account_id address : Option RowId)
      → Option TxoStatus
      → (token_id min_received_block_index max_received_block_index offset limit : Option ℕ) → Db
      → TxoServiceResult (List TxoInfo)
  unfolding list_for_address list_for_account list status memo
  list_txos a b s k min max o l db =
      map_err database (txos_of a b s min max o l k db) >>= λ ts. infos_of ts db

  module _ (c : Crypto) (ledger : TxOutLedger) where
    unfoldable pub confirmations_of : List (Txo × RowId) → Db → TxoServiceResult (List Confirmation)
    unfolding get_txo
    confirmations_of [] db = ok []
    confirmations_of (o ∷ os) db = do
      info ← get_txo o.0.id db
      stored ← ok_or (missing_confirmation o.0.id) info.txo.confirmation
      confirmation ← ok_or prost_decode (c.decode stored)
      public ← ok_or prost_decode (c.decode info.txo.public_key)
      index ← ok_or TxoServiceError.ledger_db (ledger.get_tx_out_index_by_public_key public)
      rest ← confirmations_of os db
      ok (record { txo_id = info.txo.id; txo_index = index; confirmation = confirmation } ∷ rest)

    unfoldable pub get_confirmations :
        (transaction_log_id : RowId) → Db → TxoServiceResult (List Confirmation)
    unfolding get_transaction_log confirmations_of
    get_confirmations i db =
        map_err database (get_transaction_log i db) >>= λ l. confirmations_of l.1.outputs db
