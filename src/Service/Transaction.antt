-- ===== src/Service/Transaction.antt =====
-- full-service/src/service/transaction.rs. The network, the ledger, the signers and the MobileCoin
-- transaction builder are parameters. A call that samples rings for ever has no result; it is `none`.
use Prim.Native.String.{String}
use full_service.Prelude.{ℕ, ◌-◌, Bool, ◌&&◌, Option, none, some, List, [], ◌∷◌}
use full_service.Prelude.Tests.{ltb, if◌then◌else◌, is_none, unwrap_or}
use full_service.Prelude.Int.{as_u64}
use full_service.Prelude.Lists.{length}
use full_service.Prelude.Result.{ok, err, ok_or, map_err, ◌>>=◌, ◌>>◌}
use full_service.Db.Schema.{RowId, Bytes}
use full_service.Db.Tables.{Db}
use full_service.Db.Query.{find_account, find_subaddress}
use full_service.External.{Crypto}
use full_service.Logs.Proposal.{Tx, UnsignedTxProposal}
use full_service.Builder.{
  WalletTransactionBuilder, WalletTransactionBuilderError, BuilderResult, new, add_recipient,
  set_fee, set_block_version, set_spend_subaddress, set_tombstone, set_txos, invalid_argument,
  null_subaddress, wallet_db,
}
use full_service.Builder.Rings.{TxOutLedger}
use full_service.Builder.Build.{TxCrates, build}
use full_service.Builder.Select.{select_txos}
use full_service.Service.Parse.{parse_u64}
use full_service.Service.Sign.{
  ServiceResult, database, transaction_builder, u64_parse, invalid_public_address, invalid_amount,
  default_fee_not_found_for_token, ledger_service,
}

-- What the service asks of the network: the fee of a token and the block version of the last block,
-- the peers, and the answer of a peer to a transaction, with its retries.
pub record Network : Type 0 where
  pub is_offline : Bool
  pub fee_for_token : Option (ℕ → Option ℕ)
  pub block_version : Option ℕ
  pub responder_ids : List ℕ
  pub has_connection : ℕ → Bool
  pub propose_tx : ℕ → Tx → Option ℕ

-- The constants and defaults of the MobileCoin crates.
pub record Limits : Type 0 where
  pub max_inputs : ℕ
  pub max_outputs : ℕ
  pub default_fee : ℕ × ℕ

-- The amount of a request, by its texts.
pub record AmountJson : Type 0 where
  pub value : String
  pub token_id : String

-- The arguments of `build_transaction`; `memo` makes a memo builder from an account key.
pub record BuildRequest : Type 0 where
  pub account_id_hex : RowId
  pub addresses_and_amounts : List (RowId × AmountJson)
  pub input_txo_ids : Option (List RowId)
  pub fee_value : Option String
  pub fee_token_id : Option String
  pub tombstone_block : Option String
  pub max_spendable_value : Option String
  pub memo : Bytes → Bytes
  pub block_version : Option ℕ
  pub spend_subaddress : Option RowId

abbrev builder_failed : {A : Type 0} → BuilderResult A → ServiceResult A
builder_failed r = map_err transaction_builder r

unfoldable pub validate_number_inputs : (max_inputs num_inputs : ℕ) → ServiceResult (Unit {0})
validate_number_inputs max n =
    if ltb max n then err (transaction_builder invalid_argument) else ok tt

unfoldable pub validate_number_outputs : (max_outputs num_outputs : ℕ) → ServiceResult (Unit {0})
validate_number_outputs max n =
    if ltb (max - 1) n then err (transaction_builder invalid_argument) else ok tt

abbrev pub parse_optional : Option String → ServiceResult (Option ℕ)
parse_optional none = ok none
parse_optional (some s) = ok_or u64_parse (parse_u64 s) >>= λ n. ok (some n)

module _ (c : Crypto) (crates : TxCrates) (ledger : TxOutLedger) (network : Network)
    (limits : Limits) where
  -- The loop over the recipients, with the default token of the fee.
  unfoldable pub add_recipients :
      List (RowId × AmountJson)
      → (default_fee_token_id : ℕ) → WalletTransactionBuilder
      → ServiceResult (ℕ × WalletTransactionBuilder)
  add_recipients [] token b = ok (token, b)
  add_recipients ((address, amount) ∷ rest) token b = do
    recipient ← ok_or invalid_public_address (crates.b58_decode_public_address address)
    value ← ok_or invalid_amount (parse_u64 amount.value)
    token_id ← ok_or invalid_amount (parse_u64 amount.token_id)
    add_recipients rest token_id (add_recipient recipient value token_id b)

  -- `self.get_network_fees()?.get_fee_for_token(&fee_token_id)`
  abbrev pub network_fee : (token_id : ℕ) → ServiceResult ℕ
  network_fee token = do
    fees ← ok_or ledger_service network.fee_for_token
    ok_or default_fee_not_found_for_token (fees token)

  abbrev pub fee_of : Option ℕ → (token_id : ℕ) → ServiceResult ℕ
  fee_of none token = network_fee token
  fee_of (some f) token = ok f

  abbrev pub version_of : Option ℕ → ServiceResult ℕ
  version_of none = ok_or ledger_service network.block_version
  version_of (some v) = ok v

  -- The tombstone of a request; without one, `set_tombstone(0)`.
  abbrev pub tombstoned : ℕ → WalletTransactionBuilder → ServiceResult WalletTransactionBuilder
  tombstoned t b =
      if ltb 0 t
      then ok (set_tombstone t 0 b)
      else (ok_or (transaction_builder WalletTransactionBuilderError.ledger_db) ledger.num_blocks
          >>= λ n. ok (set_tombstone t n b))

  abbrev pub spend_from :
      Option RowId → Db → WalletTransactionBuilder → ServiceResult WalletTransactionBuilder
  spend_from none db b = ok b
  spend_from (some s) db b = map_err database (find_subaddress s db) >>= λ a.
      ok (set_spend_subaddress (as_u64 a.subaddress_index) b)

  -- The inputs: those that are named, or a selection from the spend subaddress.
  unfoldable pub choose_inputs :
      (input_txo_ids : Option (List RowId)) (spend_subaddress : Option RowId)
      (max_spendable_value : Option String)
      → Db
      → WalletTransactionBuilder
      → ServiceResult WalletTransactionBuilder
  unfolding set_txos find_subaddress set_spend_subaddress select_txos
  choose_inputs (some ids) s cap db b = ok (set_txos ids db b)
  choose_inputs none s cap db b = do
    from ← spend_from s db b
    max ← parse_optional cap
    builder_failed
        (map_err wallet_db (select_txos c limits.max_inputs limits.default_fee max db from))

  -- The closure of `build_transaction` up to `builder.build`. `Mob::ID` is the token of the default fee.
  unfoldable pub prepare : BuildRequest → Db → ServiceResult WalletTransactionBuilder
  unfolding find_account add_recipients set_tombstone set_fee set_block_version choose_inputs new
  prepare r db = do
    account ← map_err database (find_account r.account_id_hex db)
    if account.require_spend_subaddress && is_none r.spend_subaddress
        then err (transaction_builder null_subaddress)
        else ok tt
    recipients ← add_recipients r.addresses_and_amounts limits.default_fee.1 (new r.account_id_hex)
    tombstone ← parse_optional r.tombstone_block
    timed ← tombstoned (unwrap_or 0 tombstone) recipients.1
    token ← parse_optional r.fee_token_id
    given ← parse_optional r.fee_value
    fee ← fee_of given (unwrap_or recipients.0 token)
    paying ← builder_failed (set_fee fee (unwrap_or recipients.0 token) timed)
    version ← version_of r.block_version
    choose_inputs r.input_txo_ids r.spend_subaddress r.max_spendable_value db
        (set_block_version version paying)

  abbrev pub build_prepared :
      (draws : List ℕ)
      → BuildRequest
      → Db
      → ServiceResult WalletTransactionBuilder
      → Option (ServiceResult UnsignedTxProposal)
  build_prepared draws r db (err e) = some (err e)
  build_prepared draws r db (ok b) =
      elim (build c crates ledger draws limits.default_fee r.memo db b) [
        | none ↦ none
        | some u ↦ some (builder_failed u)
      ]

  -- The database transaction that the source runs this in reads only.
  unfoldable pub build_transaction :
      (draws : List ℕ) → BuildRequest → Db → Option (ServiceResult UnsignedTxProposal)
  unfolding prepare build validate_number_inputs validate_number_outputs
  build_transaction draws r db = build_prepared draws r db (do
    validate_number_inputs limits.max_inputs (length (unwrap_or [] r.input_txo_ids))
    validate_number_outputs limits.max_outputs (length r.addresses_and_amounts)
    prepare r db)
