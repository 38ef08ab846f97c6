-- ===== src/Builder.antt =====
-- full-service/src/service/transaction_builder.rs: the settings of a transaction and its values per
-- token. The default fee, `(Mob::MINIMUM_FEE, Mob::ID)`, and the number of blocks are parameters.
pub mod Totals
pub mod Change
pub mod Select
pub mod Rings
pub mod Sampling
pub mod RingLaws
pub mod Build
pub mod Conservation
pub mod Built
use full_service.Prelude.{ℕ, ◌+◌, ◌-◌, Option, none, some, List, [], ◌∷◌, ◌++◌}
use full_service.Prelude.Tests.{◌==◌, ltb, if◌then◌else◌, is_none, unwrap_or}
use full_service.Prelude.Int.{as_u64, u64_max}
use full_service.Prelude.Lists.{any, filter}
use full_service.Prelude.Result.{Result, ok, err, ok_or, map_err, ◌>>=◌}
use full_service.Db.Schema.{RowId, Bytes, Txo}
use full_service.Db.Error.{WalletDbError}
use full_service.Db.Tables.{Db}
use full_service.External.{Amount}
use full_service.Txos.Spendable.{value_of}

pub data WalletTransactionBuilderError : Type 0 where
  insufficient_fee insufficient_input_funds change_larger_than_max_value :
      WalletTransactionBuilderError
  missing_inputs_for_token_id : ℕ → WalletTransactionBuilderError
  tombstone_not_set no_inputs no_recipient ring_size_mismatch rings_and_proofs_empty :
      WalletTransactionBuilderError
  insufficient_tx_outs invalid_argument null_subaddress : WalletTransactionBuilderError
  cannot_use_orphaned_txo_as_input : RowId → WalletTransactionBuilderError
  wallet_db : WalletDbError → WalletTransactionBuilderError
  -- A panic of the source.
  panicked : WalletTransactionBuilderError
  ledger_db tx_builder fog_pubkey_resolver uri_parse : WalletTransactionBuilderError

abbrev pub BuilderResult : Type 0 → Type 0
BuilderResult A = Result WalletTransactionBuilderError A

pub record Outlay : Type 0 where
  pub recipient : Bytes
  pub value : ℕ
  pub token_id : ℕ

pub record WalletTransactionBuilder : Type 0 where
  pub account_id_hex : RowId
  pub inputs : List Txo
  pub outlays : List Outlay
  pub tombstone : ℕ
  pub fee : Option (ℕ × ℕ)
  pub block_version : Option ℕ
  pub subaddress_index_to_spend_from : Option ℕ

unfoldable pub new : (account_id_hex : RowId) → WalletTransactionBuilder
new a = record {
  account_id_hex = a;
  inputs = [];
  outlays = [];
  tombstone = 0;
  fee = none;
  block_version = none;
  subaddress_index_to_spend_from = none;
}

unfoldable pub set_spend_subaddress : ℕ → WalletTransactionBuilder → WalletTransactionBuilder
set_spend_subaddress i b = record b { subaddress_index_to_spend_from = some i }

-- `Txo::select_by_id`, and of these the unspent ones.
unfoldable pub select_by_id : List RowId → Db → List Txo
select_by_id ids db = filter (λ t. any (λ i. t.id == i) ids) db.txos

unfoldable pub set_txos :
    (input_txo_ids : List RowId) → Db → WalletTransactionBuilder → WalletTransactionBuilder
unfolding select_by_id
set_txos ids db b = record b {
  inputs = filter (λ t. is_none t.spent_block_index) (select_by_id ids db);
}

unfoldable pub add_recipient :
    (recipient : Bytes) (value token_id : ℕ) → WalletTransactionBuilder → WalletTransactionBuilder
add_recipient r v k b = record b {
  outlays = b.outlays ++ record { recipient = r; value = v; token_id = k } ∷ [];
}

unfoldable pub set_fee :
    (fee token_id : ℕ) → WalletTransactionBuilder → BuilderResult WalletTransactionBuilder
set_fee f k b = if ltb f 1 then err insufficient_fee else ok (record b { fee = some (f, k) })

unfoldable pub set_block_version : ℕ → WalletTransactionBuilder → WalletTransactionBuilder
set_block_version v b = record b { block_version = some v }

abbrev pub default_new_tx_block_attempts : ℕ
default_new_tx_block_attempts = 10

unfoldable pub set_tombstone :
    (tombstone num_blocks : ℕ) → WalletTransactionBuilder → WalletTransactionBuilder
set_tombstone t n b = record b {
  tombstone = if ltb 0 t then t else n + default_new_tx_block_attempts;
}

-- A `BTreeMap` of sums per token, in the order of the tokens.
abbrev pub TokenMap : Type 0
TokenMap = List (ℕ × ℕ)

-- `entry(k).and_modify(|w| *w += v).or_insert(v)`
abbrev pub add_to : (k v : ℕ) → TokenMap → TokenMap
add_to k v [] = (k, v) ∷ []
add_to k v ((j, w) ∷ m) =
    if k == j
    then (j, w + v) ∷ m
    else if ltb k j
    then (k, v) ∷ (j, w) ∷ m
    else (j, w) ∷ add_to k v m

abbrev pub value_at : ℕ → TokenMap → Option ℕ
value_at k [] = none
value_at k ((j, w) ∷ m) = if j == k then some w else value_at k m

-- The fold over the outlays, from the map that holds the fee.
unfoldable pub total_value_per_token : TokenMap → List Outlay → TokenMap
total_value_per_token m [] = m
total_value_per_token m (o ∷ os) = total_value_per_token (add_to o.token_id o.value m) os

-- The fold over the inputs.
unfoldable pub input_value_per_token : TokenMap → List Txo → TokenMap
input_value_per_token m [] = m
input_value_per_token m (t ∷ ts) =
    input_value_per_token (add_to (as_u64 t.token_id) (value_of t) m) ts

-- The change of one token.
unfoldable pub change_amount : (totals : TokenMap) → ℕ × ℕ → BuilderResult Amount
change_amount totals (k, input_value) =
    ok_or (missing_inputs_for_token_id k) (value_at k totals) >>= λ total.
    if ltb input_value total
    then err insufficient_input_funds
    else if ltb u64_max (input_value - total)
    then err change_larger_than_max_value
    else ok (record { value = input_value - total; token_id = k })

-- The loop over the tokens of the inputs.
unfoldable pub change_amounts : (totals : TokenMap) → TokenMap → BuilderResult (List Amount)
unfolding change_amount
change_amounts totals [] = ok []
change_amounts totals (p ∷ m) =
    change_amount totals p >>= λ c. change_amounts totals m >>= λ cs. ok (c ∷ cs)

-- `self.fee.unwrap_or((Mob::MINIMUM_FEE, Mob::ID))`
abbrev pub fee_or_default : ℕ × ℕ → WalletTransactionBuilder → ℕ × ℕ
fee_or_default default b = unwrap_or default b.fee

-- The amounts of the change outputs that `build` adds.
unfoldable pub build_change :
    (default_fee : ℕ × ℕ) → WalletTransactionBuilder → BuilderResult (List Amount)
unfolding total_value_per_token input_value_per_token change_amounts
build_change default b =
    let fee = fee_or_default default b in
    change_amounts (total_value_per_token ((fee.1, fee.0) ∷ []) b.outlays)
      (input_value_per_token [] b.inputs)
