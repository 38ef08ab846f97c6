-- ===== src/Builder/Select.antt =====
-- `select_txos` of full-service/src/service/transaction_builder.rs. Its loop replaces the inputs in each
-- round, so it leaves those of the last token.
use full_service.Prelude.{ℕ, ◌≡◌, ap, Option, none, some, List, [], ◌∷◌, arith}
use full_service.Prelude.Tests.{◌==◌, if◌then◌else◌}
use full_service.Prelude.Result.{ok, err, ok_or, bind-eq-ok, ok-injective, ◌>>=◌}
use full_service.Db.Schema.{RowId, Bytes, Account, Txo}
use full_service.Db.Error.{
  prost_decode, b58_encode, account_key_not_available_for_view_only_account,
}
use full_service.Db.Tables.{Db, DbResult}
use full_service.Db.Query.{find_account}
use full_service.External.{Crypto}
use full_service.Txos.Spendable.{select_spendable_txos_for_value}
use full_service.Builder.{
  WalletTransactionBuilder, TokenMap, add_to, total_value_per_token, fee_or_default,
}

-- `Account::account_key` and `Account::public_address` of full-service/src/db/account.rs.
unfoldable pub account_key : Crypto → Account → DbResult Bytes
account_key c a =
    if a.view_only
    then err account_key_not_available_for_view_only_account
    else ok_or prost_decode (c.decode_account_key a.account_key)

unfoldable pub public_address : Crypto → Account → ℕ → DbResult Bytes
unfolding account_key
public_address c a i = account_key c a >>= λ k. ok (c.subaddress k i)

module _ (c : Crypto) (max_inputs : ℕ) (default_fee : ℕ × ℕ) where
  unfoldable pub spend_subaddress : WalletTransactionBuilder → Db → DbResult (Option RowId)
  unfolding public_address find_account
  spend_subaddress b db = elim b.subaddress_index_to_spend_from [
    | none ↦ ok none
    | some i ↦
        (find_account b.account_id_hex db >>= λ a. public_address c a i >>= λ p.
        ok_or b58_encode (c.b58_encode_public_address p) >>= λ s. ok (some s))
  ]

  -- `outlay_value_sum_map`, with the fee.
  abbrev pub outlay_value_sum_map : WalletTransactionBuilder → TokenMap
  outlay_value_sum_map b =
      let fee = fee_or_default default_fee b in
      add_to fee.1 fee.0 (total_value_per_token [] b.outlays)

  -- What is selected for one token.
  unfoldable pub select_for_token :
      (max_spendable_value : Option ℕ) → WalletTransactionBuilder → Db → ℕ × ℕ → DbResult (List Txo)
  unfolding spend_subaddress select_spendable_txos_for_value
  select_for_token cap b db (k, target) =
      let fee = fee_or_default default_fee b in
      spend_subaddress b db >>= λ s.
      select_spendable_txos_for_value max_inputs b.account_id_hex target cap s k
        (if k == fee.1 then fee.0 else 0) db

  -- The loop, with the inputs so far.
  unfoldable pub select_inputs :
      (max_spendable_value : Option ℕ)
      → WalletTransactionBuilder
      → Db
      → TokenMap
      → List Txo
      → DbResult (List Txo)
  unfolding select_for_token
  select_inputs cap b db [] inputs = ok inputs
  select_inputs cap b db (p ∷ m) inputs =
      select_for_token cap b db p >>= λ selected. select_inputs cap b db m selected

  unfoldable pub select_txos :
      (max_spendable_value : Option ℕ)
      → Db
      → WalletTransactionBuilder
      → DbResult WalletTransactionBuilder
  unfolding select_inputs
  select_txos cap db b = select_inputs cap b db (outlay_value_sum_map b) b.inputs >>= λ inputs.
      ok (record b { inputs = inputs })

  abbrev pub last_of : ℕ × ℕ → TokenMap → ℕ × ℕ
  last_of p [] = p
  last_of p (q ∷ m) = last_of q m

  select_inputs-last :
      (cap : Option ℕ) (b : WalletTransactionBuilder) (db : Db) (p : ℕ × ℕ) (m : TokenMap)
      (inputs selected : List Txo)
      → select_inputs cap b db (p ∷ m) inputs ≡ ok selected
      → select_for_token cap b db (last_of p m) ≡ ok selected
  unfolding select_inputs
  select_inputs-last cap b db p [] inputs selected h =
      let (us, e, f) = bind-eq-ok (select_for_token cap b db p) _ h in
      let same : us ≡ selected = ground arith in rw (← same) e
  select_inputs-last cap b db p (q ∷ m) inputs selected h =
      let (us, e, f) = bind-eq-ok (select_for_token cap b db p) _ h in
      select_inputs-last cap b db q m us selected f

  -- With the sums of the outlays and the fee per token in the order of the tokens, the inputs that
  -- `select_txos` leaves are those that it selects for the last token alone.
  pub select_txos-last :
      (cap : Option ℕ) (db : Db) (b after : WalletTransactionBuilder) (p : ℕ × ℕ) (m : TokenMap)
      → outlay_value_sum_map b ≡ p ∷ m
      → select_txos cap db b ≡ ok after
      → select_for_token cap b db (last_of p m) ≡ ok after.inputs
  unfolding select_txos
  select_txos-last cap db b after p m e h =
      let (inputs, f, g) =
        bind-eq-ok (select_inputs cap b db (outlay_value_sum_map b) b.inputs) _ h in
      let same : inputs ≡ after.inputs = ap (λ a. a.inputs) (ok-injective g) in
      rw (← same) (select_inputs-last cap b db p m b.inputs inputs (rw e at f))
