-- ===== src/Service/Guards.antt =====
-- What `build_transaction` checks before it builds, and what it hands to the builder.
use full_service.Prelude.{
  ℕ, ◌-◌, ◌≤◌, ◌≡◌, refl, sym, ap, ◌∙◌, Bool, true, false, Option, none, some, List, [], ◌∷◌, ◌++◌,
  arith,
}
use mathlib.Core.List.{append_assoc, append-nil}
use full_service.Prelude.Tests.{ltb, if◌then◌else◌, unwrap_or}
use full_service.Prelude.Lists.{length, is_empty, All}
use full_service.Prelude.Result.{ok, err, ok_or, ◌>>=◌}
use full_service.Db.Schema.{RowId, Account}
use full_service.Db.Tables.{Db}
use full_service.Db.Query.{find_account}
use full_service.External.{Crypto}
use full_service.Builder.{WalletTransactionBuilder, Outlay, null_subaddress, add_recipient}
use full_service.Builder.Rings.{TxOutLedger}
use full_service.Builder.Build.{TxCrates}
use full_service.Service.Parse.{parse_u64}
use full_service.Service.Sign.{
  ServiceResult, transaction_builder, invalid_public_address, invalid_amount,
}
use full_service.Service.Transaction.{
  Network, Limits, AmountJson, BuildRequest, add_recipients, prepare, build_transaction,
  validate_number_inputs, validate_number_outputs,
}

module _ (c : Crypto) (crates : TxCrates) (ledger : TxOutLedger) (network : Network)
    (limits : Limits) where
  -- For an account that requires a spend subaddress, a request without one, whose numbers of inputs and
  -- recipients are within the limits, fails with `NullSubaddress`, also where the request names its
  -- inputs.
  pub build_transaction-null_subaddress :
      (draws : List ℕ) (r : BuildRequest) (db : Db) (account : Account)
      → length (unwrap_or [] r.input_txo_ids) ≤ limits.max_inputs
      → length r.addresses_and_amounts ≤ limits.max_outputs - 1
      → find_account r.account_id_hex db ≡ ok account
      → account.require_spend_subaddress ≡ true
      → r.spend_subaddress ≡ none
      → build_transaction c crates ledger network limits draws r db
        ≡ some (err (transaction_builder null_subaddress))
  unfolding build_transaction validate_number_inputs validate_number_outputs prepare
  build_transaction-null_subaddress draws r db account hi ho found required missing =
      let inputs : ltb limits.max_inputs (length (unwrap_or [] r.input_txo_ids)) ≡ false =
        ground arith in
      let outputs : ltb (limits.max_outputs - 1) (length r.addresses_and_amounts) ≡ false =
        ground arith in
      rw inputs (rw outputs (rw found (rw required (rw missing refl))))

  -- The recipients of a request, decoded and parsed.
  abbrev pub outlays_of : List (RowId × AmountJson) → ServiceResult (List Outlay)
  outlays_of [] = ok []
  outlays_of ((address, amount) ∷ rest) =
      ok_or invalid_public_address (crates.b58_decode_public_address address) >>= λ recipient.
      ok_or invalid_amount (parse_u64 amount.value) >>= λ value.
      ok_or invalid_amount (parse_u64 amount.token_id) >>= λ token. outlays_of rest >>= λ os.
      ok (record { recipient = recipient; value = value; token_id = token } ∷ os)

  abbrev with_outlays :
      (fee_token : ℕ)
      → WalletTransactionBuilder
      → List Outlay
      → ServiceResult (ℕ × WalletTransactionBuilder)
  with_outlays k b os = ok (k, record b { outlays = b.outlays ++ os })

  with_more :
      (k : ℕ) (b : WalletTransactionBuilder) (o : Outlay) (r : ServiceResult (List Outlay))
      → (r >>= λ os. with_outlays k (record b { outlays = b.outlays ++ o ∷ [] }) os)
        ≡ ((r >>= λ os. ok (o ∷ os)) >>= λ os. with_outlays k b os)
  with_more k b o (err e) = refl
  with_more k b o (ok os) =
      ap (λ (us : List Outlay). ok (k, record b { outlays = us }))
        (append_assoc b.outlays (o ∷ []) os)

  -- For a request whose amounts all have the token `k`: the loop over its recipients fails with the first
  -- address or amount that does not decode, and otherwise adds the decoded recipients behind the
  -- outlays of the builder, in the order of the request. The default token of the fee is then `k`, the
  -- token of the first output, and for a request without recipients it stays what it was.
  pub add_recipients_lem :
      (l : List (RowId × AmountJson)) (token k : ℕ) (b : WalletTransactionBuilder)
      → All (λ p. parse_u64 p.1.token_id ≡ some k) l
      → add_recipients c crates ledger network limits l token b ≡ (
          outlays_of l >>= λ os.
          ok (if is_empty l then token else k, record b { outlays = b.outlays ++ os }))
  unfolding add_recipients add_recipient
  add_recipients_lem [] token k b h =
      ap (λ (os : List Outlay). ok (token, record b { outlays = os })) (sym (append-nil b.outlays))
  add_recipients_lem ((address, amount) ∷ rest) token k b h =
      by_address (crates.b58_decode_public_address address) (parse_u64 amount.value)
        (λ d v. add_recipients_lem rest k k (add_recipient d v k b) h.1)
    where
      same_token : (x : Bool) → (if x then k else k) ≡ k
      same_token true = refl
      same_token false = refl

      by_address :
          (d v : Option ℕ)
          → ((x y : ℕ)
              → add_recipients c crates ledger network limits rest k (add_recipient x y k b) ≡ (
                  outlays_of rest >>= λ os.
                  with_outlays (if is_empty rest then k else k) (add_recipient x y k b) os))
          → (ok_or invalid_public_address d >>= λ recipient. ok_or invalid_amount v >>= λ value.
              ok_or invalid_amount (parse_u64 amount.token_id) >>= λ t.
              add_recipients c crates ledger network limits rest t
                (add_recipient recipient value t b))
            ≡ ((ok_or invalid_public_address d >>= λ recipient. ok_or invalid_amount v >>= λ value.
                  ok_or invalid_amount (parse_u64 amount.token_id) >>= λ t.
                  outlays_of rest >>= λ os.
                  ok (record { recipient = recipient; value = value; token_id = t } ∷ os))
                >>= λ os. with_outlays k b os)
      by_address none v more = refl
      by_address (some d) none more = refl
      by_address (some d) (some v) more = rw h.0 (
          more d v
          ∙ ap (λ x. outlays_of rest >>= λ os. with_outlays x (add_recipient d v k b) os)
              (same_token (is_empty rest))
          ∙ with_more k b (record { recipient = d; value = v; token_id = k }) (outlays_of rest))
