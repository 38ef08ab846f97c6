-- ===== src/Builder/Conservation.antt =====
-- What `build` makes of the inputs and outlays of a builder.
use full_service.Prelude.{
  ℕ, ◌+◌, ◌≡◌, refl, sym, ap, ◌∙◌, false, Option, List, [], ◌∷◌, map, reverse, arith,
}
use full_service.Prelude.Tests.{◌==◌, if◌then◌else◌}
use full_service.Prelude.Int.{ℤ, as_u64}
use full_service.Prelude.Lists.{length, is_empty}
use full_service.Prelude.Result.{ok, ok_or, Gives, Gives-ok, Gives-err, Gives-if, Gives-bind}
use full_service.Db.Schema.{Bytes, Account, Txo}
use full_service.External.{Crypto, Amount, TxOut}
use full_service.Txos.Spendable.{value_of}
use full_service.Txos.Write.{OutputTxo}
use full_service.Logs.Proposal.{UnsignedInputTxo, UnsignedTxProposal}
use full_service.Builder.{
  WalletTransactionBuilder, Outlay, TokenMap, total_value_per_token, input_value_per_token,
  change_amounts, change_amount, build_change, fee_or_default, tx_builder,
  cannot_use_orphaned_txo_as_input, no_recipient, ring_size_mismatch,
}
use full_service.Builder.Totals.{outlay_sum, input_sum}
use full_service.Builder.Rings.{TxOutLedger, Ring, zip}
use full_service.Builder.Build.{
  TxCrates, Setup, tx_out_of, pop, change_recipient, add_input, add_inputs, add_outputs, add_change,
  assemble,
}

abbrev pub txo_amount : Txo → Amount
txo_amount t = record { value = value_of t; token_id = as_u64 t.token_id }

abbrev pub outlay_amount : Outlay → Amount
outlay_amount o = record { value = o.value; token_id = o.token_id }

module _ (c : Crypto) (crates : TxCrates) (ledger : TxOutLedger) where
  abbrev amounts_of : List OutputTxo → List Amount
  amounts_of outputs = map (λ o. o.amount) outputs

  abbrev input_amounts_of : List UnsignedInputTxo → List Amount
  input_amounts_of inputs = map (λ t. t.amount) inputs

  add_outputs_amounts :
      (os : List Outlay) (builder : Bytes)
      → Gives (λ r. amounts_of r.0 ≡ map outlay_amount os) (add_outputs c crates ledger os builder)
  unfolding add_outputs
  add_outputs_amounts [] builder = Gives-ok _ refl
  add_outputs_amounts (o ∷ os) builder =
      Gives-bind (ok_or tx_builder (crates.add_output (outlay_amount o) o.recipient builder)) _
        λ added _. Gives-bind (add_outputs c crates ledger os added.1) _ λ others h.
          Gives-ok _ (ap (λ l. outlay_amount o ∷ l) ((add_outputs_amounts os added.1).at others h))

  add_change_amounts :
      (account : Account) (reserved : Bytes) (i : Option ℕ) (totals m : TokenMap) (builder : Bytes)
      → Gives
          (λ r. change_amounts totals m ≡ ok (amounts_of r.0))
          (add_change c crates ledger account reserved i totals m builder)
  unfolding add_change change_amounts
  add_change_amounts account reserved i totals [] builder = Gives-ok _ refl
  add_change_amounts account reserved i totals (p ∷ m) builder =
      Gives-bind (change_amount totals p) _ λ amount e.
        Gives-bind (change_recipient c crates ledger account reserved i) _ λ recipient _.
          Gives-bind (ok_or tx_builder (crates.add_change_output amount recipient.1 builder)) _
            λ added _.
              Gives-bind (add_change c crates ledger account reserved i totals m added.1) _
                λ others h. Gives-ok _ (
                  rw e (
                    rw ((add_change_amounts account reserved i totals m added.1).at others h) refl))

  add_input_amount :
      (view : Bytes) (i : ℤ) (t : TxOut) (utxo : Txo) (proof : Bytes) (ring : Ring)
      (builder : Bytes)
      → Gives
          (λ r. r.0.amount ≡ txo_amount utxo)
          (add_input c crates ledger view i t utxo proof ring builder)
  unfolding add_input
  add_input_amount view i t utxo proof ring builder = record { at = λ r h. ground arith }

  add_inputs_amounts :
      (view : Bytes) (pairs : List (Txo × Bytes)) (rings : List Ring) (builder : Bytes)
      → Gives
          (λ r. input_amounts_of r.0 ≡ map (λ p. txo_amount p.0) pairs)
          (add_inputs c crates ledger view pairs rings builder)
  unfolding add_inputs
  add_inputs_amounts view [] rings builder = Gives-ok _ refl
  add_inputs_amounts view ((utxo, proof) ∷ pairs) rings builder =
      Gives-bind (ok_or (cannot_use_orphaned_txo_as_input utxo.id) utxo.subaddress_index) _ λ i _.
        Gives-bind (tx_out_of c crates ledger utxo) _ λ t _. Gives-bind (pop rings) _ λ popped _.
          Gives-bind (add_input c crates ledger view i t utxo proof popped.0 builder) _ λ added e.
            Gives-bind (add_inputs c crates ledger view pairs popped.1 added.1) _ λ others h.
              Gives-ok _ (
                ap (λ l. added.0.amount ∷ l)
                  ((add_inputs_amounts view pairs popped.1 added.1).at others h)
                ∙ ap (λ a. a ∷ map (λ p. txo_amount p.0) pairs)
                    ((add_input_amount view i t utxo proof popped.0 builder).at added e))

-- The sum of the amounts of one token.
abbrev pub amount_sum : ℕ → List Amount → ℕ
amount_sum k [] = 0
amount_sum k (a ∷ r) = (if a.token_id == k then a.value else 0) + amount_sum k r

pub outlay_sum-amount_sum :
    (k : ℕ) (os : List Outlay) → outlay_sum k os ≡ amount_sum k (map outlay_amount os)
outlay_sum-amount_sum k [] = refl
outlay_sum-amount_sum k (o ∷ os) = omega (arith, outlay_sum-amount_sum k os)

pub input_sum-amount_sum :
    (k : ℕ) (ts : List Txo) → input_sum k ts ≡ amount_sum k (map txo_amount ts)
input_sum-amount_sum k [] = refl
input_sum-amount_sum k (t ∷ ts) = omega (arith, input_sum-amount_sum k ts)

map-firsts :
    (pairs : List (Txo × Bytes))
    → map (λ p. txo_amount p.0) pairs ≡ map txo_amount (map (λ p. p.0) pairs)
map-firsts [] = refl
map-firsts (p ∷ pairs) = ap (λ l. txo_amount p.0 ∷ l) (map-firsts pairs)

pub firsts-zip :
    (ts : List Txo) (proofs : List Bytes)
    → length proofs ≡ length ts
    → map (λ p. p.0) (zip ts proofs) ≡ ts
firsts-zip [] proofs h = refl
firsts-zip (t ∷ ts) [] h = absurd (omega (arith, h))
firsts-zip (t ∷ ts) (p ∷ proofs) h = ap (λ l. t ∷ l) (firsts-zip ts proofs (omega arith))

-- What a proposal is, of the builder that it was built from.
pub record IsBuilt (default_fee : ℕ × ℕ) (b : WalletTransactionBuilder) (u : UnsignedTxProposal)
    : Type 0 where
  pub paid : is_empty b.outlays ≡ false
  pub inputs : map (λ t. t.amount) u.unsigned_input_txos ≡ map txo_amount b.inputs
  pub payload : map (λ o. o.amount) u.payload_txos ≡ map outlay_amount b.outlays
  pub change : build_change default_fee b ≡ ok (map (λ o. o.amount) u.change_txos)

module _ (c : Crypto) (crates : TxCrates) (ledger : TxOutLedger) (default : ℕ × ℕ)
    (b : WalletTransactionBuilder) where
  pub assemble-IsBuilt :
      (setup : Setup) (pairs : List (Txo × Bytes)) (rings : List Ring)
      → map (λ p. p.0) pairs ≡ b.inputs
      → Gives (IsBuilt default b) (assemble c crates ledger default b setup pairs rings)
  unfolding assemble build_change
  assemble-IsBuilt setup pairs rings of_inputs =
      let fee = fee_or_default default b in
      let totals = total_value_per_token ((fee.1, fee.0) ∷ []) b.outlays in
      Gives-if (length rings == length pairs) _ _
        (λ _.
          Gives-if (is_empty b.outlays) _ _ (λ _. Gives-err no_recipient)
            λ paid.
              Gives-bind
                (add_inputs c crates ledger setup.view_private pairs (reverse rings) setup.builder)
                _
                λ inputs ei.
                  Gives-bind (add_outputs c crates ledger b.outlays inputs.1) _ λ outputs eo.
                    Gives-bind
                      (add_change c crates ledger setup.account setup.reserved_subaddresses
                        b.subaddress_index_to_spend_from totals
                        (input_value_per_token [] (map (λ p. p.0) pairs)) outputs.1)
                      _
                      λ change ec.
                        Gives-bind (ok_or tx_builder (crates.build_unsigned change.1)) _ λ prefix _.
                          Gives-ok _ (record {
                            paid = paid;
                            inputs =
                                (add_inputs_amounts c crates ledger setup.view_private pairs
                                    (reverse rings) setup.builder).at
                                  inputs ei
                                ∙ map-firsts pairs
                                ∙ ap (λ ts. map txo_amount ts) of_inputs;
                            payload =
                                (add_outputs_amounts c crates ledger b.outlays inputs.1).at outputs
                                  eo;
                            change =
                                ap (λ ts. change_amounts totals (input_value_per_token [] ts))
                                  (sym of_inputs)
                                ∙ (add_change_amounts c crates ledger setup.account
                                      setup.reserved_subaddresses b.subaddress_index_to_spend_from
                                      totals (input_value_per_token [] (map (λ p. p.0) pairs))
                                      outputs.1).at
                                    change ec;
                          }))
        (λ _. Gives-err ring_size_mismatch)
