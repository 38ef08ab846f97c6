-- ===== src/Builder/Built.antt =====
-- The proposal that `build` returns: it balances, and it spends the inputs of the builder.
use full_service.Prelude.{
  ℕ, ◌+◌, ◌≢◌, ◌≡◌, refl, ap, ◌∙◌, false, Option, none, some, List, [], ◌∷◌, map, arith,
}
use full_service.Prelude.Tests.{◌==◌, if◌then◌else◌}
use full_service.Prelude.Lists.{length, is_empty, All}
use full_service.Prelude.Order.{All-mono}
use full_service.Prelude.Result.{
  ok, err, ok_or, Gives, Gives-ok, Gives-err, Gives-if, Gives-bind, ◌>>=◌,
}
use full_service.Db.Schema.{Bytes, Txo}
use full_service.Db.Tables.{Db}
use full_service.External.{Crypto, Amount}
use full_service.Txos.Write.{OutputTxo}
use full_service.Logs.Proposal.{UnsignedTxProposal}
use full_service.Builder.{
  WalletTransactionBuilder, BuilderResult, fee_or_default, ledger_db, tombstone_not_set, no_inputs,
}
use full_service.Builder.Totals.{outlay_sum, input_sum}
use full_service.Builder.Change.{fee_in, build_change_conserves}
use full_service.Builder.Rings.{TxOutLedger, Ring, zip}
use full_service.Builder.Build.{
  TxCrates, Setup, index_of, indices_of, inputs_and_proofs, assemble, set_up, with_rings,
  build_from, build,
}
use full_service.Builder.Conservation.{
  txo_amount, outlay_amount, amount_sum, IsBuilt, assemble-IsBuilt, firsts-zip,
  outlay_sum-amount_sum, input_sum-amount_sum,
}

-- What `build` has checked, and what it has made.
pub record Passed (default_fee : ℕ × ℕ) (b : WalletTransactionBuilder) (u : UnsignedTxProposal)
    : Type 0 where
  pub tombstone : (b.tombstone == 0) ≡ false
  pub has_inputs : is_empty b.inputs ≡ false
  pub built : IsBuilt default_fee b u

All-amounts {κ} :
    (P : Amount → Type κ) (os : List OutputTxo)
    → All P (map (λ o. o.amount) os)
    → All (λ o. P o.amount) os
All-amounts P [] h = tt
All-amounts P (o ∷ os) h = (h.0, All-amounts P os h.1)

module _ (c : Crypto) (crates : TxCrates) (ledger : TxOutLedger) where
  indices_of-length :
      (ts : List Txo) → Gives (λ is. length is ≡ length ts) (indices_of c crates ledger ts)
  unfolding indices_of
  indices_of-length [] = Gives-ok _ refl
  indices_of-length (t ∷ ts) = Gives-bind (index_of c crates ledger t) _ λ i _.
      Gives-bind (indices_of c crates ledger ts) _
        λ is h. Gives-ok _ (let n = (indices_of-length ts).at is h in omega arith)

  module _
      (a_proof_each : (is : List ℕ) (proofs : List Bytes)
        → ledger.get_tx_out_proof_of_memberships is ≡ some proofs
        → length proofs ≡ length is)
      (default : ℕ × ℕ) (b : WalletTransactionBuilder) where
    inputs_and_proofs-firsts :
        Gives (λ r. map (λ p. p.0) r.0 ≡ b.inputs) (inputs_and_proofs c crates ledger b)
    unfolding inputs_and_proofs
    inputs_and_proofs-firsts = Gives-bind (indices_of c crates ledger b.inputs) _ λ is ei.
        Gives-bind (ok_or ledger_db (ledger.get_tx_out_proof_of_memberships is)) _ λ proofs ep.
          Gives-bind (indices_of c crates ledger (map (λ p. p.0) (zip b.inputs proofs))) _
            λ excluded _. Gives-ok _ (
              let found : ledger.get_tx_out_proof_of_memberships is ≡ some proofs = ground arith in
              firsts-zip b.inputs proofs
                (a_proof_each is proofs found ∙ (indices_of-length b.inputs).at is ei))

    abbrev checked :
        (memo : Bytes → Bytes) → Db → BuilderResult (Setup × List (Txo × Bytes) × List ℕ)
    checked memo db = set_up c crates ledger default memo db b >>= λ setup.
        if b.tombstone == 0
        then err tombstone_not_set
        else if is_empty b.inputs
        then err no_inputs
        else (inputs_and_proofs c crates ledger b >>= λ p. ok (setup, p.0, p.1))

    -- What the first part of `build` has passed.
    record Checked (r : Setup × List (Txo × Bytes) × List ℕ) : Type 0 where
      pub tombstone : (b.tombstone == 0) ≡ false
      pub has_inputs : is_empty b.inputs ≡ false
      pub firsts : map (λ p. p.0) r.1 ≡ b.inputs

    checked_lem : (memo : Bytes → Bytes) (db : Db) → Gives Checked (checked memo db)
    checked_lem memo db = Gives-bind (set_up c crates ledger default memo db b) _ λ setup _.
        Gives-if (b.tombstone == 0) _ _ (λ _. Gives-err tombstone_not_set)
          λ tombstone.
            Gives-if (is_empty b.inputs) _ _ (λ _. Gives-err no_inputs)
              λ has_inputs. Gives-bind (inputs_and_proofs c crates ledger b) _ λ p h.
                Gives-ok _ (record {
                  tombstone = tombstone;
                  has_inputs = has_inputs;
                  firsts = inputs_and_proofs-firsts.at p h;
                })

    build_lem :
        (draws : List ℕ) (memo : Bytes → Bytes) (db : Db) (u : UnsignedTxProposal)
        → build c crates ledger draws default memo db b ≡ some (ok u)
        → Passed default b u
    unfolding build
    build_lem draws memo db u h = by_check (checked memo db) refl h
      where
        by_rings :
            (setup : Setup) (pairs : List (Txo × Bytes)) (o : Option (BuilderResult (List Ring)))
            → map (λ p. p.0) pairs ≡ b.inputs
            → with_rings c crates ledger (assemble c crates ledger default b setup pairs) o
              ≡ some (ok u)
            → IsBuilt default b u
        by_rings setup pairs none firsts e = cc
        by_rings setup pairs (some (err x)) firsts e = cc
        by_rings setup pairs (some (ok rings)) firsts e =
            (assemble-IsBuilt c crates ledger default b setup pairs rings firsts).at u (cc e)

        by_check :
            (r : BuilderResult (Setup × List (Txo × Bytes) × List ℕ))
            → checked memo db ≡ r
            → build_from c crates ledger draws default b r ≡ some (ok u)
            → Passed default b u
        by_check (err x) p e = cc
        by_check (ok (setup, pairs, excluded)) p e =
            let k = (checked_lem memo db).at (setup, pairs, excluded) p in
            record {
              tombstone = k.tombstone;
              has_inputs = k.has_inputs;
              built = by_rings setup pairs _ k.firsts e;
            }

    -- With a ledger that gives one proof of membership for each index: a proposal that `build` returns
    -- was built from a set tombstone block, at least one input and at least one outlay; its inputs
    -- have the values and tokens of the builder's inputs, its payload outputs those of the outlays; and
    -- of the token of each change output, the inputs of the proposal are worth its payload, the fee
    -- and that change together. This holds for every sequence of random draws.
    pub build-balanced :
        (draws : List ℕ) (memo : Bytes → Bytes) (db : Db) (u : UnsignedTxProposal)
        → build c crates ledger draws default memo db b ≡ some (ok u)
        → (b.tombstone ≢ 0)
          × (is_empty b.inputs ≡ false)
          × (is_empty b.outlays ≡ false)
          × (map (λ t. t.amount) u.unsigned_input_txos ≡ map txo_amount b.inputs)
          × (map (λ o. o.amount) u.payload_txos ≡ map outlay_amount b.outlays)
          × All
              (λ o.
                amount_sum o.amount.token_id (map (λ t. t.amount) u.unsigned_input_txos)
                ≡ amount_sum o.amount.token_id (map (λ p. p.amount) u.payload_txos)
                  + fee_in o.amount.token_id (fee_or_default default b)
                  + o.amount.value)
              u.change_txos
    build-balanced draws memo db u h =
        let passed = build_lem draws memo db u h in
        let sums = (build_change_conserves default b _ passed.built.change).0 in
        (
          (λ e. cc (passed.tombstone, ap (λ n. n == 0) e)),
          passed.has_inputs,
          passed.built.paid,
          passed.built.inputs,
          passed.built.payload,
          All-amounts _ u.change_txos (All-mono (λ a e. balanced a e) _ sums),
        )
      where
        balanced :
            (a : Amount)
            → input_sum a.token_id b.inputs
              ≡ outlay_sum a.token_id b.outlays
                + fee_in a.token_id (fee_or_default default b)
                + a.value
            → amount_sum a.token_id (map (λ t. t.amount) u.unsigned_input_txos)
              ≡ amount_sum a.token_id (map (λ p. p.amount) u.payload_txos)
                + fee_in a.token_id (fee_or_default default b)
                + a.value
        balanced a e =
            let passed = build_lem draws memo db u h in
            omega (
              arith,
              e,
              input_sum-amount_sum a.token_id b.inputs,
              outlay_sum-amount_sum a.token_id b.outlays,
              ap (amount_sum a.token_id) passed.built.inputs,
              ap (amount_sum a.token_id) passed.built.payload,
            )
