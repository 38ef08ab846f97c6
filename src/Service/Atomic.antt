-- ===== src/Service/Atomic.antt =====
-- A call that fails and leaves the state as it was: rules, and the building and signing of a
-- transaction.
use full_service.Prelude.{ℕ, ◌≡◌, refl, sym, ap, ◌∙◌, Option, none, some, List}
use full_service.Prelude.Result.{Result, ok, err, map_err}
use full_service.Prelude.State.{Action, pure, lift, continue, ◌>>=◌}
use full_service.Db.Schema.{RowId}
use full_service.Db.Tables.{Db, DbAction, DbResult}
use full_service.External.{Crypto}
use full_service.Logs.Proposal.{UnsignedTxProposal}
use full_service.Logs.Defs.{log_signed}
use full_service.Builder.Rings.{TxOutLedger}
use full_service.Builder.Build.{TxCrates}
use full_service.Service.Sign.{TransactionServiceError, ServiceResult, Signers, database}
use full_service.Service.Transaction.{Network, Limits, BuildRequest, build_transaction}
use full_service.Service.Submit.{
  ServiceState, exclusive, sign_and_log, after_build, build_and_sign_transaction,
}
use full_service.Sync.Transaction.{exclusive_transaction_lem}

pub record IsAtomic {ℓ} {S E A : Type ℓ} (m : Action S E A) : Type ℓ where
  pub at : (s t : S) (e : E) → m s ≡ (err e, t) → t ≡ s

module _ {ℓ} {S E A : Type ℓ} where
  pub pure-IsAtomic : (a : A) → IsAtomic {E = E} (λ (s : S). pure a s)
  pure-IsAtomic a = record { at = λ s t e h. absurd (cc (ap (λ r. r.0) h)) }

module _ {ℓ} {S E A B : Type ℓ} where
  -- After a call that only reads.
  pub IsAtomic-after_read :
      (m : Action S E A) (f : A → Action S E B)
      → ((s : S) → (m s).1 ≡ s)
      → ((a : A) → IsAtomic (f a))
      → IsAtomic (m >>= f)
  unfolding ◌>>=◌
  IsAtomic-after_read m f same k = record {
    at = λ s t e h. by_result s t e (m s).0 (m s).1 (same s) h;
  }
    where
      by_result :
          (s t : S) (e : E) (r : Result E A) (u : S) → u ≡ s → continue r f u ≡ (err e, t) → t ≡ s
      by_result s t e (ok a) u q h = (k a).at u t e h ∙ q
      by_result s t e (err x) u q h = sym (ap (λ p. p.1) h) ∙ q

  -- Before a result that cannot fail.
  pub IsAtomic-before_pure : (m : Action S E A) (b : B) → IsAtomic m → IsAtomic (m >>= λ _. pure b)
  unfolding ◌>>=◌
  IsAtomic-before_pure m b k = record { at = λ s t e h. by_result s t e (m s).0 (m s).1 refl h }
    where
      by_result :
          (s t : S) (e : E) (r : Result E A) (u : S)
          → m s ≡ (r, u)
          → continue r (λ _. pure b) u ≡ (err e, t)
          → t ≡ s
      by_result s t e (ok a) u q h = absurd (cc (ap (λ p. p.0) h))
      by_result s t e (err x) u q h = sym (ap (λ p. p.1) h) ∙ k.at s u x q

-- A database transaction takes back what it wrote before an error.
exclusive-IsAtomic : {A : Type 0} (m : DbAction A) → IsAtomic (exclusive m)
exclusive-IsAtomic {A} m = record {
  at = λ s t e h. by_body s t e (m s.db).0 (m s.db).1 (
      sym (
        ap (λ (r : DbResult A × Db). (map_err database r.0, record s { db = r.1 }))
          (exclusive_transaction_lem m s.db))
      ∙ h);
}
  where
    by_body :
        (s t : ServiceState) (e : TransactionServiceError) (r : DbResult A) (after : Db)
        → (let ended : DbResult A × Db = elim r [ ok a ↦ (ok a, after) | err x ↦ (err x, s.db) ] in
            let answer : ServiceResult A × ServiceState =
              (map_err database ended.0, record s { db = ended.1 }) in
            answer)
          ≡ (err e, t)
        → t ≡ s
    by_body s t e (ok a) after h = absurd (cc (ap (λ p. p.0) h))
    by_body s t e (err x) after h = sym (ap (λ p. p.1) h)

module _ (c : Crypto) (network : Network) (signers : Signers) (crates : TxCrates)
    (ledger : TxOutLedger) (limits : Limits) where
  sign_and_log-IsAtomic :
      (a : RowId) (u : UnsignedTxProposal)
      → IsAtomic (sign_and_log c network signers crates ledger limits a u)
  sign_and_log-IsAtomic a u =
      IsAtomic-after_read _ _ (λ s. refl)
        λ account.
          IsAtomic-after_read _ _ (λ s. refl)
            λ p. IsAtomic-before_pure _ p (exclusive-IsAtomic (log_signed c p "" a))

  -- A call of `build_and_sign_transaction` that fails, in building, signing or logging, leaves the
  -- database, the choice of the next peer and what was proposed to the network as they were.
  pub build_and_sign_transaction-IsAtomic :
      (draws : List ℕ) (r : BuildRequest) (s t : ServiceState) (e : TransactionServiceError)
      → build_and_sign_transaction c network signers crates ledger limits draws r s
        ≡ some (err e, t)
      → t ≡ s
  unfolding build_and_sign_transaction
  build_and_sign_transaction-IsAtomic draws r s t e h =
      by_build (build_transaction c crates ledger network limits draws r s.db) h
    where
      by_build :
          (o : Option (ServiceResult UnsignedTxProposal))
          → after_build c network signers crates ledger limits r o s ≡ some (err e, t)
          → t ≡ s
      by_build none k = cc
      by_build (some u) k =
          (IsAtomic-after_read (lift u) _ (λ v. refl) (sign_and_log-IsAtomic r.account_id_hex)).at s
            t e (cc k)
