-- ===== src/Sync/Transaction.antt =====
-- `exclusive_transaction` of full-service/src/db/wallet_db.rs.
use full_service.Prelude.{ℕ, zero, suc, ◌≡◌, refl, sym, ap, ◌∙◌, inl, inr}
use full_service.Prelude.Tests.{Bool-cases}
use full_service.Prelude.Result.{Result, is_ok, ok, err}
use full_service.Prelude.State.{Action}
use full_service.Db.Tables.{Db}
use full_service.Sync.Defs.{rolled_back, attempts, exclusive_transaction}

module _ {E A : Type 0} (m : Action Db E A) (db : Db) where
  attempts_lem : (left : ℕ) → attempts left m db ≡ rolled_back m db
  unfolding attempts
  attempts_lem zero = refl
  attempts_lem (suc left) = elim (Bool-cases (is_ok (m db).0)) [
    | inl e ↦ rw e refl
    | inr e ↦ rw e (attempts_lem left)
  ]

  pub exclusive_transaction_lem : exclusive_transaction m db ≡ rolled_back m db
  unfolding exclusive_transaction
  exclusive_transaction_lem = attempts_lem 4

module _ {E A : Type 0} (m : Action Db E A) (db after : Db) (a : A) where
  rolled_back-ok : (m db).0 ≡ ok a → rolled_back m db ≡ (ok a, (m db).1)
  rolled_back-ok h = rw (rolled_back, h) refl

  -- A body that returns is a transaction that is committed.
  pub exclusive_transaction-ok : m db ≡ (ok a, after) → exclusive_transaction m db ≡ (ok a, after)
  exclusive_transaction-ok h =
      exclusive_transaction_lem m db
      ∙ rolled_back-ok (ap (λ r. r.0) h)
      ∙ ap (λ t. (ok a, t)) (ap (λ r. r.1) h)

module _ {E A : Type 0} (m : Action Db E A) (db after : Db) (e : E) where
  -- A transaction that fails is taken back.
  pub exclusive_transaction-err : exclusive_transaction m db ≡ (err e, after) → after ≡ db
  exclusive_transaction-err h = by_result (m db).0 refl
    where
      by_result : (r : Result E A) → (m db).0 ≡ r → after ≡ db
      by_result (ok a) k = absurd (
          let h' = rw (exclusive_transaction_lem m db, rolled_back, k) at h in
          cc (ap (λ r. r.0) h'))
      by_result (err x) k =
          let h' = rw (exclusive_transaction_lem m db, rolled_back, k) at h in
          sym (ap (λ r. r.1) h')
