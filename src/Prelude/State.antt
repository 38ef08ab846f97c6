-- ===== src/Prelude/State.antt =====
-- Calls that read and write the database and may fail. What was written before an error stays
-- written: only a database transaction takes it back.
use mathlib.Core.List.{List, [], ◌∷◌}
use full_service.Prelude.Result.{Result, ok, err}

abbrev pub Action {ℓ} : Type ℓ → Type ℓ → Type ℓ → Type ℓ
Action S E A = S → Result E A × S

module _ {ℓ} {S E : Type ℓ} where
  abbrev pub pure : {A : Type ℓ} → A → Action S E A
  pure a s = (ok a, s)

  abbrev pub raise : {A : Type ℓ} → E → Action S E A
  raise e s = (err e, s)

  -- A query: it reads the state, and may fail.
  abbrev pub reads : {A : Type ℓ} → (S → Result E A) → Action S E A
  reads f s = (f s, s)

  abbrev pub lift : {A : Type ℓ} → Result E A → Action S E A
  lift r s = (r, s)

  abbrev pub continue : {A B : Type ℓ} → Result E A → (A → Action S E B) → Action S E B
  continue (ok a) f s = f a s
  continue (err e) f s = (err e, s)

  infixl 5 ◌>>=◌ ◌>>◌
  unfoldable pub ◌>>=◌ : {A B : Type ℓ} → Action S E A → (A → Action S E B) → Action S E B
  ◌>>=◌ m f s = continue (m s).0 f (m s).1

  abbrev pub ◌>>◌ : {A B : Type ℓ} → Action S E A → Action S E B → Action S E B
  m >> n = m >>= λ _. n

abbrev pub modify : {S E : Type 0} → (S → S) → Action S E Unit
modify f s = (ok tt, f s)

-- `for x in xs { body(x)?; }`
unfoldable pub for_each {ℓ} : {S E X : Type ℓ} → List X → (X → Action S E Unit) → Action S E Unit
for_each [] body s = (ok tt, s)
for_each (x ∷ xs) body s = continue (body x s).0 (λ _. for_each xs body) (body x s).1
