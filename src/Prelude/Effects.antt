-- ===== src/Prelude/Effects.antt =====
-- The exact effect of a call that returns: the state after it, as a function of the state before it.
use mathlib.Core.Path.{◌≡◌, refl, sym, ap, subst, ◌∙◌}
use mathlib.Core.Bool.{Bool, true, false}
use full_service.Prelude.Tests.{if◌then◌else◌}
use mathlib.Core.List.{List, [], ◌∷◌}
use mathlib.Core.Option.{Option, none, some}
use full_service.Prelude.Result.{Result, ok, err, is_ok, ok_or}
use full_service.Prelude.State.{Action, pure, raise, reads, lift, for_each, continue, ◌>>=◌}

pub record Effect {ℓ} {S E A : Type ℓ} (g : S → S) (m : Action S E A) : Type ℓ where
  pub at : (s : S) → is_ok (m s).0 ≡ true → (m s).1 ≡ g s

module _ {ℓ} {S E A : Type ℓ} where
  pub Effect-pure : (a : A) → Effect {E = E} (λ (s : S). s) (pure a)
  Effect-pure a = record { at = λ s h. refl }

  pub Effect-reads : (f : S → Result E A) → Effect (λ s. s) (reads f)
  Effect-reads f = record { at = λ s h. refl }

  pub Effect-lift : (r : Result E A) → Effect (λ (s : S). s) (lift r)
  Effect-lift r = record { at = λ s h. refl }

module _ {ℓ} {S E A B : Type ℓ} {h : S → S} where
  continue-Effect :
      (r : Result E A) (f : A → Action S E B) (s : S)
      → ((a : A) → Effect h (f a))
      → is_ok (continue r f s).0 ≡ true
      → ((continue r f s).1 ≡ h s) × (is_ok r ≡ true)
  continue-Effect (ok a) f s ef e = ((ef a).at s e, refl)
  continue-Effect (err x) f s ef e = cc

  -- One call after another.
  pub Effect-bind :
      {g : S → S} (m : Action S E A) (f : A → Action S E B)
      → Effect g m
      → ((a : A) → Effect h (f a))
      → Effect (λ s. h (g s)) (m >>= f)
  unfolding ◌>>=◌
  Effect-bind {g} m f em ef = record {
    at = λ s e. let (p, q) = continue-Effect (m s).0 f (m s).1 ef e in p ∙ ap h (em.at s q);
  }

module _ {ℓ} {S E A B : Type ℓ} where
  -- A call that goes on with an optional value, and fails without one.
  pub Effect-ok_or :
      (o : Option A) (x : E) (f : A → Action S E B) (g : S → S)
      → ((a : A) → o ≡ some a → Effect g (f a))
      → Effect g (lift (ok_or x o) >>= f)
  unfolding ◌>>=◌
  Effect-ok_or none x f g k = record { at = λ s h. cc }
  Effect-ok_or (some a) x f g k = record { at = λ s h. (k a refl).at s h }

module _ {ℓ} {S X : Type ℓ} where
  -- A loop whose rounds have effects that depend on the element.
  abbrev pub folded : (X → S → S) → List X → S → S
  folded g [] s = s
  folded g (x ∷ xs) s = folded g xs (g x s)

module _ {ℓ} {S E X : Type ℓ} where
  for_each-Effect :
      (g : X → S → S) (body : X → Action S E Unit)
      → ((x : X) → Effect (g x) (body x))
      → (xs : List X) (s : S) → is_ok (for_each xs body s).0 ≡ true
      → (for_each xs body s).1 ≡ folded g xs s
  unfolding for_each
  for_each-Effect g body k [] s h = refl
  for_each-Effect g body k (x ∷ xs) s h =
      let (p, q) =
        continue-Effect {h = folded g xs} (body x s).0 (λ _. for_each xs body) (body x s).1
          (λ _. record { at = for_each-Effect g body k xs }) h in
      p ∙ ap (folded g xs) ((k x).at s q)

  pub Effect-for_each :
      (g : X → S → S) (body : X → Action S E Unit)
      → ((x : X) → Effect (g x) (body x))
      → (xs : List X) → Effect (folded g xs) (for_each xs body)
  Effect-for_each g body k xs = record { at = for_each-Effect g body k xs }

-- A call that returns what a query finds in the state that it leaves.
pub record Answers {ℓ} {S E A : Type ℓ} (query : S → Result E A) (m : Action S E A) : Type ℓ where
  pub at : (s t : S) (a : A) → m s ≡ (ok a, t) → query t ≡ ok a

module _ {ℓ} {S E B : Type ℓ} (query : S → Result E B) where
  pub Answers-reads : Answers query (reads query)
  Answers-reads = record { at = λ s t a h. ap query (sym (ap (λ p. p.1) h)) ∙ ap (λ p. p.0) h }

module _ {ℓ} {S E A B : Type ℓ} (query : S → Result E B) where
  continue-Answers :
      (r : Result E A) (f : A → Action S E B) (s t : S) (b : B)
      → ((a : A) → Answers query (f a))
      → continue r f s ≡ (ok b, t)
      → query t ≡ ok b
  continue-Answers (ok a) f s t b k h = (k a).at s t b h
  continue-Answers (err x) f s t b k h = absurd (cc (ap (λ p. p.0) h))

  pub Answers-bind :
      (m : Action S E A) (f : A → Action S E B)
      → ((a : A) → Answers query (f a))
      → Answers query (m >>= f)
  unfolding ◌>>=◌
  Answers-bind m f k = record { at = λ s t b h. continue-Answers (m s).0 f (m s).1 t b k h }

-- What holds of the result and the state of a call that returns from the state `s`.
pub record Yields {ℓ} {S E A : Type ℓ} (Q : A → S → Type ℓ) (m : Action S E A) (s : S)
    : Type ℓ where
  pub at : (a : A) (t : S) → m s ≡ (ok a, t) → Q a t

module _ {ℓ} {S E A : Type ℓ} {Q : A → S → Type ℓ} {s : S} where
  pub Yields-pure : (a : A) → Q a s → Yields {E = E} Q (pure a) s
  Yields-pure a q = record { at = λ b t h. subst (λ p. Q p.0 p.1) (same b t h) q }
    where
      same :
          (b : A) (t : S)
          → ◌≡◌ {A = Result E A × S} (ok a, s) (ok b, t)
          → ◌≡◌ {A = A × S} (a, s) (b, t)
      same b t h = cc h

  pub Yields-raise : (e : E) → Yields Q (raise e) s
  Yields-raise e = record { at = λ a t h. absurd (cc (ap (λ p. p.0) h)) }

  pub Yields-if :
      (b : Bool) (m n : Action S E A)
      → Yields Q m s
      → Yields Q n s
      → Yields Q (if b then m else n) s
  Yields-if true m n km kn = km
  Yields-if false m n km kn = kn

module _ {ℓ} {S E A B : Type ℓ} {Q : B → S → Type ℓ} {s : S} where
  pub Yields-bind :
      (m : Action S E A) (f : A → Action S E B)
      → ((a : A) (u : S) → m s ≡ (ok a, u) → Yields Q (f a) u)
      → Yields Q (m >>= f) s
  unfolding ◌>>=◌
  Yields-bind m f k = record { at = λ b t h. by_result b t (m s).0 (m s).1 refl h }
    where
      by_result :
          (b : B) (t : S) (r : Result E A) (u : S)
          → m s ≡ (r, u)
          → continue r f u ≡ (ok b, t)
          → Q b t
      by_result b t (ok a) u p e = (k a u p).at b t e
      by_result b t (err x) u p e = absurd (cc (ap (λ q. q.0) e))

  pub Yields-reads :
      (query : S → Result E A) (f : A → Action S E B)
      → ((a : A) → query s ≡ ok a → Yields Q (f a) s)
      → Yields Q (reads query >>= f) s
  Yields-reads query f k =
      Yields-bind (reads query) f
        λ a u h. subst (λ v. Yields Q (f a) v) (ap (λ p. p.1) h) (k a (ap (λ p. p.0) h))

  pub Yields-ok_or :
      (o : Option A) (x : E) (f : A → Action S E B)
      → ((a : A) → o ≡ some a → Yields Q (f a) s)
      → Yields Q (lift (ok_or x o) >>= f) s
  unfolding ◌>>=◌
  Yields-ok_or none x f k = record { at = λ b t h. absurd (cc (ap (λ p. p.0) h)) }
  Yields-ok_or (some a) x f k = record { at = λ b t h. (k a refl).at b t h }

module _ {ℓ} {S E A B : Type ℓ} where
  -- A block goes on from the result and the state of its first call.
  pub bind-ok :
      (m : Action S E A) (f : A → Action S E B) (s t : S) (a : A)
      → m s ≡ (ok a, t)
      → (m >>= f) s ≡ f a t
  unfolding ◌>>=◌
  bind-ok m f s t a h = ap (λ r. continue r.0 f r.1) h

  -- What is returned in the end leaves the state alone.
  pub state-bind-pure : (m : Action S E A) (b : B) (s : S) → ((m >>= λ _. pure b) s).1 ≡ (m s).1
  unfolding ◌>>=◌
  state-bind-pure m b s = by_result (m s).0 (m s).1
    where
      by_result : (r : Result E A) (t : S) → (continue r (λ _. pure b) t).1 ≡ t
      by_result (ok a) t = refl
      by_result (err e) t = refl
