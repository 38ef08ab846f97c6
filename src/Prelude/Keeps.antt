-- ===== src/Prelude/Keeps.antt =====
-- Properties that a call keeps, whether it returns or fails, with a rule for each way to build one.
use mathlib.Core.Path.{◌≡◌, refl, ap}
use mathlib.Core.Bool.{Bool, true, false}
use mathlib.Core.List.{List, [], ◌∷◌}
use full_service.Prelude.Tests.{if◌then◌else◌}
use full_service.Prelude.Result.{Result, ok, err, is_ok}
use full_service.Prelude.State.{Action, pure, raise, reads, lift, for_each, continue, ◌>>=◌}

-- What holds after a call that returns, of a property that held before.
pub record Ends {ℓ} {S E A : Type ℓ} (P Q : S → Type ℓ) (m : Action S E A) : Type ℓ where
  pub at : (s : S) → P s → is_ok (m s).0 ≡ true → Q (m s).1

pub record Keeps {ℓ} {S E A : Type ℓ} (P : S → Type ℓ) (m : Action S E A) : Type ℓ where
  pub at : (s : S) → P s → P (m s).1

module _ {ℓ} {S E A : Type ℓ} {P : S → Type ℓ} where
  pub Keeps-pure : (a : A) → Keeps {E = E} P (pure a)
  Keeps-pure a = record { at = λ s h. h }

  pub Keeps-raise : (e : E) → Keeps {A = A} P (raise e)
  Keeps-raise e = record { at = λ s h. h }

  pub Keeps-reads : (f : S → Result E A) → Keeps P (reads f)
  Keeps-reads f = record { at = λ s h. h }

  pub Keeps-lift : (r : Result E A) → Keeps P (lift r)
  Keeps-lift r = record { at = λ s h. h }

  pub Keeps-if :
      (b : Bool) (m n : Action S E A) → Keeps P m → Keeps P n → Keeps P (if b then m else n)
  Keeps-if true m n km kn = km
  Keeps-if false m n km kn = kn

module _ {ℓ} {S E A B : Type ℓ} {P : S → Type ℓ} where
  continue_keeps :
      (r : Result E A) (f : A → Action S E B) (s : S)
      → ((a : A) → Keeps P (f a))
      → P s
      → P (continue r f s).1
  continue_keeps (ok a) f s kf h = (kf a).at s h
  continue_keeps (err e) f s kf h = h

  pub Keeps-bind :
      (m : Action S E A) (f : A → Action S E B)
      → Keeps P m
      → ((a : A) → Keeps P (f a))
      → Keeps P (m >>= f)
  unfolding ◌>>=◌
  Keeps-bind m f km kf = record { at = λ s h. continue_keeps (m s).0 f (m s).1 kf (km.at s h) }

module _ {ℓ} {S E A B : Type ℓ} {P Q : S → Type ℓ} where
  continue_ends :
      (r : Result E A) (f : A → Action S E B) (s : S)
      → ((a : A) → Ends P Q (f a))
      → P s
      → is_ok (continue r f s).0 ≡ true
      → Q (continue r f s).1
  continue_ends (ok a) f s kf h e = (kf a).at s h e
  continue_ends (err x) f s kf h e = cc

  pub Ends-bind :
      (m : Action S E A) (f : A → Action S E B)
      → Keeps P m
      → ((a : A) → Ends P Q (f a))
      → Ends P Q (m >>= f)
  unfolding ◌>>=◌
  Ends-bind m f km kf = record { at = λ s h e. continue_ends (m s).0 f (m s).1 kf (km.at s h) e }

module _ {ℓ} {S E A B : Type ℓ} {P Q R : S → Type ℓ} where
  -- What the first call establishes, the second one starts from.
  pub Ends-then :
      (m : Action S E A) (f : A → Action S E B)
      → Ends P Q m
      → ((a : A) → Ends Q R (f a))
      → Ends P R (m >>= f)
  unfolding ◌>>=◌
  Ends-then m f em ef = record { at = λ s h e. by_first s h (m s).0 refl e }
    where
      by_first :
          (s : S)
          → P s
          → (r : Result E A) → (m s).0 ≡ r
          → is_ok (continue r f (m s).1).0 ≡ true
          → R (continue r f (m s).1).1
      by_first s h (ok a) q e = (ef a).at (m s).1 (em.at s h (ap is_ok q)) e
      by_first s h (err x) q e = cc

module _ {ℓ} {S E X : Type ℓ} {P : S → Type ℓ} where
  for_each_keeps :
      (xs : List X) (body : X → Action S E Unit)
      → ((x : X) → Keeps P (body x))
      → (s : S) → P s
      → P (for_each xs body s).1
  unfolding for_each
  for_each_keeps [] body k s h = h
  for_each_keeps (x ∷ xs) body k s h =
      continue_keeps (body x s).0 (λ _. for_each xs body) (body x s).1
        (λ _. record { at = for_each_keeps xs body k }) ((k x).at s h)

  pub Keeps-for_each :
      (xs : List X) (body : X → Action S E Unit)
      → ((x : X) → Keeps P (body x))
      → Keeps P (for_each xs body)
  Keeps-for_each xs body k = record { at = for_each_keeps xs body k }

pub ruleset keeps_rules =
    (Keeps-pure, Keeps-raise, Keeps-reads, Keeps-lift, Keeps-if, Keeps-bind, Keeps-for_each)
