-- ===== src/Prelude/Result.antt =====
-- Rust's `Result`, with the `?` operator as bind.
use mathlib.Core.Path.{ap, ◌≡◌, refl, subst}
use mathlib.Core.Bool.{Bool, true, false}
use mathlib.Core.Option.{Option, none, some}
use full_service.Prelude.Tests.{if◌then◌else◌}

pub data Result {ℓ} (E A : Type ℓ) : Type ℓ where
  ok : A → Result E A
  err : E → Result E A

module _ {ℓ} {E A : Type ℓ} where
  abbrev pub is_ok : Result E A → Bool
  is_ok (ok a) = true
  is_ok (err e) = false

  -- `Option::ok_or`
  abbrev pub ok_or : E → Option A → Result E A
  ok_or e none = err e
  ok_or e (some a) = ok a

  -- `Result::ok`
  abbrev pub to_option : Result E A → Option A
  to_option (ok a) = some a
  to_option (err e) = none

infixl 5 ◌>>=◌
abbrev pub ◌>>=◌ {ℓ} : {E A B : Type ℓ} → Result E A → (A → Result E B) → Result E B
ok a >>= f = f a
err e >>= f = err e

infixl 5 ◌>>◌
abbrev pub ◌>>◌ {ℓ} : {E A B : Type ℓ} → Result E A → Result E B → Result E B
m >> n = m >>= λ _. n

-- `map_err`, and the conversion of the error that `?` makes.
abbrev pub map_err {ℓ} : {E F A : Type ℓ} → (E → F) → Result E A → Result F A
map_err g (ok a) = ok a
map_err g (err e) = err (g e)

pub ok-injective {ℓ} : {E A : Type ℓ} {a b : A} → ◌≡◌ {A = Result E A} (ok a) (ok b) → a ≡ b
ok-injective h = cc

-- A block that succeeds has succeeded at its first step.
pub bind-eq-ok {ℓ} :
    {E A B : Type ℓ} (m : Result E A) (f : A → Result E B) {b : B}
    → (m >>= f) ≡ ok b
    → (a : A) × (m ≡ ok a) × (f a ≡ ok b)
bind-eq-ok (ok a) f h = (a, refl, h)
bind-eq-ok (err e) f h = cc

pub is_ok→ok {ℓ} : {E A : Type ℓ} (m : Result E A) → is_ok m ≡ true → (a : A) × (m ≡ ok a)
is_ok→ok (ok a) h = (a, refl)
is_ok→ok (err e) h = cc

pub map_err→ok {ℓ} :
    {E F A : Type ℓ} (f : E → F) (m : Result E A) (a : A) → map_err f m ≡ ok a → m ≡ ok a
map_err→ok f (ok b) a h = ap ok (ok-injective h)
map_err→ok f (err e) a h = absurd (cc h)

pub ok_or→some {ℓ} : {E A : Type ℓ} (e : E) (o : Option A) (a : A) → ok_or e o ≡ ok a → o ≡ some a
ok_or→some e (some b) a h = ap some (ok-injective h)
ok_or→some e none a h = absurd (cc h)

-- What holds of the value of a call, if it returns one.
pub record Gives {ℓ} {E A : Type ℓ} (Q : A → Type ℓ) (m : Result E A) : Type ℓ where
  pub at : (a : A) → m ≡ ok a → Q a

module _ {ℓ} {E A : Type ℓ} {Q : A → Type ℓ} where
  pub Gives-ok : (a : A) → Q a → Gives {E = E} Q (ok a)
  Gives-ok a q = record { at = λ b h. subst Q (ok-injective h) q }

  pub Gives-err : (e : E) → Gives Q (err e)
  Gives-err e = record { at = λ a h. absurd (cc h) }

  pub Gives-if :
      (b : Bool) (m n : Result E A)
      → (b ≡ true → Gives Q m)
      → (b ≡ false → Gives Q n)
      → Gives Q (if b then m else n)
  Gives-if true m n km kn = km refl
  Gives-if false m n km kn = kn refl

module _ {ℓ} {E A B : Type ℓ} {Q : B → Type ℓ} where
  pub Gives-bind :
      (m : Result E A) (f : A → Result E B)
      → ((a : A) → m ≡ ok a → Gives Q (f a))
      → Gives Q (m >>= f)
  Gives-bind (ok a) f k = k a refl
  Gives-bind (err e) f k = record { at = λ b h. absurd (cc h) }
