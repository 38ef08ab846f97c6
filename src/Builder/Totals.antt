-- ===== src/Builder/Totals.antt =====
-- The maps of sums per token hold, of each token, the sum of its values.
use full_service.Prelude.{ℕ, ◌+◌, ◌≤◌, ◌<◌, ◌≡◌, refl, some, List, [], ◌∷◌, arith, inl, inr}
use full_service.Prelude.Tests.{◌==◌, ltb, if◌then◌else◌, Bool-cases}
use full_service.Prelude.Int.{as_u64}
use full_service.Prelude.Lists.{All}
use full_service.Db.Schema.{Txo}
use full_service.Txos.Spendable.{value_of}
use full_service.Builder.{
  TokenMap, Outlay, add_to, value_at, total_value_per_token, input_value_per_token,
}

abbrev pub Above : ℕ → TokenMap → Type 0
Above k m = All (λ p. k < p.0) m

-- Each token once, from the lowest up.
abbrev pub IsAscending : TokenMap → Type 0
IsAscending [] = Unit
IsAscending (p ∷ m) = Above p.0 m × IsAscending m

-- What the entries of a token sum up to.
abbrev pub sum_at : ℕ → TokenMap → ℕ
sum_at k [] = 0
sum_at k ((j, w) ∷ m) = (if j == k then w else 0) + sum_at k m

add_to-Above : (b k v : ℕ) (m : TokenMap) → b < k → Above b m → Above b (add_to k v m)
add_to-Above b k v [] h a = (h, tt)
add_to-Above b k v ((j, w) ∷ m) h a = ground (arith, add_to-Above b k v m h a.1)

Above-lower : (a b : ℕ) (m : TokenMap) → a < b → Above b m → Above a m
Above-lower a b [] h k = tt
Above-lower a b (p ∷ m) h k = (omega arith, Above-lower a b m h k.1)

add_to-IsAscending : (k v : ℕ) (m : TokenMap) → IsAscending m → IsAscending (add_to k v m)
add_to-IsAscending k v [] s = (tt, tt)
add_to-IsAscending k v ((j, w) ∷ m) s = elim (Bool-cases (k == j)) [
  | inl e ↦ rw e s
  | inr e ↦ elim (Bool-cases (ltb k j)) [
    | inl f ↦
        rw (e, f) (let below : k < j = ground arith in ((below, Above-lower k j m below s.0), s))
    | inr f ↦
        rw (e, f)
          (let above : j < k = ground arith in
            (add_to-Above j k v m above s.0, add_to-IsAscending k v m s.1))
  ]
]

sum_at-add_to :
    (k j v : ℕ) (m : TokenMap) → sum_at k (add_to j v m) ≡ (if j == k then v else 0) + sum_at k m
sum_at-add_to k j v [] = refl
sum_at-add_to k j v ((i, w) ∷ m) = ground (arith, sum_at-add_to k j v m)

pub sum_at-Above : (k b : ℕ) (m : TokenMap) → k ≤ b → Above b m → sum_at k m ≡ 0
sum_at-Above k b [] h a = refl
sum_at-Above k b (p ∷ m) h a = ground (arith, sum_at-Above k b m h a.1)

-- In an ascending map a token's entry is its sum.
pub value_at-sum_at :
    (k w : ℕ) (m : TokenMap) → IsAscending m → value_at k m ≡ some w → sum_at k m ≡ w
value_at-sum_at k w [] s h = cc
value_at-sum_at k w ((j, v) ∷ m) s h = elim (Bool-cases (j == k)) [
  | inl e ↦ rw e (ground (arith, sum_at-Above k j m (ground arith) s.0))
  | inr e ↦ rw e (omega (arith, value_at-sum_at k w m s.1 (rw e at h)))
]

-- The sums of the values of one token, from the lists themselves.
abbrev pub outlay_sum : ℕ → List Outlay → ℕ
outlay_sum k [] = 0
outlay_sum k (o ∷ os) = (if o.token_id == k then o.value else 0) + outlay_sum k os

abbrev pub input_sum : ℕ → List Txo → ℕ
input_sum k [] = 0
input_sum k (t ∷ ts) = (if as_u64 t.token_id == k then value_of t else 0) + input_sum k ts

pub totals-IsAscending :
    (m : TokenMap) (os : List Outlay) → IsAscending m → IsAscending (total_value_per_token m os)
unfolding total_value_per_token
totals-IsAscending m [] s = s
totals-IsAscending m (o ∷ os) s =
    totals-IsAscending (add_to o.token_id o.value m) os (add_to-IsAscending o.token_id o.value m s)

pub sum_at-totals :
    (k : ℕ) (m : TokenMap) (os : List Outlay)
    → sum_at k (total_value_per_token m os) ≡ sum_at k m + outlay_sum k os
unfolding total_value_per_token
sum_at-totals k m [] = omega arith
sum_at-totals k m (o ∷ os) =
    omega (
      arith,
      sum_at-totals k (add_to o.token_id o.value m) os,
      sum_at-add_to k o.token_id o.value m,
    )

pub inputs-IsAscending :
    (m : TokenMap) (ts : List Txo) → IsAscending m → IsAscending (input_value_per_token m ts)
unfolding input_value_per_token
inputs-IsAscending m [] s = s
inputs-IsAscending m (t ∷ ts) s =
    inputs-IsAscending (add_to (as_u64 t.token_id) (value_of t) m) ts
      (add_to-IsAscending (as_u64 t.token_id) (value_of t) m s)

pub sum_at-inputs :
    (k : ℕ) (m : TokenMap) (ts : List Txo)
    → sum_at k (input_value_per_token m ts) ≡ sum_at k m + input_sum k ts
unfolding input_value_per_token
sum_at-inputs k m [] = omega arith
sum_at-inputs k m (t ∷ ts) = omega (
  arith,
  sum_at-inputs k (add_to (as_u64 t.token_id) (value_of t) m) ts,
  sum_at-add_to k (as_u64 t.token_id) (value_of t) m,
)
