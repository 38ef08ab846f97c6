-- ===== src/Builder/Change.antt =====
-- What the inputs of a transaction are worth is paid out: to the recipients, as the fee, and as change.
use full_service.Prelude.{ℕ, ◌+◌, ◌≤◌, ◌<◌, ◌≡◌, refl, some, List, [], ◌∷◌, map, arith}
use full_service.Prelude.Tests.{◌==◌, if◌then◌else◌}
use full_service.Prelude.Int.{u64_max}
use full_service.Prelude.Lists.{All}
use full_service.Prelude.Result.{ok, ok_or, bind-eq-ok, ok-injective}
use full_service.Prelude.Order.{All-mono}
use full_service.External.{Amount}
use full_service.Builder.{
  WalletTransactionBuilder, missing_inputs_for_token_id, TokenMap, value_at, total_value_per_token,
  input_value_per_token, change_amount, change_amounts, fee_or_default, build_change,
}
use full_service.Builder.Totals.{
  IsAscending, Above, sum_at, sum_at-Above, value_at-sum_at, outlay_sum, input_sum,
  totals-IsAscending, sum_at-totals, inputs-IsAscending, sum_at-inputs,
}

-- The change of a token is what the total leaves of the input, and fits a u64.
change_amount-exact :
    (totals : TokenMap) (k v : ℕ) (c : Amount)
    → IsAscending totals
    → change_amount totals (k, v) ≡ ok c
    → (c.token_id ≡ k) × (v ≡ sum_at k totals + c.value) × (c.value ≤ u64_max)
unfolding change_amount
change_amount-exact totals k v c s h =
    let (total, e, h') =
      bind-eq-ok (ok_or (missing_inputs_for_token_id k) (value_at k totals)) _ h in
    let found : value_at k totals ≡ some total = ground arith in
    let sum = value_at-sum_at k total totals s found in ground arith

-- The tokens of the change are those of the map.
change_amounts-tokens :
    (totals m : TokenMap) (cs : List Amount)
    → IsAscending totals
    → change_amounts totals m ≡ ok cs
    → map (λ c. c.token_id) cs ≡ map (λ p. p.0) m
unfolding change_amounts
change_amounts-tokens totals [] cs s h = rw (← ok-injective h) refl
change_amounts-tokens totals ((k, v) ∷ m) cs s h =
    let (c, e, h1) = bind-eq-ok (change_amount totals (k, v)) _ h in
    let (rest, f, h2) = bind-eq-ok (change_amounts totals m) _ h1 in
    let (same, _, _) = change_amount-exact totals k v c s e in
    rw (← ok-injective h2) (λ i. same i ∷ change_amounts-tokens totals m rest s f i)

-- Tokens above a bound stay above it.
tokens-Above :
    (b : ℕ) (cs : List Amount) (m : TokenMap)
    → map (λ c. c.token_id) cs ≡ map (λ p. p.0) m
    → Above b m
    → All (λ c. b < c.token_id) cs
tokens-Above b [] m e a = tt
tokens-Above b (c ∷ cs) [] e a = absurd cc
tokens-Above b (c ∷ cs) ((k, v) ∷ m) e a =
    let same : c.token_id ≡ k = ground arith in
    (omega arith, tokens-Above b cs m (ground arith) a.1)

-- Of each token of the change, the input is the total and the change.
abbrev Balanced : (totals inputs : TokenMap) → Amount → Type 0
Balanced totals inputs c = sum_at c.token_id inputs ≡ sum_at c.token_id totals + c.value

Balanced-further :
    (totals m : TokenMap) (k v : ℕ) (cs : List Amount)
    → All (λ c. k < c.token_id) cs
    → All (Balanced totals m) cs
    → All (Balanced totals ((k, v) ∷ m)) cs
Balanced-further totals m k v [] a h = tt
Balanced-further totals m k v (c ∷ cs) a h =
    (ground (arith, a.0, h.0), Balanced-further totals m k v cs a.1 h.1)

change_amounts-Balanced :
    (totals m : TokenMap) (cs : List Amount)
    → IsAscending totals
    → IsAscending m
    → change_amounts totals m ≡ ok cs
    → All (Balanced totals m) cs
unfolding change_amounts
change_amounts-Balanced totals [] cs s a h = rw (← ok-injective h) tt
change_amounts-Balanced totals ((k, v) ∷ m) cs s a h =
    let (c, e, h1) = bind-eq-ok (change_amount totals (k, v)) _ h in
    let (rest, f, h2) = bind-eq-ok (change_amounts totals m) _ h1 in
    let (same, exact, _) = change_amount-exact totals k v c s e in
    let none_left = sum_at-Above k k m (omega arith) a.0 in
    let above = tokens-Above k rest m (change_amounts-tokens totals m rest s f) a.0 in
    rw (← ok-injective h2) (
      ground (arith, same, exact, none_left),
      Balanced-further totals m k v rest above (change_amounts-Balanced totals m rest s a.1 f),
    )

-- What the fee takes of a token.
abbrev pub fee_in : ℕ → ℕ × ℕ → ℕ
fee_in k fee = if fee.1 == k then fee.0 else 0

-- Of each token of the change, the inputs are worth the outlays, the fee and the change together; and
-- there is one change for each token of the inputs.
pub build_change_conserves :
    (default : ℕ × ℕ) (b : WalletTransactionBuilder) (cs : List Amount)
    → build_change default b ≡ ok cs
    → All
        (λ c.
          input_sum c.token_id b.inputs
          ≡ outlay_sum c.token_id b.outlays
            + fee_in c.token_id (fee_or_default default b)
            + c.value)
        cs
      × (map (λ c. c.token_id) cs ≡ map (λ p. p.0) (input_value_per_token [] b.inputs))
unfolding build_change
build_change_conserves default b cs h =
    let fee = fee_or_default default b in
    let totals = total_value_per_token ((fee.1, fee.0) ∷ []) b.outlays in
    let asc : IsAscending totals = totals-IsAscending _ b.outlays (tt, tt) in
    let inputs = inputs-IsAscending [] b.inputs tt in
    (
      All-mono (λ c e. balanced c e) cs (change_amounts-Balanced totals _ cs asc inputs h),
      change_amounts-tokens totals _ cs asc h,
    )
  where
    balanced :
        (c : Amount)
        → Balanced
            (total_value_per_token
              (((fee_or_default default b).1, (fee_or_default default b).0) ∷ [])
              b.outlays)
            (input_value_per_token [] b.inputs)
            c
        → input_sum c.token_id b.inputs
          ≡ outlay_sum c.token_id b.outlays + fee_in c.token_id (fee_or_default default b) + c.value
    balanced c e = omega (
      arith,
      e,
      sum_at-inputs c.token_id [] b.inputs,
      sum_at-totals c.token_id (((fee_or_default default b).1, (fee_or_default default b).0) ∷ [])
          b.outlays,
    )
