-- ===== src/Txos/Spendable/Window.antt =====
-- The selection loop keeps a window: the largest `max_inputs` of the txos that it has taken so far.
use mathlib.Core.List.{reverse_aux, reverse-cons, reverse-append}
use full_service.Prelude.{
  ℕ, zero, suc, ◌+◌, ◌-◌, ◌≤◌, ◌<◌, ◌≡◌, refl, sym, ap, ◌⊎◌, List, [], ◌∷◌, ◌++◌, reverse, arith,
  inl, inr,
}
use full_service.Prelude.Tests.{leb, leb→le, le→leb, Bool-cases}
use full_service.Prelude.Lists.{All, take, length, length-append}
use full_service.Prelude.Result.{ok}
use full_service.Db.Schema.{Txo}
use full_service.Txos.Spendable.{value_of, sum_values, Selection, grab, select_loop}

-- From the largest value down.
abbrev pub IsDescending : List Txo → Type 0
IsDescending [] = Unit
IsDescending (t ∷ ts) = All (λ u. value_of u ≤ value_of t) ts × IsDescending ts

pub sum_values-append : (ts us : List Txo) → sum_values (ts ++ us) ≡ sum_values ts + sum_values us
sum_values-append [] us = omega arith
sum_values-append (t ∷ ts) us = omega (arith, sum_values-append ts us)

pub sum_values-reverse : (ts : List Txo) → sum_values (reverse ts) ≡ sum_values ts
sum_values-reverse [] = refl
sum_values-reverse (t ∷ ts) =
    rw (reverse-cons t ts)
      (omega (arith, sum_values-append (reverse ts) (t ∷ []), sum_values-reverse ts))

pub length-reverse : (ts : List Txo) → length (reverse ts) ≡ length ts
length-reverse [] = refl
length-reverse (t ∷ ts) =
    rw (reverse-cons t ts) (omega (arith, length-append (reverse ts) (t ∷ []), length-reverse ts))

-- With one more txo in front, the largest `n` sum up to at least as much.
pub take_mono :
    (n : ℕ) (t : Txo) (us : List Txo)
    → All (λ u. value_of u ≤ value_of t) us
    → IsDescending us
    → sum_values (take n us) ≤ sum_values (take n (t ∷ us))
take_mono zero t us h d = omega arith
take_mono (suc n) t [] h d = omega arith
take_mono (suc n) t (u ∷ us) h d = omega (arith, take_mono n u us d.0 d.1, h.0)

pub IsDescending-suffix :
    (rest us : List Txo) → IsDescending (reverse_aux rest us) → IsDescending us
IsDescending-suffix [] us d = d
IsDescending-suffix (t ∷ rest) us d = (IsDescending-suffix rest (t ∷ us) d).1

module _ (m : ℕ) where
  -- The state of the loop when it has taken `us`, the last one first.
  abbrev pub window : List Txo → Selection
  window us = record { selected = reverse (take m us); total = sum_values (take m us) }

  pub window_mono :
      (rest us : List Txo)
      → IsDescending (reverse_aux rest us)
      → sum_values (take m us) ≤ sum_values (take m (reverse_aux rest us))
  window_mono [] us d = omega arith
  window_mono (t ∷ rest) us d =
      let e = IsDescending-suffix rest (t ∷ us) d in
      omega (arith, take_mono m t us e.0 e.1, window_mono rest (t ∷ us) d)

-- Either there are at most `n` txos, or the window of `n + 1` has one more at its end.
take_cases :
    (n : ℕ) (us : List Txo)
    → ((take (suc n) us ≡ take n us) × (length (take n us) ≤ n))
      ⊎ ((low : Txo) × (take (suc n) us ≡ take n us ++ low ∷ []) × (length (take n us) ≡ n))
take_cases n [] = inl (take-nil n, rw (take-nil' n) (omega arith))
  where
    take-nil : (n : ℕ) → take {A = Txo} (suc n) [] ≡ take n []
    take-nil zero = refl
    take-nil (suc n) = refl

    take-nil' : (n : ℕ) → take {A = Txo} n [] ≡ []
    take-nil' zero = refl
    take-nil' (suc n) = refl
take_cases zero (u ∷ us) = inr (u, refl, refl)
take_cases (suc n) (u ∷ us) = elim (take_cases n us) [
  | inl (e, h) ↦ inl (ap (λ ts. u ∷ ts) e, omega arith)
  | inr (low, e, h) ↦ inr (low, ap (λ ts. u ∷ ts) e, omega arith)
]

module _ (m : ℕ) where
  grab_keeps :
      (ts : List Txo) (total : ℕ) (t : Txo)
      → length ts < m
      → grab m (record { selected = ts; total = total }) t
        ≡ record { selected = ts ++ t ∷ []; total = total + value_of t }
  unfolding grab
  grab_keeps ts total t h = ground (arith, length-append ts (t ∷ []))

  grab_drops :
      (low : Txo) (ts : List Txo) (total : ℕ) (t : Txo)
      → m ≤ length ts + 1
      → grab m (record { selected = low ∷ ts; total = total }) t
        ≡ record { selected = ts ++ t ∷ []; total = total + value_of t - value_of low }
  unfolding grab
  grab_drops low ts total t h = ground (arith, length-append ts (t ∷ []))

Selection_eq :
    {a b : List Txo} {x y : ℕ}
    → a ≡ b
    → x ≡ y
    → ◌≡◌ {A = Selection} (record { selected = a; total = x }) (record { selected = b; total = y })
Selection_eq p q = λ i. record { selected = p i; total = q i }

-- A round of the loop moves the window by one txo.
pub grab-window : (m : ℕ) (us : List Txo) (t : Txo) → grab m (window m us) t ≡ window m (t ∷ us)
grab-window zero us t = unfold grab in Selection_eq refl (omega arith)
grab-window (suc n) us t = elim (take_cases n us) [
  | inl (e, h) ↦
      rw
        (
          e,
          grab_keeps (suc n) (reverse (take n us)) (sum_values (take n us)) t
              (omega (arith, length-reverse (take n us))),
        )
        (Selection_eq (sym (reverse-cons t (take n us))) (omega arith))
  | inr (low, e, h) ↦
      rw
        (
          e,
          reverse-append (take n us) (low ∷ []),
          grab_drops (suc n) low (reverse (take n us)) (sum_values (take n us ++ low ∷ [])) t
              (omega (arith, length-reverse (take n us))),
        )
        (Selection_eq (sym (reverse-cons t (take n us)))
          (omega (arith, sum_values-append (take n us) (low ∷ []))))
]

-- Where the loop stops: `us` is what it has taken, and the rest it has left.
pub data Stopped (m target : ℕ) (rest us : List Txo) (result : List Txo) : Type 0 where
  stopped :
      (left taken : List Txo)
      → reverse_aux rest us ≡ reverse_aux left taken
      → result ≡ reverse (take m taken)
      → target ≤ sum_values (take m taken)
      → Stopped m target rest us result

module _ (m target : ℕ) where
  -- A result is a window that reaches the target.
  pub select_loop-Stopped :
      (rest us result : List Txo)
      → select_loop m target rest (window m us) ≡ ok result
      → Stopped m target rest us result
  unfolding select_loop
  select_loop-Stopped [] us result h = elim (Bool-cases (leb target (sum_values (take m us)))) [
    | inl e ↦ stopped [] us refl (let h' = rw e at h in cc) (leb→le _ _ e)
    | inr e ↦ absurd (let h' = rw e at h in cc)
  ]
  select_loop-Stopped (t ∷ rest) us result h =
      elim (Bool-cases (leb target (sum_values (take m us)))) [
        | inl e ↦ stopped (t ∷ rest) us refl (let h' = rw e at h in cc) (leb→le _ _ e)
        | inr e ↦
            elim (select_loop-Stopped rest (t ∷ us) result (rw (e, grab-window m us t) at h)) [
              | stopped left taken p q r ↦ stopped left taken p q r
            ]
      ]

  -- Where the largest `m` reach the target, so does the loop.
  pub select_loop_reaches :
      (rest us : List Txo)
      → target ≤ sum_values (take m (reverse_aux rest us))
      → (result : List Txo) × (select_loop m target rest (window m us) ≡ ok result)
  unfolding select_loop
  select_loop_reaches [] us h = (reverse (take m us), rw (le→leb _ _ h))
  select_loop_reaches (t ∷ rest) us h = elim (Bool-cases (leb target (sum_values (take m us)))) [
    | inl e ↦ (reverse (take m us), rw e)
    | inr e ↦ rw (e, grab-window m us t) (select_loop_reaches rest (t ∷ us) h)
  ]
