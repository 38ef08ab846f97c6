-- ===== src/Builder/Sampling.antt =====
-- The loop of `get_rings` that samples indices: what it returns, and that it can end.
use full_service.Prelude.{
  ℕ, zero, suc, ◌+◌, ◌-◌, ◌<◌, ◌≤◌, ◌≡◌, refl, inl, inr, false, ◌||◌, Option, some, List, [], ◌∷◌,
  arith, subst,
}
use full_service.Prelude.Tests.{◌==◌, ltb, if◌then◌else◌, Bool-cases}
use full_service.Prelude.Lists.{length, All, range_from}
use full_service.Builder.Rings.{elem, sample}

-- No number stands twice.
abbrev pub IsDistinct : List ℕ → Type 0
IsDistinct [] = Unit
IsDistinct (x ∷ xs) = (elem x xs ≡ false) × IsDistinct xs

-- A set of indices that the loop may have on its way.
pub record IsSample (requested : ℕ) (excluded s : List ℕ) : Type 0 where
  pub size : length s ≤ requested
  pub distinct : IsDistinct s
  pub allowed : All (λ i. elem i excluded ≡ false) s

next-IsSample :
    (requested : ℕ) (excluded s : List ℕ) (i : ℕ)
    → IsSample requested excluded s
    → length s < requested
    → IsSample requested excluded (if elem i excluded || elem i s then s else i ∷ s)
next-IsSample requested excluded s i h room = elim (Bool-cases (elem i excluded)) [
  | inl e ↦ rw e h
  | inr e ↦ elim (Bool-cases (elem i s)) [
    | inl f ↦ rw e (rw f h)
    | inr f ↦
        rw e (
          rw f
            (record { size = omega arith; distinct = (f, h.distinct); allowed = (e, h.allowed) }))
  ]
]

full-IsSample :
    (requested : ℕ) (excluded s r : List ℕ)
    → IsSample requested excluded s
    → ltb (length s) requested ≡ false
    → ◌≡◌ {A = Option (List ℕ)} (some s) (some r)
    → IsSample requested excluded r × (length r ≡ requested)
full-IsSample requested excluded s r h full e =
    let same : s ≡ r = cc e in
    subst (λ t. IsSample requested excluded t × (length t ≡ requested)) same
      (h, ground (arith, h.size))

-- A sampling loop that ends has as many different indices as were asked for, and none that is
-- excluded.
pub sample-IsSample :
    (draws : List ℕ) (requested : ℕ) (excluded s r : List ℕ)
    → IsSample requested excluded s
    → sample draws requested excluded s ≡ some r
    → IsSample requested excluded r × (length r ≡ requested)
unfolding sample
sample-IsSample [] requested excluded s r h e = elim (Bool-cases (ltb (length s) requested)) [
  | inl more ↦ cc (rw more at e)
  | inr full ↦ full-IsSample requested excluded s r h full (rw full at e)
]
sample-IsSample (i ∷ draws) requested excluded s r h e =
    elim (Bool-cases (ltb (length s) requested)) [
      | inl more ↦
          sample-IsSample draws requested excluded _ r
            (next-IsSample requested excluded s i h (ground arith)) (rw more at e)
      | inr full ↦ full-IsSample requested excluded s r h full (rw full at e)
    ]

-- The numbers from `i` on, `m` of them, that are not excluded.
abbrev available : (i m : ℕ) (excluded : List ℕ) → ℕ
available i zero excluded = 0
available i (suc m) excluded = (if elem i excluded then 0 else 1) + available (i + 1) m excluded

available_below :
    (i m e : ℕ) (excluded : List ℕ) → e < i → available i m (e ∷ excluded) ≡ available i m excluded
available_below i zero e excluded h = refl
available_below i (suc m) e excluded h =
    ground (arith, available_below (i + 1) m e excluded (omega arith))

available_one_less :
    (i m e : ℕ) (excluded : List ℕ) → available i m excluded ≤ available i m (e ∷ excluded) + 1
available_one_less i zero e excluded = omega arith
available_one_less i (suc m) e excluded = elim (Bool-cases (e == i)) [
  | inl h ↦ ground (arith, available_below (i + 1) m e excluded)
  | inr h ↦ ground (arith, available_one_less (i + 1) m e excluded)
]

-- An excluded list takes away at most as many numbers as it has.
available_enough : (i m : ℕ) (excluded : List ℕ) → m ≤ available i m excluded + length excluded
available_enough i zero [] = omega arith
available_enough i (suc m) [] = ground (arith, available_enough (i + 1) m [])
available_enough i m (e ∷ excluded) =
    omega (arith, available_enough i m excluded, available_one_less i m e excluded)

elem_above : (i : ℕ) (s : List ℕ) → All (λ x. x < i) s → elem i s ≡ false
elem_above i [] h = refl
elem_above i (x ∷ s) h = ground (arith, elem_above i s h.1)

below_next : (i : ℕ) (s : List ℕ) → All (λ x. x < i) s → All (λ x. x < i + 1) s
below_next i [] h = tt
below_next i (x ∷ s) h = (omega arith, below_next i s h.1)

sweep :
    (m i requested : ℕ) (excluded s : List ℕ)
    → All (λ x. x < i) s
    → requested ≤ length s + available i m excluded
    → (r : List ℕ) × (sample (range_from i m) requested excluded s ≡ some r)
unfolding sample
sweep zero i requested excluded s below room = (s, ground arith)
sweep (suc m) i requested excluded s below room = elim (Bool-cases (ltb (length s) requested)) [
  | inr full ↦ (s, rw full refl)
  | inl more ↦ elim (Bool-cases (elem i excluded)) [
    | inl e ↦
        let (r, h) = sweep m (i + 1) requested excluded s (below_next i s below) (ground arith) in
        (r, rw more (rw e h))
    | inr e ↦
        let (r, h) =
          sweep m (i + 1) requested excluded (i ∷ s) (omega arith, below_next i s below)
            (ground arith) in
        (r, rw more (rw e (rw (elem_above i s below) h)))
  ]
]

-- Where `get_rings` asks for no more indices than the ledger has outside the excluded ones, the loop
-- ends: it does on draws that go once through the ledger.
pub sample_ends :
    (num_txos requested : ℕ) (excluded : List ℕ)
    → requested ≤ num_txos - length excluded
    → (r : List ℕ) × (sample (range_from 0 num_txos) requested excluded [] ≡ some r)
sample_ends n requested excluded h =
    sweep n 0 requested excluded [] tt (ground (arith, available_enough 0 n excluded))
