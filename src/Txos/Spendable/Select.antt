-- ===== src/Txos/Spendable/Select.antt =====
-- When and what `select_from` selects from a falling list.
use mathlib.Core.List.{
  Perm, Sublistᴰ, reverse-reverse, reverse_perm, perm_append_comm, append_assoc, reverse_aux-eq,
  reverse_aux,
}
use mathlib.Core.List.Perm
use full_service.Prelude.{
  ℕ, zero, suc, ◌+◌, ◌≤◌, ◌<◌, ◌≡◌, ◌↔◌, refl, sym, ap, ◌∙◌, inl, inr, true, false, List, [], ◌∷◌,
  ◌++◌, reverse, arith,
}
use full_service.Prelude.Tests.{ltb, Bool-cases, leb→le}
use full_service.Prelude.Lists.{All, take, drop, length, is_empty, take-append-drop, length-take-le}
use full_service.Prelude.Order.{insert_by, sort_by, All-insert_by}
use full_service.Prelude.Result.{ok, is_ok, is_ok→ok, bind-eq-ok, ◌>>=◌}
use full_service.Db.Schema.{Txo}
use full_service.Txos.Spendable.{
  value_of, sum_values, value_desc, SpendableTxosResult, max_spendable, select_loop, select_from,
  checked_selection,
}
use full_service.Txos.Spendable.Window.{
  IsDescending, sum_values-reverse, length-reverse, window_mono, take_mono, Stopped, stopped,
  select_loop-Stopped, select_loop_reaches,
}

All-le_trans :
    (a b : ℕ) (ts : List Txo) → b ≤ a → All (λ u. value_of u ≤ b) ts → All (λ u. value_of u ≤ a) ts
All-le_trans a b [] h k = tt
All-le_trans a b (t ∷ ts) h k = (omega arith, All-le_trans a b ts h k.1)

insert_by-IsDescending :
    (t : Txo) (ts : List Txo) → IsDescending ts → IsDescending (insert_by value_desc t ts)
unfolding insert_by
insert_by-IsDescending t [] d = (tt, tt)
insert_by-IsDescending t (u ∷ us) d = elim (Bool-cases (value_desc t u)) [
  | inl e ↦ rw e ((leb→le _ _ e, All-le_trans (value_of t) (value_of u) us (leb→le _ _ e) d.0), d)
  | inr e ↦ rw e (
    All-insert_by value_desc (λ v. value_of v ≤ value_of u) t us (ground arith) d.0,
    insert_by-IsDescending t us d.1,
  )
]

pub sort_by-IsDescending : (ts : List Txo) → IsDescending (sort_by value_desc ts)
unfolding sort_by
sort_by-IsDescending [] = tt
sort_by-IsDescending (t ∷ ts) =
    insert_by-IsDescending t (sort_by value_desc ts) (sort_by-IsDescending ts)

-- A selection that reaches a target above 0 passes the last test.
checked_window :
    (m target : ℕ) (ts : List Txo)
    → 0 < target
    → target ≤ sum_values (take m ts)
    → checked_selection m (reverse (take m ts)) ≡ ok (reverse (take m ts))
checked_window m target ts h k =
    passes (reverse (take m ts)) (omega (arith, sum_values-reverse (take m ts)))
      (omega (arith, length-reverse (take m ts), length-take-le m ts))
  where
    passes : (us : List Txo) → 0 < sum_values us → length us ≤ m → checked_selection m us ≡ ok us
    passes [] p q = absurd (omega arith)
    passes (u ∷ us) p q = ground arith

-- The part of the function after the query, on its result.
module _ (n target fee k : ℕ) (positive : 0 < target) (ts : List Txo) where
  abbrev listed : SpendableTxosResult
  listed = record { spendable_txos = ts; max_spendable_in_wallet = max_spendable (suc n) ts fee }

  not_over :
      target ≤ sum_values (take (suc n) ts)
      → ltb (max_spendable (suc n) ts fee + fee) target ≡ false
  not_over h = ground arith

  select_from_reaches :
      target ≤ sum_values (take (suc n) ts) → is_ok (select_from (suc n) target fee k listed) ≡ true
  unfolding select_from
  select_from_reaches h =
      let nonempty : is_empty ts ≡ false = nonempty_of ts h in
      let (result, e) =
        select_loop_reaches (suc n) target (reverse ts) [] (rw (reverse-reverse ts) h) in
      rw (nonempty, not_over h, e)
        (ap is_ok (passes result (select_loop-Stopped (suc n) target (reverse ts) [] result e)))
    where
      nonempty_of : (ts : List Txo) → target ≤ sum_values (take (suc n) ts) → is_empty ts ≡ false
      nonempty_of [] h = absurd (omega arith)
      nonempty_of (t ∷ ts) h = refl

      passes :
          (result : List Txo)
          → Stopped (suc n) target (reverse ts) [] result
          → checked_selection (suc n) result ≡ ok result
      passes result (stopped left taken p q r) =
          rw q (checked_window (suc n) target taken positive r)

-- A selection that the function returns is a window of the loop.
select_from-Stopped :
    (n target fee k : ℕ) (r : SpendableTxosResult) (selected : List Txo)
    → select_from (suc n) target fee k r ≡ ok selected
    → Stopped (suc n) target (reverse r.spendable_txos) [] selected
unfolding select_from
select_from-Stopped n target fee k r selected h = elim (Bool-cases (is_empty r.spendable_txos)) [
  | inl e ↦ absurd (let h' = rw e at h in cc)
  | inr e ↦ elim (Bool-cases (ltb (r.max_spendable_in_wallet + fee) target)) [
    | inl f ↦ absurd (let h' = rw (e, f) at h in cc)
    | inr f ↦ looped (rw (e, f) at h)
  ]
]
  where
    looped :
        (select_loop (suc n) target (reverse r.spendable_txos) (record { selected = []; total = 0 })
            >>= checked_selection (suc n))
          ≡ ok selected
        → Stopped (suc n) target (reverse r.spendable_txos) [] selected
    looped h =
        let (us, e, c) = bind-eq-ok (select_loop (suc n) target (reverse r.spendable_txos) _) _ h in
        let same : us ≡ selected = ground arith in
        select_loop-Stopped (suc n) target (reverse r.spendable_txos) [] selected (rw (← same) e)

-- A window is never worth more than the largest `n + 1` txos.
Stopped-le :
    (n target : ℕ) (ts selected : List Txo)
    → IsDescending ts
    → Stopped (suc n) target (reverse ts) [] selected
    → target ≤ sum_values (take (suc n) ts)
Stopped-le n target ts selected d (stopped left taken p q r) =
    let whole : reverse_aux left taken ≡ ts = sym p ∙ reverse-reverse ts in
    let mono = window_mono (suc n) left taken (rw whole d) in
    let mono' = rw whole at mono in omega arith

pub select_from_exact :
    (m target fee k : ℕ) (r : SpendableTxosResult)
    → IsDescending r.spendable_txos
    → r.max_spendable_in_wallet ≡ max_spendable m r.spendable_txos fee
    → 0 < m
    → 0 < target
    → (is_ok (select_from m target fee k r) ≡ true)
      ↔ (target ≤ sum_values (take m r.spendable_txos))
select_from_exact zero target fee k r d e hm ht = absurd (omega arith)
select_from_exact (suc n) target fee k r d e hm ht = (
  λ h.
      let (selected, c) = is_ok→ok (select_from (suc n) target fee k r) h in
      Stopped-le n target r.spendable_txos selected d
        (select_from-Stopped n target fee k r selected c),
  λ h. rw (record_eq e) (select_from_reaches n target fee k ht r.spendable_txos h),
)
  where
    record_eq :
        {x : ℕ}
        → r.max_spendable_in_wallet ≡ x
        → r ≡ record { spendable_txos = r.spendable_txos; max_spendable_in_wallet = x }
    record_eq p = λ i. record { spendable_txos = r.spendable_txos; max_spendable_in_wallet = p i }

window-perm :
    (m : ℕ) (left taken ts : List Txo)
    → reverse_aux (reverse ts) [] ≡ reverse_aux left taken
    → Perm (reverse (take m taken) ++ (drop m taken ++ left)) ts
window-perm m left taken ts p =
    Perm.trans (Perm.append_right (drop m taken ++ left) (reverse_perm (take m taken))) (
      rw (regrouped) (
        Perm.trans (perm_append_comm taken left) (
          Perm.trans (Perm.append_right taken (Perm.symm (reverse_perm left)))
            (rw (whole) (Perm.refl ts)))))
  where
    regrouped : take m taken ++ (drop m taken ++ left) ≡ taken ++ left
    regrouped =
        sym (append_assoc (take m taken) (drop m taken) left)
        ∙ ap (λ us. us ++ left) (take-append-drop m taken)

    whole : reverse left ++ taken ≡ ts
    whole = sym (reverse_aux-eq left taken) ∙ sym p ∙ reverse-reverse ts

-- What is selected, and what is left: together the spendable txos.
pub record IsSelectionOf (m target : ℕ) (spendable selected : List Txo) : Type 0 where
  pub unselected : List Txo
  pub split : Perm (selected ++ unselected) spendable
  pub enough : target ≤ sum_values selected
  pub bounded : length selected ≤ m

Stopped-IsSelectionOf :
    (m target : ℕ) (ts selected : List Txo)
    → Stopped m target (reverse ts) [] selected
    → IsSelectionOf m target ts selected
Stopped-IsSelectionOf m target ts selected (stopped left taken p q r) = record {
  unselected = drop m taken ++ left;
  split = rw q (window-perm m left taken ts p);
  enough = rw q (omega (arith, sum_values-reverse (take m taken)));
  bounded = rw q (omega (arith, length-reverse (take m taken), length-take-le m taken));
}

pub select_from-IsSelectionOf :
    (m target fee k : ℕ) (r : SpendableTxosResult) (selected : List Txo)
    → 0 < m
    → select_from m target fee k r ≡ ok selected
    → IsSelectionOf m target r.spendable_txos selected
select_from-IsSelectionOf zero target fee k r selected hm h = absurd (omega arith)
select_from-IsSelectionOf (suc n) target fee k r selected hm h =
    Stopped-IsSelectionOf (suc n) target r.spendable_txos selected
      (select_from-Stopped n target fee k r selected h)

-- No `n` or fewer of the txos are worth more than the first `n` of a falling list.
pub sum_values-le-take :
    (n : ℕ) (us ts : List Txo)
    → IsDescending ts
    → Sublistᴰ us ts
    → length us ≤ n
    → sum_values us ≤ sum_values (take n ts)
sum_values-le-take n _ _ d Sublistᴰ.slnil k = omega arith
sum_values-le-take n us (t ∷ ts) d (Sublistᴰ.cons h) k =
    omega (arith, sum_values-le-take n us ts d.1 h k, take_mono n t ts d.0 d.1)
sum_values-le-take zero _ _ d (Sublistᴰ.cons-cons e h) k = absurd (omega arith)
sum_values-le-take (suc n) (a ∷ us) (b ∷ ts) d (Sublistᴰ.cons-cons e h) k =
    omega (arith, sum_values-le-take n us ts d.1 h (omega arith), ap (λ (t : Txo). value_of t) e)
