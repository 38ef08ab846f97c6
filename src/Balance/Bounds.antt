-- ===== src/Balance/Bounds.antt =====
-- When the parts of a balance count no txo twice.
use full_service.Prelude.{
  ℕ, ◌+◌, ◌≤◌, ◌≡◌, refl, sym, ap, ◌∙◌, ◌||◌, Bool, true, false, Option, none, some, List, [], ◌∷◌,
  arith, inl, inr,
}
use full_service.Prelude.Tests.{is_some, is_none, Bool-cases}
use full_service.Prelude.Lists.{All, any, filter, length}
use full_service.Prelude.Order.{All-mono, insert_by, sort_by}
use full_service.Prelude.Result.{ok, bind-eq-ok, ok-injective, ◌>>=◌}
use full_service.Db.Schema.{RowId, Txo, AssignedSubaddress}
use full_service.Db.Tables.{Db}
use full_service.Db.Query.{input_rows, resolve_subaddress, received_desc}
use full_service.Txos.List.{
  releases_input, row_is_pending, is_unspent, is_spent, is_pending, is_unverified, list_unspent,
  list_spent, list_pending, list_unverified, list_secreted, ordered_page,
}
use full_service.Txos.Overlap.{one_row}
use full_service.Txos.Spendable.{value_of, sum_values, list_spendable}
use full_service.Balance.{Balance, get_balance_inner, orphaned_of}

-- The order of the list does not change its sum.
sum_values-insert_by :
    (le : Txo → Txo → Bool) (t : Txo) (ts : List Txo)
    → sum_values (insert_by le t ts) ≡ value_of t + sum_values ts
unfolding insert_by
sum_values-insert_by le t [] = refl
sum_values-insert_by le t (u ∷ us) = ground (arith, sum_values-insert_by le t us)

sum_values-sort_by :
    (le : Txo → Txo → Bool) (ts : List Txo) → sum_values (sort_by le ts) ≡ sum_values ts
unfolding sort_by
sum_values-sort_by le [] = refl
sum_values-sort_by le (t ∷ ts) =
    omega (arith, sum_values-insert_by le t (sort_by le ts), sum_values-sort_by le ts)

-- A spent txo has a key image, by which the sync found it spent.
abbrev pub SpentHasImage : List Txo → Type 0
SpentHasImage ts = All (λ t. (is_none t.spent_block_index || is_some t.key_image) ≡ true) ts

-- At most one of the tests.
abbrev AtMostOne : Bool → Bool → Bool → Bool → Type 0
AtMostOne p q r s =
    (p ≡ true → q ≡ false)
    × (p ≡ true → r ≡ false)
    × (p ≡ true → s ≡ false)
    × (q ≡ true → r ≡ false)
    × (q ≡ true → s ≡ false)
    × (r ≡ true → s ≡ false)

-- Tests of which at most one holds of each txo filter lists that together have no more than all.
sum_values-disjoint :
    (p q r s : Txo → Bool) (ts : List Txo)
    → All (λ t. AtMostOne (p t) (q t) (r t) (s t)) ts
    → sum_values (filter p ts)
        + sum_values (filter q ts)
        + sum_values (filter r ts)
        + sum_values (filter s ts)
      ≤ sum_values ts
sum_values-disjoint p q r s [] h = omega arith
sum_values-disjoint p q r s (t ∷ ts) h =
    let rest = sum_values-disjoint p q r s ts h.1 in let one = h.0 in ground arith

module _ (db : Db) (a : Option RowId) (s : Option AssignedSubaddress) (k : Option ℕ)
    (single : (t : Txo) → length (input_rows db t) ≤ 1) where
  one_part :
      (t : Txo)
      → (is_none t.spent_block_index || is_some t.key_image) ≡ true
      → AtMostOne
          (is_unspent db a s k none none t)
          (is_spent db a s k none none t)
          (is_pending db a s k none none t)
          (is_unverified db a s k none none t)
  one_part t i = elim (Bool-cases (any row_is_pending (input_rows db t))) [
    | inl e ↦ elim (Bool-cases (any releases_input (input_rows db t))) [
      | inl f ↦ absurd (one_row (input_rows db t) (single t) f e)
      | inr f ↦ rw f (ground arith)
    ]
    | inr e ↦ rw e (ground arith)
  ]

module _ (db : Db) (b : Option RowId) (s : Option AssignedSubaddress)
    (resolved : resolve_subaddress b db ≡ ok s) where
  listed_sum :
      (p : Option AssignedSubaddress → Txo → Bool) (ts : List Txo)
      → (resolve_subaddress b db >>= λ s. ok (ordered_page none none (filter (p s) db.txos)))
        ≡ ok ts
      → sum_values ts ≡ sum_values (filter (p s) db.txos)
  listed_sum p ts h =
      let h' = rw resolved at h in
      ap sum_values (sym (ok-injective h'))
      ∙ sum_values-sort_by received_desc (filter (p s) db.txos)

-- While no txo is an input of two logs and every spent txo has a key image, the unspent, spent, pending and unverified parts of a balance
-- are together no more than the values of all txos: none is counted in two of them.
pub balance_counts_once :
    (m : ℕ) (a b : Option RowId) (k fee : ℕ) (db : Db) (r : Balance)
    → ((t : Txo) → length (input_rows db t) ≤ 1)
    → SpentHasImage db.txos
    → get_balance_inner m a b k fee db ≡ ok r
    → r.unspent + r.spent + r.pending + r.unverified ≤ sum_values db.txos
unfolding get_balance_inner list_unspent list_spent list_pending list_unverified
balance_counts_once m a b k fee db r single images h =
    let (unspent, e1, h1) = bind-eq-ok (list_unspent a b (some k) none none none none db) _ h in
    let (spent, e2, h2) = bind-eq-ok (list_spent a b (some k) none none none none db) _ h1 in
    let (pending, e3, h3) = bind-eq-ok (list_pending a b (some k) none none none none db) _ h2 in
    let (unverified, e4, h4) =
      bind-eq-ok (list_unverified a b (some k) none none none none db) _ h3 in
    let (secreted, e5, h5) = bind-eq-ok (list_secreted a db) _ h4 in
    let (orphaned, e6, h6) = bind-eq-ok (orphaned_of a b k db) _ h5 in
    let (spendable, e7, h7) = bind-eq-ok (list_spendable m a none b k fee db) _ h6 in
    let (s, resolved, _) = bind-eq-ok (resolve_subaddress b db) _ e1 in
    let u = listed_sum db b s resolved (λ s. is_unspent db a s (some k) none none) unspent e1 in
    let t = listed_sum db b s resolved (λ s. is_spent db a s (some k) none none) spent e2 in
    let p = listed_sum db b s resolved (λ s. is_pending db a s (some k) none none) pending e3 in
    let v =
      listed_sum db b s resolved (λ s. is_unverified db a s (some k) none none) unverified e4 in
    let all =
      sum_values-disjoint _ _ _ _ db.txos
        (All-mono (one_part db a s (some k) single) db.txos images) in
    rw (← ok-injective h7) (omega arith)
