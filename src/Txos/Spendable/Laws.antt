-- ===== src/Txos/Spendable/Laws.antt =====
-- What `list_spendable` returns, and when and what `select_spendable_txos_for_value` selects.
use mathlib.Core.List.{Sublistᴰ}
use full_service.Prelude.{
  ℕ, zero, suc, [], ◌∷◌, ◌+◌, ◌≤◌, ◌<◌, ◌≡◌, ◌↔◌, refl, subst, true, Option, some, List, arith,
}
use full_service.Prelude.Lists.{filter, take, length, length-take-le}
use full_service.Prelude.Result.{ok, is_ok, bind-eq-ok, ok-injective}
use full_service.Db.Schema.{RowId, Txo}
use full_service.Db.Tables.{Db}
use full_service.Db.Query.{resolve_subaddress}
use full_service.Txos.Spendable.{
  sum_values, can_spend, SpendableTxosResult, max_spendable, list_spendable,
  select_spendable_txos_for_value,
}
use full_service.Txos.Spendable.Window.{IsDescending}
use full_service.Txos.Spendable.Select.{
  sort_by-IsDescending, select_from_exact, select_from-IsSelectionOf, sum_values-le-take,
  IsSelectionOf,
}

take-Sublistᴰ : {A : Type 0} (n : ℕ) (xs : List A) → Sublistᴰ (take n xs) xs
take-Sublistᴰ zero [] = Sublistᴰ.slnil
take-Sublistᴰ zero (x ∷ xs) = Sublistᴰ.cons (take-Sublistᴰ 0 xs)
take-Sublistᴰ (suc n) [] = Sublistᴰ.slnil
take-Sublistᴰ (suc n) (x ∷ xs) = Sublistᴰ.cons-cons refl (take-Sublistᴰ n xs)

module _ (m : ℕ) (account : RowId) (cap : Option ℕ) (address : Option RowId) (token_id fee : ℕ)
    (db : Db) where
  -- What a result of `list_spendable` is, for any account.
  record IsListed (r : SpendableTxosResult) : Type 0 where
    pub descending : IsDescending r.spendable_txos
    pub maximum : r.max_spendable_in_wallet ≡ max_spendable m r.spendable_txos fee

  list_spendable-IsListed :
      (r : SpendableTxosResult)
      → list_spendable m (some account) cap address token_id fee db ≡ ok r
      → IsListed r
  unfolding list_spendable
  list_spendable-IsListed r h =
      let (s, _, e) = bind-eq-ok (resolve_subaddress address db) _ h in
      subst IsListed (ok-injective e) (record {
        descending =
            sort_by-IsDescending (filter (can_spend db (some account) cap s token_id) db.txos);
        maximum = refl;
      })

  -- With a target above 0 the selection succeeds exactly if the largest `max_inputs` spendable txos
  -- sum up to the target; the fee plays no part in it.
  pub selects_exactly :
      (target : ℕ) (r : SpendableTxosResult)
      → list_spendable m (some account) cap address token_id fee db ≡ ok r
      → 0 < m
      → 0 < target
      → (is_ok (select_spendable_txos_for_value m account target cap address token_id fee db)
          ≡ true)
        ↔ (target ≤ sum_values (take m r.spendable_txos))
  unfolding select_spendable_txos_for_value
  selects_exactly target r e hm ht =
      let l = list_spendable-IsListed r e in
      rw e (select_from_exact m target fee token_id r l.descending l.maximum hm ht)

  -- A selection that succeeds takes at most `max_inputs` of the spendable txos, none of them twice,
  -- and their values sum up to the target or more.
  pub selection-IsSelectionOf :
      (target : ℕ) (selected : List Txo)
      → 0 < m
      → select_spendable_txos_for_value m account target cap address token_id fee db ≡ ok selected
      → (r : SpendableTxosResult) × (list_spendable m (some account) cap address token_id fee db
          ≡ ok r)
        × IsSelectionOf m target r.spendable_txos selected
  unfolding select_spendable_txos_for_value
  selection-IsSelectionOf target selected hm h =
      let (r, e, c) =
        bind-eq-ok (list_spendable m (some account) cap address token_id fee db) _ h in
      (r, e, select_from-IsSelectionOf m target fee token_id r selected hm c)

  -- No `max_inputs` or fewer of the spendable txos are worth more than the reported maximum and the
  -- fee together.
  pub max_spendable_bounds :
      (r : SpendableTxosResult) (us : List Txo)
      → list_spendable m (some account) cap address token_id fee db ≡ ok r
      → Sublistᴰ us r.spendable_txos
      → length us ≤ m
      → sum_values us ≤ r.max_spendable_in_wallet + fee
  max_spendable_bounds r us e h k =
      let l = list_spendable-IsListed r e in
      let best = sum_values-le-take m us r.spendable_txos l.descending h k in
      rw l.maximum (ground arith)

  -- A reported maximum above 0 can be spent: some `max_inputs` or fewer of the spendable txos are worth
  -- exactly the maximum and the fee together.
  pub max_spendable_attained :
      (r : SpendableTxosResult)
      → list_spendable m (some account) cap address token_id fee db ≡ ok r
      → 0 < r.max_spendable_in_wallet
      → (us : List Txo) × Sublistᴰ us r.spendable_txos
        × (length us ≤ m)
        × (sum_values us ≡ r.max_spendable_in_wallet + fee)
  max_spendable_attained r e positive =
      let l = list_spendable-IsListed r e in
      (
        take m r.spendable_txos,
        take-Sublistᴰ m r.spendable_txos,
        length-take-le m r.spendable_txos,
        (let above = rw l.maximum at positive in rw l.maximum (ground arith)),
      )
