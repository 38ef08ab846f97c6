-- ===== src/Txos/Overlap.antt =====
-- Which lists of full-service/src/db/txo.rs can share a txo. The joins of `list_unspent` and
-- `list_spendable` let a txo pass as soon as one of its logs releases it.
use mathlib.Core.List.{Mem}
use mathlib.Core.List.Perm
use full_service.Prelude.{
  ℕ, ◌≤◌, ◌≡◌, refl, subst, Bool, true, Option, none, some, List, [], ◌∷◌, arith,
}
use full_service.Prelude.Tests.{is_some, is_none}
use full_service.Prelude.Lists.{All, any, length}
use full_service.Prelude.Order.{sort_by-perm, All-filter, All-mono, All-sort_by, All-take, All-drop}
use full_service.Prelude.Result.{ok, bind-eq-ok, ok-injective}
use full_service.Prelude.Int.{ℤ, pos, negsuc, as_i64, u64_max}
use full_service.Db.Schema.{RowId, Txo, TransactionLog}
use full_service.Db.Tables.{Db}
use full_service.Db.Query.{input_rows, received_desc, limited, skipped, resolve_subaddress}
use full_service.Db.Rows.{mem-filter, All-mem}
use full_service.Txos.Spendable.{
  value_of, value_desc, can_spend, SpendableTxosResult, list_spendable,
}
use full_service.Txos.List.{
  releases_input, row_is_pending, is_unspent, is_pending, ordered_page, list_unspent, list_pending,
}

module _ (P : Txo → Type 0) where
  All-limited : (l : ℤ) (ts : List Txo) → All P ts → All P (limited l ts)
  All-limited (pos n) ts h = All-take P n ts h
  All-limited (negsuc n) ts h = h

  All-skipped : (o : ℤ) (ts : List Txo) → All P ts → All P (skipped o ts)
  All-skipped (pos n) ts h = All-drop P n ts h
  All-skipped (negsuc n) ts h = h

  -- What every row has, every row of a page has.
  pub All-ordered_page : (o l : Option ℕ) (ts : List Txo) → All P ts → All P (ordered_page o l ts)
  All-ordered_page none l ts h = All-sort_by received_desc P ts h
  All-ordered_page (some o) none ts h = All-sort_by received_desc P ts h
  All-ordered_page (some o) (some l) ts h =
      All-limited (as_i64 l) _ (All-skipped (as_i64 o) _ (All-sort_by received_desc P ts h))

-- One row cannot release the txo and be pending.
pub one_row :
    (rows : List (Option TransactionLog))
    → length rows ≤ 1
    → any releases_input rows ≡ true
    → any row_is_pending rows ≡ true
    → ⊥
one_row [] h p q = cc
one_row (none ∷ []) h p q = cc
one_row (some l ∷ []) h p q = ground arith
one_row (r ∷ s ∷ rows) h p q = absurd (omega arith)

Bool-prop : (b : Bool) → IsProp (b ≡ true)
Bool-prop b = hlevel

module _ (db : Db) (a b : Option RowId) (k min max o l : Option ℕ) (ts : List Txo) where
  list_unspent-releases :
      list_unspent a b k min max o l db ≡ ok ts
      → All (λ t. any releases_input (input_rows db t) ≡ true) ts
  unfolding list_unspent
  list_unspent-releases h =
      let (s, _, e) = bind-eq-ok (resolve_subaddress b db) _ h in
      subst (All (λ t. any releases_input (input_rows db t) ≡ true)) (ok-injective e) (
        All-ordered_page _ o l _
          (All-mono (λ t p. ground arith) _ (All-filter (is_unspent db a s k min max) db.txos)))

  list_pending-pending :
      list_pending a b k min max o l db ≡ ok ts
      → All (λ t. any row_is_pending (input_rows db t) ≡ true) ts
  unfolding list_pending
  list_pending-pending h =
      let (s, _, e) = bind-eq-ok (resolve_subaddress b db) _ h in
      subst (All (λ t. any row_is_pending (input_rows db t) ≡ true)) (ok-injective e) (
        All-ordered_page _ o l _
          (All-mono (λ t p. ground arith) _ (All-filter (is_pending db a s k min max) db.txos)))

-- While no txo is an input of two logs, no txo is listed both as unspent and as pending, whatever
-- the two lists are asked for.
pub unspent_pending_disjoint :
    (db : Db) (a b c d : Option RowId) (k min max o l k' min' max' o' l' : Option ℕ)
    (ts us : List Txo)
    → ((t : Txo) → length (input_rows db t) ≤ 1)
    → list_unspent a b k min max o l db ≡ ok ts
    → list_pending c d k' min' max' o' l' db ≡ ok us
    → (t : Txo) → Mem t ts
    → ¬ Mem t us
unspent_pending_disjoint db a b c d k min max o l k' min' max' o' l' ts us single p q t m n =
    one_row (input_rows db t) (single t)
      (All-mem (λ u. any releases_input (input_rows db u) ≡ true) (Bool-prop _) m
        (list_unspent-releases db a b k min max o l ts p))
      (All-mem (λ u. any row_is_pending (input_rows db u) ≡ true) (Bool-prop _) n
        (list_pending-pending db c d k' min' max' o' l' us q))

-- A received txo of a known subaddress and key image that is not spent.
pub record IsHeld (t : Txo) : Type 0 where
  pub received : is_some t.received_block_index ≡ true
  pub at_subaddress : is_some t.subaddress_index ≡ true
  pub with_image : is_some t.key_image ≡ true
  pub not_spent : is_none t.spent_block_index ≡ true

pub mem-ordered : (t : Txo) (ts : List Txo) → Mem t ts → Mem t (ordered_page none none ts)
mem-ordered t ts m = Perm.subset (Perm.symm (sort_by-perm received_desc ts)) t m

module _ (db : Db) (t : Txo) (held : IsHeld t) (stored : Mem t db.txos) (a : RowId) (k : ℕ)
    (of_account : t.account_id ≡ some a) (of_token : t.token_id ≡ as_i64 k)
    (small : value_of t ≤ u64_max) where
  -- A stored txo of account `a` and token `k`, received at a subaddress, with a key image, not spent and
  -- worth at most `u64::MAX`, that is an input of a failed or unsubmitted log and of a pending one: it is
  -- in the list of the pending txos of `a` and `k`, and among the spendable ones as well, of which a new
  -- transaction without a cap or a spend subaddress selects its inputs.
  pub pending_txo_is_spendable :
      (m fee : ℕ)
      → any releases_input (input_rows db t) ≡ true
      → any row_is_pending (input_rows db t) ≡ true
      → (r : SpendableTxosResult) × (list_spendable m (some a) none none k fee db ≡ ok r)
        × Mem t r.spendable_txos
        × (us : List Txo) × (list_pending (some a) none (some k) none none none none db ≡ ok us)
        × Mem t us
  unfolding list_spendable list_pending resolve_subaddress
  pending_txo_is_spendable m fee p q = (
    _,
    refl,
    Perm.subset (Perm.symm (sort_by-perm value_desc _)) t
        (mem-filter (can_spend db (some a) none none k) db.txos (ground arith) stored),
    _,
    refl,
    mem-ordered t _
        (mem-filter (is_pending db (some a) none (some k) none none) db.txos (ground arith) stored),
  )
