-- ===== src/Balance/Twice.antt =====
-- A txo that is an input of two logs, in the balance of its account.
use mathlib.Core.List.{Mem, mem-cons, not-mem-nil}
use mathlib.Core.Logic.Or
use native.Mathlib.Bridge.{le_prop}
use full_service.Prelude.{ℕ, ◌≤◌, ◌≡◌, refl, true, none, some, List, [], ◌∷◌, arith}
use full_service.Prelude.Int.{as_i64}
use full_service.Prelude.Lists.{any}
use full_service.Prelude.Result.{ok}
use full_service.Db.Schema.{RowId, Txo}
use full_service.Db.Tables.{Db}
use full_service.Db.Query.{input_rows, resolve_subaddress}
use full_service.Db.Rows.{mem-filter}
use full_service.Txos.List.{
  releases_input, row_is_pending, is_unspent, is_pending, list_unspent, list_spent, list_pending,
  list_unverified, list_secreted, list_orphaned,
}
use full_service.Txos.Overlap.{IsHeld, mem-ordered}
use full_service.Txos.Spendable.{value_of, sum_values, list_spendable}
use full_service.Balance.{Balance, get_balance_inner}

value_of-le-sum_values : {t : Txo} (ts : List Txo) → Mem t ts → value_of t ≤ sum_values ts
value_of-le-sum_values [] m = absurd (not-mem-nil m)
value_of-le-sum_values (u ∷ us) m =
    Or.elim le_prop (mem-cons.0 m) (λ e. rw e (omega arith))
      (λ n. let rest = value_of-le-sum_values us n in omega arith)

-- A stored txo of account `a` and token `k`, received at a subaddress, with a key image and not spent,
-- that is an input of a failed or unsubmitted log and of a pending one: the balance of `a` in `k` is
-- there, and counts the value of the txo as unspent and once more as pending.
pub held_txo_counted_twice :
    (db : Db) (t : Txo) (a : RowId) (k m fee : ℕ)
    → IsHeld t
    → Mem t db.txos
    → t.account_id ≡ some a
    → t.token_id ≡ as_i64 k
    → any releases_input (input_rows db t) ≡ true
    → any row_is_pending (input_rows db t) ≡ true
    → (r : Balance) × (get_balance_inner m (some a) none k fee db ≡ ok r)
      × (value_of t ≤ r.unspent)
      × (value_of t ≤ r.pending)
unfolding get_balance_inner list_unspent list_spent list_pending list_unverified list_secreted
    list_orphaned list_spendable resolve_subaddress
held_txo_counted_twice db t a k m fee held stored of_account of_token p q = (
  _,
  refl,
  value_of-le-sum_values _ (
      mem-ordered t _ (
        mem-filter (is_unspent db (some a) none (some k) none none) db.txos (ground arith) stored)),
  value_of-le-sum_values _ (
      mem-ordered t _ (
        mem-filter (is_pending db (some a) none (some k) none none) db.txos (ground arith) stored)),
)
