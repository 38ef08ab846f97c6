-- ===== src/Accounts/NextAddress.antt =====
-- The subaddress that `create_next_for_account` makes.
use Prim.Native.String.{String}
use full_service.Prelude.{
  ℕ, ◌+◌, ◌<◌, ◌≡◌, refl, sym, ap, ◌∙◌, Bool, true, false, Option, some, List, [], ◌∷◌, ◌++◌, arith,
}
use full_service.Prelude.Tests.{if◌then◌else◌}
use full_service.Prelude.Int.{ℤ, pos, as_i64, as_i64_small, as_u64, i64_mid}
use full_service.Prelude.Result.{ok, is_ok, ok-injective}
use full_service.Prelude.State.{pure, raise, for_each, modify, ◌>>=◌}
use full_service.Prelude.Keeps.{Keeps, Keeps-pure, Keeps-lift, Keeps-if, Keeps-bind, Keeps-for_each}
use full_service.Prelude.Effects.{
  Yields, Yields-pure, Yields-raise, Yields-if, Yields-bind, Yields-reads, Yields-ok_or,
}
use full_service.Db.Schema.{RowId, Bytes, Account, Txo, AssignedSubaddress}
use full_service.Db.Error.{WalletDbError, subaddresses_not_supported_for_fog_enabled_accounts}
use full_service.Db.Tables.{Db, DbAction}
use full_service.Db.Query.{find_account}
use full_service.External.{Crypto}
use full_service.Accounts.Subaddresses.{account_id_of, view_account_id_of, next_subaddress_index}
use full_service.Accounts.Initial.{
  entry, view_only_entry, create-Effect, create_for_view_only_account-Effect,
}
use full_service.Accounts.Indices.{
  above, maximum, entries_of, next_subaddress_index_lem, maximum_added,
}
use full_service.Accounts.Next.{
  KeyImageLedger, repair_view_only, repair, mark_spent, next_for_view_only, next_with_key,
  create_next_for_account,
}

-- The addresses in the table are these, whatever else changes.
record Addresses (es : List AssignedSubaddress) (db : Db) : Type 0 where
  pub same : db.assigned_subaddresses ≡ es

module _ (es : List AssignedSubaddress) where
  Keeps-set_txos :
      (f : Db → List Txo)
      → Keeps {E = WalletDbError} (Addresses es) (modify λ db. record db { txos = f db })
  Keeps-set_txos f = record { at = λ s h. record { same = h.same } }

  ruleset repair_rules = (Keeps-pure, Keeps-lift, Keeps-if, Keeps-bind, Keeps-set_txos)

  module _ (c : Crypto) (ledger : KeyImageLedger) (key : Bytes) (next : ℕ) (t : Txo) where
    repair_view_only-Keeps : Keeps (Addresses es) (repair_view_only c ledger key next t)
    unfolding repair_view_only
    repair_view_only-Keeps = search repair_rules depth 8

    mark_spent-Keeps :
        (public image : Bytes) → Keeps (Addresses es) (mark_spent c ledger t public image)
    unfolding mark_spent
    mark_spent-Keeps public image = search repair_rules depth 10

    repair-Keeps : Keeps (Addresses es) (repair c ledger key next t)
    unfolding repair
    repair-Keeps = search (repair_rules, mark_spent-Keeps) depth 10

-- What a branch of the call makes of the table of addresses, and what it returns.
record Made (account : Account) (entry_at : Bytes → ℕ → AssignedSubaddress) (decoded : Option Bytes)
    (db : Db) (made : RowId × ℕ) (after : Db) : Type 0 where
  pub key : Bytes
  pub key_of : decoded ≡ some key
  pub next : next_subaddress_index account db ≡ ok made.1
  pub table : after.assigned_subaddresses ≡ db.assigned_subaddresses ++ entry_at key made.1 ∷ []

-- A loop that leaves the table of addresses alone.
unchanged_by :
    (ts : List Txo) (body : Txo → DbAction (Unit {0})) (es : List AssignedSubaddress)
    (db after : Db)
    → ((t : Txo) → Keeps (Addresses es) (body t))
    → db.assigned_subaddresses ≡ es
    → for_each ts body db ≡ (ok tt, after)
    → after.assigned_subaddresses ≡ es
unchanged_by ts body es db after k same h =
    ap (λ r. r.1.assigned_subaddresses) (sym h)
    ∙ ((Keeps-for_each ts body k).at db (record { same = same })).same

module _ (c : Crypto) (ledger : KeyImageLedger) (account : Account) (comment : String)
    (db : Db) where
  next_with_key-Made :
      Yields
        (Made account
          (λ key i. entry c key i comment)
          (c.decode_account_key account.account_key)
          db)
        (next_with_key c ledger account comment)
        db
  unfolding next_with_key
  next_with_key-Made = Yields-ok_or _ _ _ λ key key_of. Yields-reads _ _ λ n next.
      Yields-bind _ _ λ b u made. Yields-reads _ _ λ orphans _. Yields-bind _ _ λ done v repaired.
        Yields-pure _ (record {
          key = key;
          key_of = key_of;
          next = next;
          table =
              unchanged_by orphans _ _ u v (λ t. repair-Keeps _ c ledger key n t)
                (ap (λ r. r.1.assigned_subaddresses) (sym made)
                  ∙ ap (λ d. d.assigned_subaddresses)
                      ((create-Effect c key n comment).at db (ap (λ r. is_ok r.0) made)))
                repaired;
        })

  next_for_view_only-Made :
      Yields
        (Made account
          (λ key i. view_only_entry c key i comment)
          (c.decode_view_account_key account.account_key)
          db)
        (next_for_view_only c ledger account comment)
        db
  unfolding next_for_view_only
  next_for_view_only-Made = Yields-ok_or _ _ _ λ key key_of. Yields-reads _ _ λ n next.
      Yields-bind _ _ λ b u made. Yields-reads _ _ λ orphans _. Yields-bind _ _ λ done v repaired.
        Yields-pure _ (record {
          key = key;
          key_of = key_of;
          next = next;
          table =
              unchanged_by orphans _ _ u v (λ t. repair_view_only-Keeps _ c ledger key n t)
                (ap (λ r. r.1.assigned_subaddresses) (sym made)
                  ∙ ap (λ d. d.assigned_subaddresses)
                      ((create_for_view_only_account-Effect c key n comment).at db
                        (ap (λ r. is_ok r.0) made)))
                repaired;
        })

-- The account's id is the one of its keys.
pub record IsKeyed (c : Crypto) (account : Account) : Type 0 where
  pub by_key :
      (key : Bytes)
      → c.decode_account_key account.account_key ≡ some key
      → account_id_of c key ≡ account.id
  pub by_view_key :
      (key : Bytes)
      → c.decode_view_account_key account.account_key ≡ some key
      → view_account_id_of c key ≡ account.id

-- The new entry in the table: the account's, at the index that was next.
record Added (account : Account) (db : Db) (n : ℕ) (after : Db) : Type 0 where
  pub e : AssignedSubaddress
  pub own : e.account_id ≡ account.id
  pub index : e.subaddress_index ≡ as_i64 n
  pub table : after.assigned_subaddresses ≡ db.assigned_subaddresses ++ e ∷ []
  pub next : next_subaddress_index account db ≡ ok n

module _ (c : Crypto) (ledger : KeyImageLedger) (account : Account) (keyed : IsKeyed c account)
    (comment : String) (db : Db) where
  branches-Added :
      (b : Bool) (made : RowId × ℕ) (after : Db)
      → (if b
            then next_for_view_only c ledger account comment
            else next_with_key c ledger account comment)
          db
        ≡ (ok made, after)
      → Added account db made.1 after
  branches-Added true made after h =
      let m = (next_for_view_only-Made c ledger account comment db).at made after h in
      record {
        e = view_only_entry c m.key made.1 comment;
        own = keyed.by_view_key m.key m.key_of;
        index = refl;
        table = m.table;
        next = m.next;
      }
  branches-Added false made after h =
      let m = (next_with_key-Made c ledger account comment db).at made after h in
      record {
        e = entry c m.key made.1 comment;
        own = keyed.by_key m.key m.key_of;
        index = refl;
        table = m.table;
        next = m.next;
      }

  abbrev Outcome : RowId × ℤ → Db → Type 0
  Outcome r after = (n : ℕ) × (r.1 ≡ as_i64 n) × Added account db n after

  account_next_added :
      Yields Outcome
        (if account.fog_enabled
          then raise subaddresses_not_supported_for_fog_enabled_accounts
          else (if account.view_only
              then next_for_view_only c ledger account comment
              else next_with_key c ledger account comment)
            >>= λ made. pure (made.0, as_i64 made.1))
        db
  account_next_added = Yields-if account.fog_enabled _ _ (Yields-raise _) (
      Yields-bind _ _
        λ made u h. Yields-pure _ (made.1, refl, branches-Added account.view_only made u h))

  create_next_added :
      (a : RowId)
      → find_account a db ≡ ok account
      → Yields Outcome (create_next_for_account c ledger a comment) db
  unfolding create_next_for_account
  create_next_added a found = Yields-reads _ _ λ acc acc_found.
      let same : acc ≡ account = ok-injective (sym acc_found ∙ found) in rw same account_next_added

  -- For an account whose id is that of its keys and whose largest subaddress index is `k`, with
  -- `k + 2` below 2^63: a call of `create_next_for_account` that returns answers with the index
  -- `k + 1`, and after it the next subaddress index of the account is `k + 2`, whatever txos the call
  -- repaired.
  pub next_subaddress_index-create_next :
      (a b58 : RowId) (i : ℤ) (after : Db) (k : ℕ)
      → find_account a db ≡ ok account
      → maximum (entries_of account.id db.assigned_subaddresses) ≡ some (pos k)
      → k + 2 < i64_mid
      → create_next_for_account c ledger a comment db ≡ (ok (b58, i), after)
      → (i ≡ pos (k + 1)) × (next_subaddress_index account after ≡ ok (k + 2))
  unfolding as_u64
  next_subaddress_index-create_next a b58 i after k found largest small h =
      let (n, index, added) = (create_next_added a found).at (b58, i) after h in
      let is_next : n ≡ k + 1 =
        ok-injective (sym added.next ∙ next_subaddress_index_lem account db ∙ ap above largest)
        ∙ omega arith in
      let at_last : added.e.subaddress_index ≡ pos (k + 1) =
        added.index ∙ ap as_i64 is_next ∙ as_i64_small (k + 1) (omega arith) in
      (
        index ∙ ap as_i64 is_next ∙ as_i64_small (k + 1) (omega arith),
        next_subaddress_index_lem account after
            ∙ ap (λ es. above (maximum (entries_of account.id es))) added.table
            ∙ ap above (
                maximum_added account.id added.e db.assigned_subaddresses k added.own at_last
                  largest)
            ∙ ground arith,
      )
