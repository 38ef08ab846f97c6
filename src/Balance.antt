-- ===== src/Balance.antt =====
-- full-service/src/service/balance.rs: the balance of an account or an address in one token.
pub mod Bounds
pub mod Twice
use full_service.Prelude.{ℕ, Option, none, some, List}
use full_service.Prelude.Tests.{is_some, if◌then◌else◌}
use full_service.Prelude.Result.{Result, ok, ◌>>=◌}
use full_service.Db.Schema.{RowId, Txo}
use full_service.Db.Error.{WalletDbError}
use full_service.Db.Tables.{Db, DbResult}
use full_service.Txos.List.{
  list_unspent, list_spent, list_pending, list_unverified, list_secreted, list_orphaned,
}
use full_service.Txos.Spendable.{sum_values, list_spendable}

pub record Balance : Type 0 where
  pub max_spendable : ℕ
  pub unverified : ℕ
  pub unspent : ℕ
  pub pending : ℕ
  pub spent : ℕ
  pub secreted : ℕ
  pub orphaned : ℕ

-- `sum_query_result`
abbrev pub sum_query_result : List Txo → ℕ
sum_query_result ts = sum_values ts

-- No txo of an address is orphaned.
abbrev pub orphaned_of : Option RowId → Option RowId → ℕ → Db → DbResult ℕ
orphaned_of a (some b) k db = ok 0
orphaned_of a none k db =
    list_orphaned a (some k) none none none none db >>= λ ts. ok (sum_query_result ts)

unfoldable pub get_balance_inner :
    (max_inputs : ℕ) (account_id_hex public_address_b58 : Option RowId)
    (token_id default_token_fee : ℕ)
    → Db
    → DbResult Balance
get_balance_inner m a b k fee db = do
  unspent ← list_unspent a b (some k) none none none none db
  spent ← list_spent a b (some k) none none none none db
  pending ← list_pending a b (some k) none none none none db
  unverified ← list_unverified a b (some k) none none none none db
  secreted ← list_secreted a db
  orphaned ← orphaned_of a b k db
  spendable ← list_spendable m a none b k fee db
  ok (record {
    max_spendable = spendable.max_spendable_in_wallet;
    unverified = sum_query_result unverified;
    unspent = sum_query_result unspent;
    pending = sum_query_result pending;
    spent = sum_query_result spent;
    secreted = sum_query_result secreted;
    orphaned = orphaned;
  })
