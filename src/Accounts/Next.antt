-- ===== src/Accounts/Next.antt =====
-- `create_next_for_account` of full-service/src/db/assigned_subaddress.rs: a new subaddress, and the
-- repair of the orphaned txos that were sent to it. The ledger is a parameter.
use Prim.Native.String.{String}
use full_service.Prelude.{ℕ, Bool, Option, none, some, List}
use full_service.Prelude.Tests.{◌==◌, if◌then◌else◌}
use full_service.Prelude.Int.{ℤ, as_i64}
use full_service.Prelude.Result.{ok_or}
use full_service.Prelude.State.{pure, raise, reads, lift, modify, for_each, ◌>>=◌, ◌>>◌}
use full_service.Db.Schema.{RowId, Bytes, Account, Txo}
use full_service.Db.Error.{
  prost_decode, ledger_db, subaddresses_not_supported_for_fog_enabled_accounts,
}
use full_service.Db.Tables.{DbAction, update}
use full_service.Db.Query.{find_account}
use full_service.External.{Crypto}
use full_service.Txos.List.{list_orphaned}
use full_service.Accounts.Subaddresses.{next_subaddress_index, create_for_view_only_account}
use full_service.Accounts.Subaddresses

-- What the calls of `LedgerDB` answer; `none` is an error of the ledger database.
pub record KeyImageLedger : Type 0 where
  pub contains_key_image : Bytes → Option Bool
  pub get_tx_out_index_by_public_key : Bytes → Option ℕ
  pub get_block_index_by_tx_out_index : ℕ → Option ℕ

-- `diesel::update(txo).set(…)`
abbrev update_row : Txo → (Txo → Txo) → DbAction (Unit {0})
update_row t f = modify λ db. record db { txos = update (λ u. u.id == t.id) f db.txos }

module _ (c : Crypto) (ledger : KeyImageLedger) where
  -- The round of the loop for one orphaned txo of a view-only account.
  unfoldable pub repair_view_only :
      (view_account_key : Bytes) (next_subaddress_index : ℕ) → Txo → DbAction (Unit {0})
  repair_view_only key next orphaned = do
    target ← lift (ok_or prost_decode (c.decode orphaned.target_key))
    public ← lift (ok_or prost_decode (c.decode orphaned.public_key))
    if c.recover_public_subaddress_spend_key (c.view_private_key key) target public
          == c.spend_public_key (c.view_subaddress key next)
        then update_row orphaned (λ t. record t { subaddress_index = some (as_i64 next) })
        else pure tt

  -- `if ledger_db.contains_key_image(&key_image)? { … }`: the block of the txo itself is set.
  unfoldable pub mark_spent : Txo → (public image : Bytes) → DbAction (Unit {0})
  mark_spent orphaned public image = do
    seen ← lift (ok_or ledger_db (ledger.contains_key_image image))
    if seen
        then (do
          i ← lift (ok_or ledger_db (ledger.get_tx_out_index_by_public_key (c.compressed public)))
          block ← lift (ok_or ledger_db (ledger.get_block_index_by_tx_out_index i))
          update_row orphaned (λ t. record t { spent_block_index = some (as_i64 block) }))
        else pure tt

  abbrev onetime_image : (account_key : Bytes) (next_subaddress_index : ℕ) (public : Bytes) → Bytes
  onetime_image key next public = c.key_image_from (
      c.recover_onetime_private_key public (c.account_view_private_key key)
        (c.subaddress_spend_private key next))

  -- The round for an account that has its keys.
  unfoldable pub repair :
      (account_key : Bytes) (next_subaddress_index : ℕ) → Txo → DbAction (Unit {0})
  unfolding mark_spent
  repair key next orphaned = do
    target ← lift (ok_or prost_decode (c.decode orphaned.target_key))
    public ← lift (ok_or prost_decode (c.decode orphaned.public_key))
    if c.recover_public_subaddress_spend_key (c.account_view_private_key key) target public
          == c.spend_public_key (c.subaddress key next)
        then (do
          mark_spent orphaned public (onetime_image key next public)
          update_row orphaned λ t. record t {
            subaddress_index = some (as_i64 next);
            key_image = some (c.encode (onetime_image key next public));
          })
        else pure tt

  abbrev orphans_of : (account_id_hex : RowId) → DbAction (List Txo)
  orphans_of a = reads (list_orphaned (some a) none none none none none)

  unfoldable pub next_for_view_only : Account → (comment : String) → DbAction (RowId × ℕ)
  unfolding repair_view_only
  next_for_view_only account comment = do
    key ← lift (ok_or prost_decode (c.decode_view_account_key account.account_key))
    next ← reads (next_subaddress_index account)
    b58 ← create_for_view_only_account c key next comment
    orphaned ← orphans_of account.id
    for_each orphaned (repair_view_only key next)
    pure (b58, next)

  unfoldable pub next_with_key : Account → (comment : String) → DbAction (RowId × ℕ)
  unfolding repair
  next_with_key account comment = do
    key ← lift (ok_or prost_decode (c.decode_account_key account.account_key))
    next ← reads (next_subaddress_index account)
    b58 ← Subaddresses.create c key next comment
    orphaned ← orphans_of account.id
    for_each orphaned (repair key next)
    pure (b58, next)

  unfoldable pub create_next_for_account :
      (account_id_hex : RowId) (comment : String) → DbAction (RowId × ℤ)
  unfolding find_account next_for_view_only next_with_key
  create_next_for_account a comment = do
    account ← reads (find_account a)
    if account.fog_enabled then raise subaddresses_not_supported_for_fog_enabled_accounts else (do
      made ←
          if account.view_only
          then next_for_view_only account comment
          else next_with_key account comment
      pure (made.0, as_i64 made.1))
