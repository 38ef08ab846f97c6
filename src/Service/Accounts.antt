-- ===== src/Service/Accounts.antt =====
-- full-service/src/service/account.rs and full-service/src/service/address.rs. The ledger, the network, the
-- mnemonics and the hardware wallet are parameters.
use Prim.Native.String.{String}
use full_service.Prelude.{
  ℕ, ◌+◌, ◌-◌, ◌%◌, Bool, true, false, not, Option, none, some, List, [], ◌∷◌,
}
use full_service.Prelude.Tests.{◌==◌, if◌then◌else◌, unwrap_or}
use full_service.Prelude.Int.{as_u64, u64_mod}
use full_service.Prelude.Lists.{any}
use full_service.Prelude.Result.{ok, err, ok_or, map_err}
use full_service.Prelude.State.{Action, pure, raise, reads, lift, for_each, ◌>>=◌, ◌>>◌}
use full_service.Db.Schema.{RowId, Bytes, Account, Txo, AssignedSubaddress}
use full_service.Db.Error.{WalletDbError}
use full_service.Db.Tables.{Db, DbAction, DbResult, update}
use full_service.Db.Query.{find_account, find_txo, find_subaddress, page}
use full_service.External.{Crypto}
use full_service.Txos.Write.{update_key_image_by_pubkey}
use full_service.Accounts.{delete}
use full_service.Accounts.Subaddresses.{next_subaddress_index}
use full_service.Accounts.Create.{
  create_from_mnemonic, import_mnemonic, import_legacy, import_view_only,
  import_view_only_from_hardware_wallet_with_fog,
}
use full_service.Accounts.Next.{KeyImageLedger, create_next_for_account}
use full_service.Sync.Defs.{exclusive_transaction, update_next_block_index}

-- `AccountServiceError`, by the cases that the modelled code raises.
pub data AccountServiceError : Type 0 where
  database : WalletDbError → AccountServiceError
  account_is_view_only account_is_not_view_only : RowId → AccountServiceError
  invalid_mnemonic hex_decode base64_decode ledger_db network hardware_wallet : AccountServiceError

abbrev pub AccountAction : Type 0 → Type 0
AccountAction A = Action Db AccountServiceError A

abbrev pub from_db : {A : Type 0} → DbAction A → AccountAction A
from_db m db = (map_err database (m db).0, (m db).1)

-- The database side of `Account` in full-service/src/db/account.rs.
abbrev update_account : RowId → (Account → Account) → DbAction (Unit {0})
update_account i f db = (ok tt, record db { accounts = update (λ a. a.id == i) f db.accounts })

unfoldable pub update_name : Account → (new_name : String) → DbAction (Unit {0})
update_name a name = update_account a.id (λ b. record b { name = name })

unfoldable pub update_require_spend_subaddress_row : Account → Bool → DbAction (Unit {0})
update_require_spend_subaddress_row a require =
    update_account a.id (λ b. record b { require_spend_subaddress = require })

unfoldable pub list_all_accounts : (offset limit : Option ℕ) → Db → List Account
list_all_accounts offset limit db = page offset limit db.accounts

abbrev pub singleton_of : DbResult Account → DbResult (List Account)
singleton_of (ok a) = ok (a ∷ [])
singleton_of (err e) = err e

abbrev pub accounts_of_txo : DbResult Txo → Db → DbResult (List Account)
accounts_of_txo (err e) db = err e
accounts_of_txo (ok t) db = elim t.account_id [
  | none ↦ ok []
  | some a ↦ singleton_of (find_account a db)
]

-- `Account::get_by_txo_id`
unfoldable pub get_by_txo_id : (txo_id_hex : RowId) → Db → DbResult (List Account)
unfolding find_txo find_account
get_by_txo_id i db = accounts_of_txo (find_txo i db) db

-- What the calls ask of the world outside; `none` is an error.
pub record Outside : Type 0 where
  pub is_offline : Bool
  pub num_blocks : Option ℕ
  pub network_block_height : Option ℕ
  pub new_mnemonic : Bytes
  pub mnemonic_from_phrase : String → Option Bytes
  pub hex_decode_entropy : String → Option Bytes
  pub view_account_key_new : (view_private_key spend_public_key : Bytes) → Bytes
  pub check_key_image : Bytes → Option (Option ℕ)
  pub hardware_view_account_key : Option Bytes
  pub hardware_fog_address : (report_url authority_spki : String) → Option Bytes
  pub base64_decode : String → Option Bytes

-- `FogInfo`
pub record FogInfo : Type 0 where
  pub report_url : String
  pub authority_spki : String

-- `TxoSynced`
pub record TxoSynced : Type 0 where
  pub tx_out_public_key : Bytes
  pub key_image : Bytes

module _ (c : Crypto) (out : Outside) where
  abbrev pub exclusive : {A : Type 0} → DbAction A → AccountAction A
  exclusive m = from_db (exclusive_transaction m)

  -- `self.ledger_db.num_blocks()? - 1`, in a build without overflow checks.
  abbrev pub last_local_block : AccountAction ℕ
  last_local_block = do
    n ← lift (ok_or ledger_db out.num_blocks)
    pure ((n + (u64_mod - 1)) % u64_mod)

  -- The height of the network, or of the local ledger where the service is offline.
  abbrev pub block_height : (local : ℕ) → AccountAction ℕ
  block_height local =
      if out.is_offline then pure local else lift (ok_or network out.network_block_height)

  unfoldable pub create_account :
      (name : Option String) (fog_report_url fog_authority_spki : String)
      (require_spend_subaddress : Bool)
      → AccountAction Account
  unfolding create_from_mnemonic find_account exclusive_transaction
  create_account name url spki require = do
    local ← lift (ok_or ledger_db out.num_blocks)
    height ← block_height local
    exclusive (do
      ids ←
          create_from_mnemonic c out.new_mnemonic (some height) (some local) none
            (unwrap_or "" name) url spki require
      reads (find_account ids.0))

  unfoldable pub import_account :
      (mnemonic_phrase : String) (name : Option String)
      (first_block_index next_subaddress_index : Option ℕ)
      (fog_report_url fog_authority_spki : String) (require_spend_subaddress : Bool)
      → AccountAction Account
  unfolding import_mnemonic exclusive_transaction
  import_account phrase name first next url spki require = do
    mnemonic ← lift (ok_or invalid_mnemonic (out.mnemonic_from_phrase phrase))
    block ← last_local_block
    exclusive (import_mnemonic c mnemonic name block first next url spki require)

  unfoldable pub import_account_from_legacy_root_entropy :
      (entropy : String) (name : Option String) (first_block_index next_subaddress_index : Option ℕ)
      (fog_report_url fog_authority_spki : String) (require_spend_subaddress : Bool)
      → AccountAction Account
  unfolding import_legacy exclusive_transaction
  import_account_from_legacy_root_entropy entropy name first next url spki require = do
    bytes ← lift (ok_or hex_decode (out.hex_decode_entropy entropy))
    block ← last_local_block
    exclusive (import_legacy c bytes name block first next url spki require)

  unfoldable pub import_view_only_account :
      (view_private_key spend_public_key : Bytes) (name : Option String)
      (first_block_index next_subaddress_index : Option ℕ) (require_spend_subaddress : Bool)
      → AccountAction Account
  unfolding import_view_only exclusive_transaction
  import_view_only_account view spend name first next require = do
    block ← last_local_block
    exclusive (
        import_view_only c (out.view_account_key_new view spend) name block first next false
          require)

  -- With fog, and without; without fog the request's `require_spend_subaddress` is not passed on.
  abbrev pub import_hardware :
      (view_account_key : Bytes) (name : Option String) (block : ℕ) (first_block_index : Option ℕ)
      (require_spend_subaddress : Bool)
      → Option FogInfo
      → AccountAction Account
  import_hardware key name block first require none =
      exclusive (import_view_only c key name block first none true false)
  import_hardware key name block first require (some fog) = do
    lift (ok_or AccountServiceError.base64_decode (out.base64_decode fog.authority_spki))
    address ←
        lift (ok_or hardware_wallet (out.hardware_fog_address fog.report_url fog.authority_spki))
    exclusive
        (import_view_only_from_hardware_wallet_with_fog c key name block first address require)

  unfoldable pub import_view_only_account_from_hardware_wallet :
      (name : Option String) (first_block_index : Option ℕ) (fog_info : Option FogInfo)
      (require_spend_subaddress : Bool)
      → AccountAction Account
  unfolding import_view_only import_view_only_from_hardware_wallet_with_fog exclusive_transaction
  import_view_only_account_from_hardware_wallet name first fog require = do
    key ← lift (ok_or hardware_wallet out.hardware_view_account_key)
    block ← last_local_block
    import_hardware key name block first require fog

  unfoldable pub resync_account : (account_id : RowId) → AccountAction (Unit {0})
  unfolding find_account update_next_block_index
  resync_account a = from_db (do
    account ← reads (find_account a)
    update_next_block_index account (as_u64 account.first_block_index))

  unfoldable pub get_next_subaddress_index_for_account : (account_id : RowId) → AccountAction ℕ
  unfolding find_account next_subaddress_index
  get_next_subaddress_index_for_account a =
      from_db (do account ← reads (find_account a); reads (next_subaddress_index account))

  unfoldable pub update_account_name : (account_id : RowId) (name : String) → AccountAction Account
  unfolding find_account update_name
  update_account_name a name =
      from_db
        (do account ← reads (find_account a); update_name account name; reads (find_account a))

  unfoldable pub update_require_spend_subaddress :
      (account_id : RowId) (require_spend_subaddress : Bool) → AccountAction Account
  unfolding find_account update_require_spend_subaddress_row
  update_require_spend_subaddress a require = from_db (do
    account ← reads (find_account a)
    update_require_spend_subaddress_row account require
    reads (find_account a))

  abbrev pub sync_txo : TxoSynced → AccountAction (Unit {0})
  sync_txo t = do
    spent ← lift (ok_or ledger_db (out.check_key_image t.key_image))
    from_db (update_key_image_by_pubkey c t.tx_out_public_key t.key_image spent)

  -- The txos are updated one by one, outside any database transaction.
  unfoldable pub sync_account : (account_id : RowId) → List TxoSynced → AccountAction (Unit {0})
  unfolding find_account update_key_image_by_pubkey
  sync_account a synced = do
    account ← from_db (reads (find_account a))
    if not account.view_only then raise (account_is_not_view_only a) else for_each synced sync_txo

  unfoldable pub remove_account : (account_id : RowId) → AccountAction Bool
  unfolding find_account delete exclusive_transaction
  remove_account a = exclusive (do account ← reads (find_account a); delete account.id; pure true)

  unfoldable pub resync_in_progress : Db → Bool
  resync_in_progress db = any (λ a. a.resyncing) db.accounts

  -- full-service/src/service/address.rs
  unfoldable pub assign_address_for_account :
      KeyImageLedger → (account_id : RowId) (metadata : Option String) → DbAction AssignedSubaddress
  unfolding create_next_for_account find_subaddress exclusive_transaction
  assign_address_for_account ledger a metadata = exclusive_transaction (do
    made ← create_next_for_account c ledger a (unwrap_or "" metadata)
    reads (find_subaddress made.0))
