-- ===== src/Accounts/Create.antt =====
-- full-service/src/db/account.rs: the creation and import of accounts, with their first subaddresses.
use Prim.Native.String.{String}
use text.Mathlib.Text.{◌==◌ as str_eq}
use full_service.Prelude.{ℕ, Bool, true, false, not, Option, none, some}
use full_service.Prelude.Tests.{if◌then◌else◌, unwrap_or}
use full_service.Prelude.Int.{ℤ, pos, as_i64, as_u64}
use full_service.Prelude.Lists.{range}
use full_service.Prelude.Result.{is_ok, ok_or}
use full_service.Prelude.State.{pure, raise, reads, lift, for_each, ◌>>=◌, ◌>>◌}
use full_service.Db.Schema.{RowId, Bytes, Account}
use full_service.Db.Error.{account_already_exists, base64_decode}
use full_service.Db.Tables.{DbAction, insert_account}
use full_service.Db.Query.{find_account}
use full_service.External.{Crypto}
use full_service.Accounts.Subaddresses.{
  account_id_of, view_account_id_of, create_for_view_only_account, create_for_view_only_fog_account,
}
use full_service.Accounts.Subaddresses

-- full-service/src/util/constants.rs
abbrev pub default_first_block_index : ℕ
default_first_block_index = 0

abbrev pub root_entropy_key_derivation_version : ℤ
root_entropy_key_derivation_version = pos 1

abbrev pub mnemonic_key_derivation_version : ℤ
mnemonic_key_derivation_version = pos 2

abbrev pub default_next_subaddress_index : ℕ
default_next_subaddress_index = 2

abbrev pub legacy_change_subaddress_index : ℕ
legacy_change_subaddress_index = 1

-- `Option::map` of the cast.
abbrev pub as_i64? : Option ℕ → Option ℤ
as_i64? none = none
as_i64? (some x) = some (as_i64 x)

-- `next_subaddress_index.unwrap_or(DEFAULT_NEXT_SUBADDRESS_INDEX) as i64`, and that `as u64`.
abbrev pub end_of_subaddresses : Option ℕ → ℕ
end_of_subaddresses next = as_u64 (as_i64 (unwrap_or default_next_subaddress_index next))

-- `if Account::get(&account_id, conn).is_ok() { return Err(AccountAlreadyExists) }`
unfoldable pub refuse_existing : (account_id : RowId) → DbAction (Unit {0})
unfolding find_account
refuse_existing i db =
    (if is_ok (find_account i db) then raise (account_already_exists i) else pure tt) db

abbrev pub discard : {A : Type 0} → DbAction A → DbAction (Unit {0})
discard m = m >> pure tt

module _ (c : Crypto) where
  abbrev pub new_account :
      (entropy : Bytes) (version : ℤ) (account_key : Bytes) (first import : Option ℕ)
      (name : String) (fog_enabled require_spend_subaddress : Bool)
      → Account
  new_account entropy version key first import name fog require = record {
    id = account_id_of c key;
    account_key = c.encode_account_key key;
    entropy = some entropy;
    key_derivation_version = version;
    first_block_index = as_i64 (unwrap_or default_first_block_index first);
    next_block_index = as_i64 (unwrap_or default_first_block_index first);
    import_block_index = as_i64? import;
    name = name;
    fog_enabled = fog;
    view_only = false;
    managed_by_hardware_wallet = false;
    resyncing = false;
    require_spend_subaddress = require;
  }

  -- The subaddresses of an account without fog, after the main and the change one.
  unfoldable pub create_legacy_subaddresses :
      (account_key : Bytes) (next : Option ℕ) → DbAction (Unit {0})
  create_legacy_subaddresses key next = do
    Subaddresses.create c key legacy_change_subaddress_index "Legacy Change"
    for_each (range default_next_subaddress_index (end_of_subaddresses next))
        (λ i. discard (Subaddresses.create c key i ""))

  unfoldable pub create :
      (entropy : Bytes) (key_derivation_version : ℤ) (account_key : Bytes)
      (first_block_index import_block_index next_subaddress_index : Option ℕ) (name : String)
      (fog_enabled require_spend_subaddress : Bool)
      → DbAction (RowId × RowId)
  unfolding refuse_existing create_legacy_subaddresses
  create entropy version key first import next name fog require = do
    refuse_existing (account_id_of c key)
    insert_account (new_account entropy version key first import name fog require)
    main ← Subaddresses.create c key c.default_subaddress_index "Main"
    Subaddresses.create c key c.change_subaddress_index "Change"
    if fog then pure tt else create_legacy_subaddresses key next
    pure (account_id_of c key, main)

  -- `!fog_report_url.is_empty()`
  abbrev pub fog_enabled_by : (fog_report_url : String) → Bool
  fog_enabled_by url = not (str_eq url "")

  unfoldable pub create_from_mnemonic :
      (mnemonic : Bytes) (first_block_index import_block_index next_subaddress_index : Option ℕ)
      (name fog_report_url fog_authority_spki : String) (require_spend_subaddress : Bool)
      → DbAction (RowId × RowId)
  unfolding create
  create_from_mnemonic mnemonic first import next name url spki require = do
    authority ← lift (ok_or base64_decode (c.base64_decode spki))
    create (c.mnemonic_entropy mnemonic) mnemonic_key_derivation_version
        (c.with_fog (c.slip10_account_key mnemonic) url authority) first import next name
        (fog_enabled_by url) require

  unfoldable pub create_from_root_entropy :
      (entropy : Bytes) (first_block_index import_block_index next_subaddress_index : Option ℕ)
      (name fog_report_url fog_authority_spki : String) (require_spend_subaddress : Bool)
      → DbAction (RowId × RowId)
  unfolding create
  create_from_root_entropy entropy first import next name url spki require = do
    authority ← lift (ok_or base64_decode (c.base64_decode spki))
    create entropy root_entropy_key_derivation_version
        (c.root_identity_account_key entropy url authority) first import next name
        (fog_enabled_by url) require

  -- `import`
  unfoldable pub import_mnemonic :
      (mnemonic : Bytes) (name : Option String) (import_block_index : ℕ)
      (first_block_index next_subaddress_index : Option ℕ)
      (fog_report_url fog_authority_spki : String) (require_spend_subaddress : Bool)
      → DbAction Account
  unfolding create_from_mnemonic
  import_mnemonic mnemonic name import first next url spki require = do
    ids ←
        create_from_mnemonic mnemonic first (some import) next (unwrap_or "" name) url spki require
    reads (find_account ids.0)

  unfoldable pub import_legacy :
      (root_entropy : Bytes) (name : Option String) (import_block_index : ℕ)
      (first_block_index next_subaddress_index : Option ℕ)
      (fog_report_url fog_authority_spki : String) (require_spend_subaddress : Bool)
      → DbAction Account
  unfolding create_from_root_entropy
  import_legacy entropy name import first next url spki require = do
    ids ←
        create_from_root_entropy entropy first (some import) next (unwrap_or "" name) url spki
          require
    reads (find_account ids.0)

  abbrev pub new_view_only_account :
      (view_account_key : Bytes) (name : Option String) (import : ℕ) (first : Option ℕ)
      (fog_enabled managed_by_hardware_wallet require_spend_subaddress : Bool)
      → Account
  new_view_only_account key name import first fog managed require = record {
    id = view_account_id_of c key;
    account_key = c.encode_view_account_key key;
    entropy = none;
    key_derivation_version = mnemonic_key_derivation_version;
    first_block_index = as_i64 (unwrap_or default_first_block_index first);
    next_block_index = as_i64 (unwrap_or default_first_block_index first);
    import_block_index = some (as_i64 import);
    name = unwrap_or "" name;
    fog_enabled = fog;
    view_only = true;
    managed_by_hardware_wallet = managed;
    resyncing = false;
    require_spend_subaddress = require;
  }

  unfoldable pub import_view_only :
      (view_account_key : Bytes) (name : Option String) (import_block_index : ℕ)
      (first_block_index next_subaddress_index : Option ℕ)
      (managed_by_hardware_wallet require_spend_subaddress : Bool)
      → DbAction Account
  unfolding refuse_existing
  import_view_only key name import first next managed require = do
    refuse_existing (view_account_id_of c key)
    insert_account (new_view_only_account key name import first false managed require)
    create_for_view_only_account c key c.default_subaddress_index "Main"
    create_for_view_only_account c key legacy_change_subaddress_index "Legacy Change"
    create_for_view_only_account c key c.change_subaddress_index "Change"
    for_each (range default_next_subaddress_index (end_of_subaddresses next))
        (λ i. discard (create_for_view_only_account c key i ""))
    reads (find_account (view_account_id_of c key))

  unfoldable pub import_view_only_from_hardware_wallet_with_fog :
      (view_account_key : Bytes) (name : Option String) (import_block_index : ℕ)
      (first_block_index : Option ℕ) (default_public_address : Bytes)
      (require_spend_subaddress : Bool)
      → DbAction Account
  unfolding refuse_existing
  import_view_only_from_hardware_wallet_with_fog key name import first address require = do
    refuse_existing (view_account_id_of c key)
    insert_account (new_view_only_account key name import first true true require)
    create_for_view_only_fog_account c key c.default_subaddress_index address "Main"
    create_for_view_only_account c key c.change_subaddress_index "Change"
    reads (find_account (view_account_id_of c key))
