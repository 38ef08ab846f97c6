-- ===== src/Accounts/Subaddresses.antt =====
-- full-service/src/db/assigned_subaddress.rs: the creation and the queries of assigned subaddresses, and
-- `next_subaddress_index` of full-service/src/db/account.rs.
use Prim.Native.String.{String}
use full_service.Prelude.{ℕ, ◌+◌, ◌%◌, Bool, true, ◌&&◌, Option, none, some, List, [], ◌∷◌}
use full_service.Prelude.Tests.{◌==◌}
use full_service.Prelude.Int.{ℤ, leb_ℤ, eqb_ℤ, as_i64, as_u64, u64_mod}
use full_service.Prelude.Lists.{filter, find?}
use full_service.Prelude.Order.{sort_by}
use full_service.Prelude.Result.{ok, err, ok_or}
use full_service.Prelude.State.{pure, lift, ◌>>=◌, ◌>>◌}
use full_service.Db.Schema.{RowId, Bytes, Account, AssignedSubaddress}
use full_service.Db.Error.{diesel, DieselError, b58_encode}
use full_service.Db.Tables.{Db, DbAction, DbResult, insert_assigned_subaddress}
use full_service.Db.Query.{page}
use full_service.External.{Crypto}

module _ (c : Crypto) where
  -- `AccountID::from` a public address, an account key and a view account key.
  unfoldable pub account_id_of_address : (address : Bytes) → RowId
  account_id_of_address address = c.digest32 address

  unfoldable pub account_id_of : (account_key : Bytes) → RowId
  unfolding account_id_of_address
  account_id_of key = account_id_of_address (c.subaddress key c.default_subaddress_index)

  unfoldable pub view_account_id_of : (view_account_key : Bytes) → RowId
  unfolding account_id_of_address
  view_account_id_of key = account_id_of_address (c.view_subaddress key c.default_subaddress_index)

  abbrev pub entry_of :
      (account_id : RowId) (address : Bytes) (index : ℕ) (comment : String) (b58 : RowId)
      → AssignedSubaddress
  entry_of a address i comment b58 = record {
    public_address_b58 = b58;
    account_id = a;
    subaddress_index = as_i64 i;
    comment = comment;
    spend_public_key = c.to_bytes (c.spend_public_key address);
  }

  -- What the three ways to create an entry have in common.
  abbrev pub insert_entry :
      (account_id : RowId) (address : Bytes) (index : ℕ) (comment : String) → DbAction RowId
  insert_entry a address i comment = do
    b58 ← lift (ok_or b58_encode (c.b58_encode_public_address address))
    insert_assigned_subaddress (entry_of a address i comment b58)
    pure b58

  unfoldable pub create : (account_key : Bytes) (index : ℕ) (comment : String) → DbAction RowId
  unfolding account_id_of
  create key i comment = insert_entry (account_id_of key) (c.subaddress key i) i comment

  unfoldable pub create_for_view_only_account :
      (view_account_key : Bytes) (index : ℕ) (comment : String) → DbAction RowId
  unfolding view_account_id_of
  create_for_view_only_account key i comment =
      insert_entry (view_account_id_of key) (c.view_subaddress key i) i comment

  unfoldable pub create_for_view_only_fog_account :
      (view_account_key : Bytes) (index : ℕ) (public_address : Bytes) (comment : String)
      → DbAction RowId
  unfolding view_account_id_of
  create_for_view_only_fog_account key i address comment =
      insert_entry (view_account_id_of key) address i comment

unfoldable pub get_for_account_by_index :
    (account_id_hex : RowId) (index : ℤ) → Db → DbResult AssignedSubaddress
get_for_account_by_index a i db =
    ok_or (diesel DieselError.not_found)
      (find? (λ s. s.account_id == a && eqb_ℤ s.subaddress_index i) db.assigned_subaddresses)

abbrev of_account : Option RowId → AssignedSubaddress → Bool
of_account none s = true
of_account (some a) s = s.account_id == a

unfoldable pub list_all :
    (account_id : Option RowId) (offset limit : Option ℕ) → Db → List AssignedSubaddress
list_all a offset limit db = page offset limit (filter (of_account a) db.assigned_subaddresses)

-- `change_subaddress` and `main_subaddress` of full-service/src/db/account.rs.
unfoldable pub change_subaddress : Crypto → Account → Db → DbResult AssignedSubaddress
unfolding get_for_account_by_index
change_subaddress c a db = get_for_account_by_index a.id (as_i64 c.change_subaddress_index) db

unfoldable pub main_subaddress : Crypto → Account → Db → DbResult AssignedSubaddress
unfolding get_for_account_by_index
main_subaddress c a db = get_for_account_by_index a.id (as_i64 c.default_subaddress_index) db

-- `ORDER BY subaddress_index DESC`
abbrev pub index_desc : AssignedSubaddress → AssignedSubaddress → Bool
index_desc s t = leb_ℤ t.subaddress_index s.subaddress_index

-- `highest as u64 + 1`, in a build without overflow checks.
abbrev pub one_above : List AssignedSubaddress → DbResult ℕ
one_above [] = err (diesel DieselError.not_found)
one_above (s ∷ r) = ok ((as_u64 s.subaddress_index + 1) % u64_mod)

unfoldable pub next_subaddress_index : Account → Db → DbResult ℕ
next_subaddress_index a db =
    one_above (sort_by index_desc (filter (λ s. s.account_id == a.id) db.assigned_subaddresses))
