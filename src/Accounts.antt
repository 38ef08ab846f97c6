-- ===== src/Accounts.antt =====
-- full-service/src/db/account.rs: accounts and their subaddresses; here the removal of an account with all
-- that belongs to it.
pub mod Delete
pub mod Subaddresses
pub mod Create
pub mod Next
pub mod Initial
pub mod Import
pub mod Indices
pub mod NextIndex
pub mod NextAddress
use full_service.Prelude.{not, List}
use full_service.Prelude.Tests.{◌==◌}
use full_service.Prelude.Lists.{filter}
use full_service.Prelude.Result.{ok}
use full_service.Prelude.State.{◌>>=◌, ◌>>◌}
use full_service.Db.Schema.{RowId}
use full_service.Db.Tables.{DbAction, delete_account_row}
use full_service.Txos.Remove.{scrub_account, delete_unreferenced}
use full_service.Logs.Delete.{delete_all_for_account}

-- `AssignedSubaddress::delete_all` of full-service/src/db/assigned_subaddress.rs.
unfoldable pub delete_all : (account_id_hex : RowId) → DbAction (Unit {0})
delete_all a db = (
  ok tt,
  record db {
    assigned_subaddresses = filter (λ s. not (s.account_id == a)) db.assigned_subaddresses;
  },
)

unfoldable pub delete : (id : RowId) → DbAction (Unit {0})
delete i = do
  delete_all_for_account i
  delete_all i
  scrub_account i
  delete_account_row i
  delete_unreferenced
