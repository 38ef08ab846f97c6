-- ===== src/Tests/AccountExamples.antt =====
-- Imports of accounts and new subaddresses on the small wallet, and each theorem on them at one input.
use full_service.Prelude.{◌≡◌, refl, true, false, none, some, ◌∷◌, arith}
use full_service.Prelude.Tests.{◌==◌}
use full_service.Prelude.Int.{pos, negsuc, as_i64, as_u64}
use full_service.Prelude.Lists.{any}
use full_service.Prelude.Order.{sort_by, insert_by}
use full_service.Prelude.Result.{ok}
use full_service.Prelude.State.{for_each, ◌>>=◌}
use full_service.Db.Schema.{Account, Txo}
use full_service.Db.Tables.{Db, insert_account, insert_assigned_subaddress}
use full_service.Db.Query.{find_account}
use full_service.Txos.List.{list_orphaned}
use full_service.Accounts.Subaddresses.{
  account_id_of_address, account_id_of, view_account_id_of, create_for_view_only_account,
  next_subaddress_index,
}
use full_service.Accounts.Create.{refuse_existing, import_view_only, new_view_only_account}
use full_service.Accounts.Indices.{maximum, entries_of}
use full_service.Accounts.Import.{IsViewOnlyAccount, IsImported, import_view_only_lem}
use full_service.Accounts.Next.{
  KeyImageLedger, repair_view_only, next_for_view_only, create_next_for_account,
}
use full_service.Accounts.NextIndex.{next_subaddress_index-import_view_only}
use full_service.Accounts.NextAddress.{IsKeyed, next_subaddress_index-create_next}
use full_service.Tests.Wallet.{crypto, wallet, txo_of}

-- A txo of the account with the view key 12, sent to its subaddress 5 before that is assigned.
abbrev orphaned : Txo
orphaned = record (txo_of 105 9) {
  account_id = some 12;
  target_key = 17;
  subaddress_index = none;
  key_image = none;
}

abbrev before : Db
before = record wallet { txos = orphaned ∷ wallet.txos }

abbrev viewed : Account
viewed = new_view_only_account crypto 12 (some "viewed") 3 (some 2) false true false

abbrev imported : Db
imported = (import_view_only crypto 12 (some "viewed") 3 (some 2) (some 5) true false before).1

import_result :
    import_view_only crypto 12 (some "viewed") 3 (some 2) (some 5) true false before
    ≡ (ok viewed, imported)
unfolding import_view_only refuse_existing create_for_view_only_account insert_account
    insert_assigned_subaddress find_account view_account_id_of account_id_of_address as_i64 as_u64
    ◌>>=◌ for_each
import_result = refl

import_view_only_lem_example :
    IsViewOnlyAccount crypto 12 (some "viewed") 3 (some 2) true false viewed
    × IsImported crypto 12 5 viewed before imported
import_view_only_lem_example =
    import_view_only_lem crypto 12 (some 2) (some 5) false before (some "viewed") 3 true viewed
      imported (omega arith) import_result

change_is_negative : as_i64 crypto.change_subaddress_index ≡ negsuc 1
unfolding as_i64
change_is_negative = refl

fresh : any (λ s. s.account_id == view_account_id_of crypto 12) before.assigned_subaddresses ≡ false
unfolding view_account_id_of account_id_of_address
fresh = refl

next_subaddress_index-import_view_only_example : next_subaddress_index viewed imported ≡ ok 5
next_subaddress_index-import_view_only_example =
    next_subaddress_index-import_view_only crypto 1 refl change_is_negative 12 5 (omega arith)
      (some "viewed") 3 (some 2) true false before imported viewed fresh import_result

abbrev spent_ledger : KeyImageLedger
spent_ledger = record {
  contains_key_image = λ b. some false;
  get_tx_out_index_by_public_key = λ b. some b;
  get_block_index_by_tx_out_index = λ i. some i;
}

abbrev with_next : Db
with_next = (create_next_for_account crypto spent_ledger 12 "shop" imported).1

-- The txo that was sent to it is found, and is repaired.
next_result :
    create_next_for_account crypto spent_ledger 12 "shop" imported ≡ (ok (17, pos 5), with_next)
unfolding create_next_for_account next_for_view_only repair_view_only next_subaddress_index
    list_orphaned sort_by insert_by import_view_only refuse_existing create_for_view_only_account
    insert_account insert_assigned_subaddress find_account view_account_id_of account_id_of_address
    as_i64 as_u64 ◌>>=◌ for_each
next_result = refl

viewed_found : find_account 12 imported ≡ ok viewed
unfolding find_account import_view_only refuse_existing create_for_view_only_account insert_account
    insert_assigned_subaddress view_account_id_of account_id_of_address as_i64 as_u64 ◌>>=◌ for_each
viewed_found = refl

largest_is_four : maximum (entries_of viewed.id imported.assigned_subaddresses) ≡ some (pos 4)
unfolding find_account import_view_only refuse_existing create_for_view_only_account insert_account
    insert_assigned_subaddress view_account_id_of account_id_of_address as_i64 as_u64 ◌>>=◌ for_each
largest_is_four = refl

viewed-IsKeyed : IsKeyed crypto viewed
unfolding view_account_id_of account_id_of account_id_of_address
viewed-IsKeyed = record { by_key = λ key h. ground arith; by_view_key = λ key h. ground arith }

next_subaddress_index-create_next_example :
    (pos 5 ≡ pos 5) × (next_subaddress_index viewed with_next ≡ ok 6)
next_subaddress_index-create_next_example =
    next_subaddress_index-create_next crypto spent_ledger viewed viewed-IsKeyed "shop" imported 12
      17 (pos 5) with_next 4 viewed_found largest_is_four (omega arith) next_result
