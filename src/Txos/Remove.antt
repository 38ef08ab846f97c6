-- ===== src/Txos/Remove.antt =====
-- What the removal of an account does to the txos table (full-service/src/db/txo.rs).
use full_service.Prelude.{Bool, not, ◌&&◌, none}
use full_service.Prelude.Tests.{◌==◌, is_none}
use full_service.Prelude.Lists.{any, filter}
use full_service.Prelude.Result.{ok}
use full_service.Db.Schema.{RowId, Txo}
use full_service.Db.Tables.{Db, DbAction, eq_id, update, delete_txos}

unfoldable pub scrub_account : (account_id_hex : RowId) → DbAction (Unit {0})
scrub_account a db = (
  ok tt,
  record db {
    txos = update (λ t. eq_id t.account_id a) (λ t. record t { account_id = none }) db.txos;
  },
)

-- No transaction log names the txo, and no account holds it.
abbrev pub is_unreferenced : Db → Txo → Bool
is_unreferenced db t =
    not (any (λ i. i.txo_id == t.id) db.transaction_input_txos)
    && (not (any (λ o. o.txo_id == t.id) db.transaction_output_txos) && is_none t.account_id)

unfoldable pub delete_unreferenced : DbAction (Unit {0})
unfolding delete_txos
delete_unreferenced db =
    let gone = λ (i : RowId). any (λ t. t.id == i && is_unreferenced db t) db.txos in
    delete_txos (is_unreferenced db) (record db {
      authenticated_sender_memos = filter (λ m. not (gone m.txo_id)) db.authenticated_sender_memos;
      destination_memos = filter (λ m. not (gone m.txo_id)) db.destination_memos;
    })
