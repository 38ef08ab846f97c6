-- ===== src/Txos/List.antt =====
-- The list queries of full-service/src/db/txo.rs, `Txo::list` to `Txo::list_pending`. DISTINCT over
-- the columns of txos, which hold the primary key, leaves one row for a txo that some joined row
-- lets pass.
use full_service.Prelude.{ℕ, Bool, true, false, not, ◌&&◌, ◌||◌, Option, none, some, List, []}
use full_service.Prelude.Tests.{is_none, is_some}
use full_service.Prelude.Lists.{filter, any}
use full_service.Prelude.Order.{sort_by}
use full_service.Prelude.Result.{ok, ◌>>=◌}
use full_service.Db.Schema.{RowId, Txo, AssignedSubaddress, TransactionLog}
use full_service.Db.Tables.{Db, DbResult, eq_id}
use full_service.Db.Query.{
  by_account, by_subaddress, by_token, by_min, by_max, received_desc, page, find_subaddress,
  resolve_subaddress, input_rows, OutputRow, output_rows,
}

pub data TxoStatus : Type 0 where
  created orphaned pending secreted spent unspent unverified : TxoStatus

-- `transaction_logs.id IS NULL OR failed OR (id IS NOT NULL AND submitted_block_index IS NULL)`
abbrev pub releases_input : Option TransactionLog → Bool
releases_input none = true
releases_input (some l) = l.failed || is_none l.submitted_block_index

-- `NOT failed AND finalized_block_index IS NULL AND submitted_block_index IS NOT NULL`
abbrev pub log_is_pending : TransactionLog → Bool
log_is_pending l =
    not l.failed && (is_none l.finalized_block_index && is_some l.submitted_block_index)

abbrev pub row_is_pending : Option TransactionLog → Bool
row_is_pending none = false
row_is_pending (some l) = log_is_pending l

-- `failed OR (NOT failed AND finalized_block_index IS NULL AND submitted_block_index IS NULL)`
abbrev pub log_is_unsent : TransactionLog → Bool
log_is_unsent l =
    l.failed
    || (not l.failed && (is_none l.finalized_block_index && is_none l.submitted_block_index))

-- `NOT (transaction_logs.account_id = txos.account_id)`: NULL, hence dropped, where the txo has no
-- account.
abbrev pub differs_from : RowId → Option RowId → Bool
differs_from a none = false
differs_from a (some b) = not (eq_id (some b) a)

abbrev pub row_is_secreted : Txo → OutputRow → Bool
row_is_secreted t r =
    not r.output.is_change
    && (not r.log.failed
        && (is_some r.log.finalized_block_index
            && (is_some r.log.submitted_block_index && differs_from r.log.account_id t.account_id)))

-- The filters of each query, with the subaddress looked up.
module _ (db : Db) (a : Option RowId) (s : Option AssignedSubaddress) (k min max : Option ℕ) where
  -- The filters by the optional arguments.
  abbrev pub asked_for : Txo → Bool
  asked_for t =
      by_account a t && (by_subaddress s t && (by_token k t && (by_min min t && by_max max t)))

  abbrev pub is_unspent : Txo → Bool
  is_unspent t =
      any releases_input (input_rows db t)
      && (is_some t.received_block_index
          && (is_some t.key_image && (is_none t.spent_block_index && asked_for t)))

  abbrev pub is_unverified : Txo → Bool
  is_unverified t =
      any releases_input (input_rows db t)
      && (is_some t.received_block_index
          && (is_some t.subaddress_index && (is_none t.key_image && asked_for t)))

  abbrev pub is_spent : Txo → Bool
  is_spent t = is_some t.spent_block_index && asked_for t

  abbrev pub is_pending : Txo → Bool
  is_pending t =
      any row_is_pending (input_rows db t)
      && (is_some t.subaddress_index && (is_none t.spent_block_index && asked_for t))

  abbrev pub is_orphaned : Txo → Bool
  is_orphaned t = is_none t.subaddress_index && (is_none t.key_image && asked_for t)

-- `ORDER BY received_block_index DESC`, then `OFFSET` and `LIMIT`.
abbrev pub ordered_page : (offset limit : Option ℕ) → List Txo → List Txo
ordered_page o l ts = page o l (sort_by received_desc ts)

module _ (account_id_hex assigned_subaddress_b58 : Option RowId)
    (token_id min max offset limit : Option ℕ) (db : Db) where
  unfoldable pub list_unspent : DbResult (List Txo)
  list_unspent = resolve_subaddress assigned_subaddress_b58 db >>= λ s.
      ok (
        ordered_page offset limit
          (filter (is_unspent db account_id_hex s token_id min max) db.txos))

  unfoldable pub list_unverified : DbResult (List Txo)
  list_unverified = resolve_subaddress assigned_subaddress_b58 db >>= λ s. ok (
      ordered_page offset limit
        (filter (is_unverified db account_id_hex s token_id min max) db.txos))

  unfoldable pub list_spent : DbResult (List Txo)
  list_spent = resolve_subaddress assigned_subaddress_b58 db >>= λ s.
      ok
        (ordered_page offset limit (filter (is_spent db account_id_hex s token_id min max) db.txos))

  unfoldable pub list_pending : DbResult (List Txo)
  list_pending = resolve_subaddress assigned_subaddress_b58 db >>= λ s.
      ok (
        ordered_page offset limit
          (filter (is_pending db account_id_hex s token_id min max) db.txos))

unfoldable pub list_orphaned :
    (account_id_hex : Option RowId) (token_id min max offset limit : Option ℕ)
    → Db
    → DbResult (List Txo)
list_orphaned a k min max o l db =
    ok (ordered_page o l (filter (is_orphaned db a none k min max) db.txos))

abbrev log_account : Option RowId → TransactionLog → Bool
log_account none l = true
log_account (some a) l = eq_id (some l.account_id) a

unfoldable pub list_created : Option RowId → Db → DbResult (List Txo)
list_created account_id_hex db = ok (
    filter
      (λ t.
        is_none t.key_image
        && (is_none t.spent_block_index
            && (is_none t.subaddress_index
                && (is_none t.received_block_index
                    && any (λ r. log_is_unsent r.log && log_account account_id_hex r.log)
                        (output_rows db t)))))
      db.txos)

unfoldable pub list_secreted : Option RowId → Db → DbResult (List Txo)
list_secreted account_id_hex db = ok (
    filter
      (λ t. any (λ r. row_is_secreted t r && log_account account_id_hex r.log) (output_rows db t))
      db.txos)

-- What `match status` dispatches to, in `list`, `list_for_account` and `list_for_address`.
abbrev list_by_status :
    TxoStatus
    → Option RowId
    → Option RowId
    → (min max offset limit token_id : Option ℕ) → Db
    → DbResult (List Txo)
list_by_status unverified a b min max o l k = list_unverified a b k min max o l
list_by_status unspent a b min max o l k = list_unspent a b k min max o l
list_by_status pending a b min max o l k = list_pending a b k min max o l
list_by_status spent a b min max o l k = list_spent a b k min max o l
list_by_status orphaned a b min max o l k = list_orphaned a k min max o l
list_by_status created a b min max o l k = list_created a
list_by_status secreted a b min max o l k = list_secreted a

unfoldable pub list :
    Option TxoStatus → (min max offset limit token_id : Option ℕ) → Db → DbResult (List Txo)
list (some s) min max o l k db = list_by_status s none none min max o l k db
list none min max o l k db = ok (
    page o l (
      sort_by received_desc (filter (λ t. by_token k t && (by_min min t && by_max max t)) db.txos)))

unfoldable pub list_for_account :
    RowId → Option TxoStatus → (min max offset limit token_id : Option ℕ) → Db → DbResult (List Txo)
list_for_account a (some s) min max o l k db = list_by_status s (some a) none min max o l k db
list_for_account a none min max o l k db = ok (
    page o l (
      sort_by received_desc (
        filter (λ t. by_account (some a) t && (by_token k t && (by_min min t && by_max max t)))
          db.txos)))

unfoldable pub list_for_address :
    RowId → Option TxoStatus → (min max offset limit token_id : Option ℕ) → Db → DbResult (List Txo)
list_for_address b (some unverified) min max o l k db =
    list_unverified none (some b) k min max o l db
list_for_address b (some unspent) min max o l k db = list_unspent none (some b) k min max o l db
list_for_address b (some pending) min max o l k db = list_pending none (some b) k min max o l db
list_for_address b (some spent) min max o l k db = list_spent none (some b) k min max o l db
list_for_address b (some orphaned) min max o l k db = ok []
list_for_address b (some created) min max o l k db = ok []
list_for_address b (some secreted) min max o l k db = ok []
list_for_address b none min max o l k db = find_subaddress b db >>= λ s. ok (
    sort_by received_desc (
      filter (λ t. by_subaddress (some s) t && (by_token k t && (by_min min t && by_max max t)))
        db.txos))
