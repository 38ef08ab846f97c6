-- ===== src/Sync/Runs.antt =====
-- Sequences of the calls that write logs on one database, and what they do to the logs that it has.
use Prim.Native.String.{String}
use full_service.Prelude.{ℕ, ◌≡◌, true, some}
use full_service.Db.Schema.{RowId, TransactionLog}
use full_service.Db.Tables.{Db}
use full_service.Db.Query.{find_log}
use full_service.External.{Crypto}
use full_service.Logs.Proposal.{TxProposal, UnsignedTxProposal}
use full_service.Logs.Defs.{status, log_built, log_signed, log_submitted}
use full_service.Logs.Lifecycle.{AllValid, Follows-refl, Follows-trans, leads_to}
use full_service.Logs.Keeping.{Forward}
use full_service.Logs.Operations.{log_built-Forward, log_signed-Forward, log_submitted-Forward}
use full_service.Sync.Defs.{Ledger, sync_account_next_chunk}
use full_service.Sync.LogsForward.{chunk-Forward}

-- One call, whether it returns or fails half way.
pub data Step (c : Crypto) : Db → Db → Type 0 where
  builds : (p : UnsignedTxProposal) (a : RowId) (db : Db) → Step c db (log_built c p a db).1
  signs :
      (p : TxProposal) (comment : String) (a : RowId) (db : Db)
      → Step c db (log_signed c p comment a db).1
  submits :
      (p : TxProposal) (block : ℕ) (comment : String) (a : RowId) (db : Db)
      → Step c db (log_submitted c p block comment a db).1
  syncs :
      (ledger : Ledger) (a : RowId) (db : Db) → Step c db (sync_account_next_chunk c ledger a db).1

pub data Runs (c : Crypto) : Db → Db → Type 0 where
  stay : (db : Db) → Runs c db db
  then : {a b d : Db} → Runs c a b → Step c b d → Runs c a d

Step-Forward :
    (c : Crypto) (db db' : Db)
    → Step c db db'
    → AllValid db.transaction_logs
    → Forward db.transaction_logs db'
Step-Forward c _ _ (builds p a db) v =
    (log_built-Forward db.transaction_logs c p a).at db
      (record { valid = v; follows = Follows-refl _ })
Step-Forward c _ _ (signs p t a db) v =
    (log_signed-Forward db.transaction_logs c p t a).at db
      (record { valid = v; follows = Follows-refl _ })
Step-Forward c _ _ (submits p b t a db) v =
    (log_submitted-Forward db.transaction_logs c p b t a).at db
      (record { valid = v; follows = Follows-refl _ })
Step-Forward c _ _ (syncs ledger a db) v =
    (chunk-Forward db.transaction_logs c ledger a).at db
      (record { valid = v; follows = Follows-refl _ })

runs-Forward :
    (c : Crypto) (db db' : Db)
    → Runs c db db'
    → AllValid db.transaction_logs
    → Forward db.transaction_logs db'
runs-Forward c _ _ (stay db) v = record { valid = v; follows = Follows-refl _ }
runs-Forward c _ _ (then {a} {b} {d} r s) v =
    let f = runs-Forward c a b r v in
    let g = Step-Forward c b d s f.valid in
    record { valid = g.valid; follows = Follows-trans _ _ _ f.follows g.follows }

-- After any sequence of calls that log a transaction as built, signed or submitted or sync a chunk, on
-- a database whose finalised logs are all submitted and not failed,
-- its finalised logs are all submitted and not failed.
pub runs-AllValid :
    (c : Crypto) (db db' : Db)
    → Runs c db db'
    → AllValid db.transaction_logs
    → AllValid db'.transaction_logs
runs-AllValid c db db' r v = (runs-Forward c db db' r v).valid

-- A log of a database whose finalised logs are all submitted and not failed is found again after any
-- sequence of calls that log a transaction as built, signed or submitted or sync a chunk, in a status that its old one leads to: a pending log is never built again, and
-- a log that has succeeded or failed keeps its status.
pub runs_lead :
    (c : Crypto) (db db' : Db)
    → Runs c db db'
    → AllValid db.transaction_logs
    → (i : RowId) (l : TransactionLog) → find_log i db ≡ some l
    → (m : TransactionLog) × (find_log i db' ≡ some m) × (leads_to (status l) (status m) ≡ true)
unfolding find_log
runs_lead c db db' r v i l e = (runs-Forward c db db' r v).follows.at i l e
