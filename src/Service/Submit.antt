-- ===== src/Service/Submit.antt =====
-- The signing and the submission of a transaction in full-service/src/service/transaction.rs. The state is
-- the wallet database, the counter that picks a peer, and what was proposed to the network so far.
use Prim.Native.String.{String}
use full_service.Prelude.{ℕ, zero, suc, ◌+◌, ◌%◌, Option, none, some, List, [], ◌∷◌, ◌++◌}
use full_service.Prelude.Tests.{if◌then◌else◌, unwrap_or}
use full_service.Prelude.Int.{u64_mod}
use full_service.Prelude.Lists.{length, is_empty}
use full_service.Prelude.Result.{Result, ok, err, ok_or, map_err, is_ok}
use full_service.Prelude.State.{Action, pure, raise, reads, lift, continue, ◌>>=◌, ◌>>◌}
use full_service.Db.Schema.{RowId, TransactionLog}
use full_service.Db.Error.{account_not_found}
use full_service.Db.Tables.{Db, DbAction}
use full_service.Db.Query.{find_account}
use full_service.External.{Crypto}
use full_service.Logs.Proposal.{Tx, TxProposal, UnsignedTxProposal}
use full_service.Logs.Defs.{log_signed, log_submitted}
use full_service.Logs.Reads.{AssociatedTxos, ValueMap, get_associated_txos, value_map}
use full_service.Builder.Rings.{TxOutLedger}
use full_service.Builder.Build.{TxCrates}
use full_service.Service.Sign.{
  TransactionServiceError, ServiceResult, Signers, sign, database, missing_account_on_submit,
  node_not_found, no_peers_configured, offline, connection,
}
use full_service.Service.Transaction.{Network, Limits, BuildRequest, build_transaction}
use full_service.Sync.Defs.{exclusive_transaction}

pub record ServiceState : Type 0 where
  pub db : Db
  pub submit_node_offset : ℕ
  pub proposed : List (ℕ × Tx)

abbrev pub ServiceAction : Type 0 → Type 0
ServiceAction A = Action ServiceState TransactionServiceError A

-- A call on the database, with the conversion of its error.
abbrev pub on_db : {A : Type 0} → DbAction A → ServiceAction A
on_db m s = (map_err database (m s.db).0, record s { db = (m s.db).1 })

-- A database transaction.
abbrev pub exclusive : {A : Type 0} → DbAction A → ServiceAction A
exclusive m s = on_db (exclusive_transaction m) s

abbrev pub Submitted : Type 0
Submitted = TransactionLog × AssociatedTxos × ValueMap

abbrev pub get_elem? {ℓ} : {A : Type ℓ} → List A → ℕ → Option A
get_elem? [] i = none
get_elem? (x ∷ xs) zero = some x
get_elem? (x ∷ xs) (suc i) = get_elem? xs i

module _ (c : Crypto) (network : Network) where
  -- `self.submit_node_offset.fetch_add(1)`, and the peer that it picks.
  unfoldable pub pick_peer : ServiceAction ℕ
  pick_peer s = if is_empty network.responder_ids then (err no_peers_configured, s) else (
    ok_or node_not_found
        (get_elem? network.responder_ids (s.submit_node_offset % length network.responder_ids)),
    record s { submit_node_offset = (s.submit_node_offset + 1) % u64_mod },
  )

  -- `peer_manager.conn(responder_id)?.propose_tx(&tx, retries)?`
  unfoldable pub propose : (responder : ℕ) → Tx → ServiceAction ℕ
  propose r tx s =
      if network.has_connection r
      then (
        ok_or connection (network.propose_tx r tx),
        record s { proposed = s.proposed ++ (r, tx) ∷ [] },
      )
      else (err node_not_found, s)

  -- What is logged of a transaction that was submitted.
  unfoldable pub log_submission :
      TxProposal
      → (comment : String) (block_index : ℕ) (account_id_hex : RowId) → ServiceAction Submitted
  unfolding find_account get_associated_txos value_map
  log_submission p comment block a s =
      (if is_ok (find_account a s.db)
          then (do
            log ← on_db (log_submitted c p block comment a)
            reads (λ t. ok (log, get_associated_txos log t.db, value_map log t.db)))
          else raise (database (account_not_found a)))
        s

  abbrev pub log_for :
      Option RowId
      → TxProposal
      → (comment : String) (block_index : ℕ) → ServiceAction (Option Submitted)
  log_for none p comment block = pure none
  log_for (some a) p comment block = log_submission p comment block a >>= λ l. pure (some l)

  unfoldable pub submit_transaction :
      TxProposal
      → (comment : Option String) (account_id_hex : Option RowId) → ServiceAction (Option Submitted)
  unfolding pick_peer propose log_submission
  submit_transaction p comment account = if network.is_offline then raise offline else (do
    responder ← pick_peer
    block ← propose responder p.tx
    log_for account p (unwrap_or "" comment) block)

  module _ (signers : Signers) (crates : TxCrates) (ledger : TxOutLedger) (limits : Limits) where
    abbrev pub sign_and_log :
        (account_id_hex : RowId) → UnsignedTxProposal → ServiceAction TxProposal
    sign_and_log a u = do
      account ← on_db (reads (find_account a))
      p ← lift (sign c signers u account)
      exclusive (log_signed c p "" a)
      pure p

    -- The result for given draws of random numbers.
    abbrev pub after_build :
        BuildRequest
        → Option (ServiceResult UnsignedTxProposal)
        → ServiceState
        → Option (Result TransactionServiceError TxProposal × ServiceState)
    after_build r none s = none
    after_build r (some u) s = some ((lift u >>= λ v. sign_and_log r.account_id_hex v) s)

    unfoldable pub build_and_sign_transaction :
        (draws : List ℕ)
        → BuildRequest
        → ServiceState
        → Option (Result TransactionServiceError TxProposal × ServiceState)
    unfolding build_transaction find_account sign exclusive_transaction
    build_and_sign_transaction draws r s =
        after_build r (build_transaction c crates ledger network limits draws r s.db) s

    -- `if let Some(..) = self.submit_transaction(..)? { Ok(..) } else { Err(MissingAccountOnSubmit) }`
    abbrev pub submitted_or_missing :
        TxProposal → Option Submitted → ServiceAction (Submitted × TxProposal)
    submitted_or_missing p none = raise missing_account_on_submit
    submitted_or_missing p (some l) = pure (l, p)

    abbrev pub after_sign :
        BuildRequest
        → (comment : Option String)
        → Option (Result TransactionServiceError TxProposal × ServiceState)
        → Option (Result TransactionServiceError (Submitted × TxProposal) × ServiceState)
    after_sign r comment none = none
    after_sign r comment (some signed) = some (
        continue signed.0
          (λ p.
            submit_transaction p comment (some r.account_id_hex) >>= λ l. submitted_or_missing p l)
          signed.1)

    unfoldable pub build_sign_and_submit_transaction :
        (draws : List ℕ)
        → BuildRequest
        → (comment : Option String) → ServiceState
        → Option (Result TransactionServiceError (Submitted × TxProposal) × ServiceState)
    unfolding build_and_sign_transaction submit_transaction
    build_sign_and_submit_transaction draws r comment s =
        after_sign r comment (build_and_sign_transaction draws r s)
