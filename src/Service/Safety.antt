-- ===== src/Service/Safety.antt =====
-- What the submission of a transaction leaves behind, on each of its branches.
use Prim.Native.String.{String}
use full_service.Prelude.{
  ℕ, ◌+◌, ◌%◌, ◌≡◌, ◌⊎◌, refl, ap, ◌∙◌, inl, inr, Bool, true, false, Option, none, some, List, [],
  ◌∷◌, ◌++◌,
}
use full_service.Prelude.Tests.{if◌then◌else◌, unwrap_or, Bool-cases}
use full_service.Prelude.Int.{u64_mod}
use full_service.Prelude.Lists.{length, is_empty}
use full_service.Prelude.Result.{Result, err, ok_or, is_ok}
use full_service.Prelude.State.{raise, continue, ◌>>=◌}
use full_service.Prelude.Keeps.{Keeps, Keeps-pure, Keeps-raise, Keeps-reads, Keeps-if, Keeps-bind}
use full_service.Db.Schema.{RowId}
use full_service.Db.Error.{account_not_found}
use full_service.Db.Tables.{DbAction}
use full_service.Db.Query.{find_account}
use full_service.External.{Crypto}
use full_service.Logs.Proposal.{Tx, TxProposal}
use full_service.Logs.Defs.{log_submitted}
use full_service.Service.Sign.{
  TransactionServiceError, database, offline, connection, node_not_found, no_peers_configured,
}
use full_service.Service.Transaction.{Network}
use full_service.Service.Submit.{
  ServiceState, ServiceAction, Submitted, on_db, get_elem?, pick_peer, propose, log_submission,
  log_for, submit_transaction,
}

module _ (c : Crypto) (network : Network) (p : TxProposal) where
  -- A transaction that is submitted without an account in the wallet.
  module _ (s : ServiceState) (comment : Option String) (a : RowId) (r block : ℕ)
      (online : network.is_offline ≡ false) (peers : is_empty network.responder_ids ≡ false)
      (picked : get_elem? network.responder_ids
          (s.submit_node_offset % length network.responder_ids)
        ≡ some r)
      (connected : network.has_connection r ≡ true)
      (accepted : network.propose_tx r p.tx ≡ some block) where
    -- With a connected peer that accepts the transaction, and an account that is not in the database:
    -- `submit_transaction` fails with `AccountNotFound`, the database is as it was, and the transaction
    -- has been proposed to the network all the same.
    pub submit_transaction-no_account :
        is_ok (find_account a s.db) ≡ false
        → submit_transaction c network p comment (some a) s ≡ (
          err (database (account_not_found a)),
          record s {
            submit_node_offset = (s.submit_node_offset + 1) % u64_mod;
            proposed = s.proposed ++ (r, p.tx) ∷ [];
          },
        )
    unfolding submit_transaction pick_peer propose log_submission ◌>>=◌
    submit_transaction-no_account missing =
        rw online (rw peers (rw picked (rw connected (rw accepted (rw missing refl)))))

-- What has been proposed to the network.
record Proposed (txs : List (ℕ × Tx)) (s : ServiceState) : Type 0 where
  pub same : s.proposed ≡ txs

Keeps-on_db : {A : Type 0} (txs : List (ℕ × Tx)) (m : DbAction A) → Keeps (Proposed txs) (on_db m)
Keeps-on_db txs m = record { at = λ s h. record { same = h.same } }

module _ (c : Crypto) (network : Network) (p : TxProposal) where
  log_submission-Keeps :
      (txs : List (ℕ × Tx)) (comment : String) (block : ℕ) (a : RowId)
      → Keeps (Proposed txs) (log_submission c network p comment block a)
  unfolding log_submission
  log_submission-Keeps txs comment block a = record {
    at = λ s h.
        (Keeps-if (is_ok (find_account a s.db)) _ _
            (Keeps-bind _ _ (Keeps-on_db txs (log_submitted c p block comment a))
              (λ l. Keeps-reads _))
            (Keeps-raise _)).at
          s h;
  }

  log_for-Keeps :
      (txs : List (ℕ × Tx)) (account : Option RowId) (comment : String) (block : ℕ)
      → Keeps (Proposed txs) (log_for c network account p comment block)
  log_for-Keeps txs none comment block = Keeps-pure none
  log_for-Keeps txs (some a) comment block =
      Keeps-bind _ _ (log_submission-Keeps txs comment block a) (λ l. Keeps-pure (some l))

  -- A peer has accepted the transaction, and it is the one transaction that was proposed.
  pub record Accepted (s t : ServiceState) : Type 0 where
    pub responder : ℕ
    pub block : ℕ
    pub connected : network.has_connection responder ≡ true
    pub accepted : network.propose_tx responder p.tx ≡ some block
    pub proposed : t.proposed ≡ s.proposed ++ (responder, p.tx) ∷ []

  abbrev Outcome : ServiceState → ServiceState → Type 0
  Outcome s t = (t.db ≡ s.db) ⊎ Accepted s t

  -- What is left to do once a peer is picked.
  proposed-Outcome :
      (r : ℕ) (comment : Option String) (account : Option RowId) (s : ServiceState)
      → Outcome s
          ((propose c network r p.tx >>= λ block.
              log_for c network account p (unwrap_or "" comment) block)
            s).1
  unfolding propose ◌>>=◌
  proposed-Outcome r comment account s = elim (Bool-cases (network.has_connection r)) [
    | inr e ↦ rw e (inl refl)
    | inl e ↦ rw e (by_answer (network.propose_tx r p.tx) refl e)
  ]
    where
      by_answer :
          (o : Option ℕ)
          → network.propose_tx r p.tx ≡ o
          → network.has_connection r ≡ true
          → Outcome s
              (continue
                (ok_or connection o)
                (λ block. log_for c network account p (unwrap_or "" comment) block)
                (record s { proposed = s.proposed ++ (r, p.tx) ∷ [] })).1
      by_answer none e k = inl refl
      by_answer (some block) e k = inr (record {
        responder = r;
        block = block;
        connected = k;
        accepted = e;
        proposed =
            ((log_for-Keeps (s.proposed ++ (r, p.tx) ∷ []) account (unwrap_or "" comment) block).at
              _ (record { same = refl })).same;
      })

  -- What is left to do once the peers are looked up, with the answer of `pick_peer`.
  abbrev rest_of : (comment : Option String) → Option RowId → ℕ → ServiceAction (Option Submitted)
  rest_of comment account r =
      propose c network r p.tx >>= λ block. log_for c network account p (unwrap_or "" comment) block

  picked-Outcome :
      (peer : Option ℕ) (comment : Option String) (account : Option RowId) (s : ServiceState)
      → Outcome s (continue (ok_or node_not_found peer) (rest_of comment account) s).1
  picked-Outcome none comment account s = inl refl
  picked-Outcome (some r) comment account s = proposed-Outcome r comment account s

  peers-Outcome :
      (none_there : Bool) (peer : Option ℕ) (comment : Option String) (account : Option RowId)
      (s t : ServiceState)
      → t.db ≡ s.db
      → t.proposed ≡ s.proposed
      → Outcome s
          (let picked : Result TransactionServiceError ℕ × ServiceState =
              if none_there then (err no_peers_configured, s) else (ok_or node_not_found peer, t) in
            continue picked.0 (rest_of comment account) picked.1).1
  peers-Outcome true peer comment account s t d q = inl refl
  peers-Outcome false peer comment account s t d q = elim (picked-Outcome peer comment account t) [
    | inl e ↦ inl (e ∙ d)
    | inr a ↦ inr (record {
      responder = a.responder;
      block = a.block;
      connected = a.connected;
      accepted = a.accepted;
      proposed = a.proposed ∙ ap (λ l. l ++ (a.responder, p.tx) ∷ []) q;
    })
  ]

  offline-Outcome :
      (is_offline : Bool) (m : ServiceAction (Option Submitted)) (s : ServiceState)
      → Outcome s (m s).1
      → Outcome s ((if is_offline then raise offline else m) s).1
  offline-Outcome true m s h = inl refl
  offline-Outcome false m s h = h

  -- `submit_transaction` changes the database only if a connected peer has accepted the transaction;
  -- then that transaction, to that peer, is the only one that the call has proposed.
  pub submit_transaction-Accepted :
      (comment : Option String) (account : Option RowId) (s : ServiceState)
      → ((submit_transaction c network p comment account s).1.db ≡ s.db)
        ⊎ Accepted s (submit_transaction c network p comment account s).1
  unfolding submit_transaction pick_peer ◌>>=◌
  submit_transaction-Accepted comment account s =
      offline-Outcome network.is_offline _ s
        (peers-Outcome (is_empty network.responder_ids) _ comment account s _ refl refl)
