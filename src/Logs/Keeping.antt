-- ===== src/Logs/Keeping.antt =====
-- Every operation on transactions keeps the logs valid and moves each of them forward only.
use Prim.Native.String.{String}
use full_service.Prelude.{
  ℕ, ◌≡◌, refl, sym, subst, Bool, true, Option, none, some, List, arith, inl, inr,
}
use full_service.Prelude.Int.{ℤ}
use full_service.Prelude.Tests.{Bool-cases, ◌==◌}
use full_service.Prelude.State.{raise}
use full_service.Prelude.Keeps.{Keeps, keeps_rules, Keeps-raise, Keeps-pure, Keeps-bind, Keeps-lift}
use full_service.Db.Schema.{
  RowId, Bytes, Txo, TransactionLog, TransactionInputTxo, TransactionOutputTxo,
  AuthenticatedSenderMemo, DestinationMemo,
}
use full_service.Db.Error.{WalletDbError, memo_type_error}
use full_service.Db.Tables.{
  Db, DbAction, update, has_log, has_account, insert_txo, insert_transaction_log,
  insert_transaction_input_txo, insert_transaction_output_txo, insert_authenticated_sender_memo,
  insert_destination_memo,
}
use full_service.External.{
  Crypto, MemoType, authenticated_sender, authenticated_sender_with_payment_intent_id,
  authenticated_sender_with_payment_request_id, destination, destination_with_payment_request_id,
  destination_with_payment_intent_id, other,
}
use full_service.Txos.Memo.{
  store_memo, add_memo_to_database, add_authenticated_memo_to_database,
  add_destination_memo_to_database,
}
use full_service.Txos.Write.{OutputTxo, update_key_image, create_new_output, add_output_memo}
use full_service.Logs.Defs.{
  status, update_comment, update_submitted_block_index, update_tx_and_tombstone_block_index,
  awaits_txo, exceeds_tombstone, update_pending_associated_with_txo_to_succeeded,
  update_pending_exceeding_tombstone_block_index_to_failed,
}
use full_service.Logs.Lifecycle.{
  LogIsValid, AllValid, AllValid-update, AllValid-append, Follows, Follows-update, Follows-append,
  Follows-trans, leads_to,
}

module _ (before : List TransactionLog) where
  -- The logs are valid, and each log of `before` has only moved forward.
  pub record Forward (db : Db) : Type 0 where
    pub valid : AllValid db.transaction_logs
    pub follows : Follows before db.transaction_logs

  -- A statement on other tables.
  same_logs :
      {A : Type 0} (m : DbAction A)
      → ((db : Db) → (m db).1.transaction_logs ≡ db.transaction_logs)
      → Keeps Forward m
  same_logs m e = record {
    at = λ db h. record {
      valid = subst AllValid (sym (e db)) h.valid;
      follows = subst (Follows before) (sym (e db)) h.follows;
    };
  }

  insert_txo-Forward : (t : Txo) → Keeps Forward (insert_txo t)
  unfolding insert_txo
  insert_txo-Forward t = same_logs _ (λ db. ground arith)

  pub input-Forward : (i : TransactionInputTxo) → Keeps Forward (insert_transaction_input_txo i)
  unfolding insert_transaction_input_txo
  input-Forward i = same_logs _ (λ db. ground arith)

  output-Forward : (o : TransactionOutputTxo) → Keeps Forward (insert_transaction_output_txo o)
  unfolding insert_transaction_output_txo
  output-Forward o = same_logs _ (λ db. ground arith)

  sender_memo-Forward :
      (m : AuthenticatedSenderMemo) → Keeps Forward (insert_authenticated_sender_memo m)
  unfolding insert_authenticated_sender_memo
  sender_memo-Forward m = same_logs _ (λ db. ground arith)

  destination_memo-Forward : (m : DestinationMemo) → Keeps Forward (insert_destination_memo m)
  unfolding insert_destination_memo
  destination_memo-Forward m = same_logs _ (λ db. ground arith)

  ruleset memo_rules = (keeps_rules, sender_memo-Forward, destination_memo-Forward)

  authenticated-Forward :
      (t h : RowId) (r i : Option ℤ) → Keeps Forward (add_authenticated_memo_to_database t h r i)
  unfolding add_authenticated_memo_to_database
  authenticated-Forward t h r i = sender_memo-Forward _

  destination-Forward :
      (t h : RowId) (n f o : ℤ) (r i : Option ℤ)
      → Keeps Forward (add_destination_memo_to_database t h n f o r i)
  unfolding add_destination_memo_to_database
  destination-Forward t h n f o r i = destination_memo-Forward _

  store_memo-Forward : (i : RowId) (m : MemoType) → Keeps Forward (store_memo i m)
  unfolding store_memo
  store_memo-Forward i (authenticated_sender h) = authenticated-Forward _ _ _ _
  store_memo-Forward i (authenticated_sender_with_payment_intent_id h p) =
      authenticated-Forward _ _ _ _
  store_memo-Forward i (authenticated_sender_with_payment_request_id h p) =
      authenticated-Forward _ _ _ _
  store_memo-Forward i (destination h n f o) = destination-Forward _ _ _ _ _ _ _
  store_memo-Forward i (destination_with_payment_request_id h n f o p) =
      destination-Forward _ _ _ _ _ _ _
  store_memo-Forward i (destination_with_payment_intent_id h n f o p) =
      destination-Forward _ _ _ _ _ _ _
  store_memo-Forward i other = Keeps-pure _

  memo-Forward : (c : Crypto) (i : RowId) (p : Bytes) → Keeps Forward (add_memo_to_database c i p)
  unfolding add_memo_to_database
  memo-Forward c i p =
      elim (c.memo_type_try_from p)
        as (λ m. Keeps Forward (elim m [
          | none ↦ raise {E = WalletDbError} {A = Unit {0}} memo_type_error
          | some m ↦ store_memo i m
        ])) [ none ↦ Keeps-raise _ | some m ↦ store_memo-Forward i m ]

  pub key_image-Forward :
      (c : Crypto) (i : RowId) (k : Bytes) (s : Option ℕ) → Keeps Forward (update_key_image c i k s)
  unfolding update_key_image
  key_image-Forward c i k s = same_logs _ (λ db. refl)

  output_memo-Forward :
      (c : Crypto) (i : RowId) (p : Option Bytes) → Keeps Forward (add_output_memo c i p)
  unfolding add_output_memo
  output_memo-Forward c i none = Keeps-pure _
  output_memo-Forward c i (some p) = memo-Forward c i p

  pub new_output-Forward :
      (c : Crypto) (o : OutputTxo) (b : Bool) (i : RowId)
      → Keeps Forward (create_new_output c o b i)
  unfolding create_new_output
  new_output-Forward c o b i =
      search (Keeps-bind, Keeps-lift, insert_txo-Forward, output-Forward, output_memo-Forward)

  pub insert_log-Forward :
      (l : TransactionLog) → LogIsValid l → Keeps Forward (insert_transaction_log l)
  unfolding insert_transaction_log
  insert_log-Forward l v = record {
    at = λ db h. elim (Bool-cases (has_log db l.id)) [
      | inl e ↦ rw e h
      | inr e ↦ elim (Bool-cases (has_account db l.account_id)) [
        | inl f ↦
            rw (e, f)
              (record {
                valid = AllValid-append db.transaction_logs l h.valid v;
                follows = Follows-trans _ _ _ h.follows (Follows-append db.transaction_logs l);
              })
        | inr f ↦ rw (e, f) h
      ]
    ];
  }

  -- An update of the logs by a step that keeps a log valid and moves it forward.
  update-Forward :
      (m : DbAction (Unit {0})) (p : Db → TransactionLog → Bool)
      (f : TransactionLog → TransactionLog)
      → ((db : Db) → (m db).1.transaction_logs ≡ update (p db) f db.transaction_logs)
      → ((l : TransactionLog) → (f l).id ≡ l.id)
      → ((db : Db) (l : TransactionLog) → p db l ≡ true → leads_to (status l) (status (f l)) ≡ true)
      → ((db : Db) (l : TransactionLog) → p db l ≡ true → LogIsValid l → LogIsValid (f l))
      → Keeps Forward m
  update-Forward m p f e same steps valid = record {
    at = λ db h. record {
      valid =
          subst AllValid (sym (e db))
            (AllValid-update (p db) f db.transaction_logs (valid db) h.valid);
      follows = subst (Follows before) (sym (e db)) (
          Follows-trans _ _ _ h.follows
            (Follows-update (p db) f db.transaction_logs same (steps db)));
    };
  }

  pub comment-Forward : (l : TransactionLog) (t : String) → Keeps Forward (update_comment l t)
  unfolding update_comment status
  comment-Forward l t =
      update-Forward _ (λ db k. k.id == l.id) _ (λ db. refl) (λ k. refl) (λ db k e. ground arith)
        (λ db k e v. ground arith)

  pub tombstone-Forward :
      (l : TransactionLog) (b : Bytes) (t : Option ℤ)
      → Keeps Forward (update_tx_and_tombstone_block_index l b t)
  unfolding update_tx_and_tombstone_block_index status
  tombstone-Forward l b t =
      update-Forward _ (λ db k. k.id == l.id) _ (λ db. refl) (λ k. refl) (λ db k e. ground arith)
        (λ db k e v. ground arith)

  pub submitted-Forward :
      (l : TransactionLog) (b : ℕ) → Keeps Forward (update_submitted_block_index l b)
  unfolding update_submitted_block_index status
  submitted-Forward l b =
      update-Forward _ (λ db k. k.id == l.id) _ (λ db. refl) (λ k. refl) (λ db k e. ground arith)
        (λ db k e v. ground arith)

  pub succeeded-Forward :
      (t : RowId) (b : ℕ) → Keeps Forward (update_pending_associated_with_txo_to_succeeded t b)
  unfolding update_pending_associated_with_txo_to_succeeded status
  succeeded-Forward t b =
      update-Forward _ (λ db. awaits_txo db t) _ (λ db. refl) (λ k. refl) (λ db k e. ground arith)
        (λ db k e v. ground arith)

  pub failed-Forward :
      (b : ℕ) → Keeps Forward (update_pending_exceeding_tombstone_block_index_to_failed b)
  unfolding update_pending_exceeding_tombstone_block_index_to_failed status
  failed-Forward b =
      update-Forward _ (λ db. exceeds_tombstone b) _ (λ db. refl) (λ k. refl)
        (λ db k e. ground arith) (λ db k e v. ground arith)
