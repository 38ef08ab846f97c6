-- ===== src/Txos/Frame.antt =====
-- What the receipt of a txo leaves as it is: every table but those of the txos and their memos.
use full_service.Prelude.{ℕ, ◌≡◌, refl, ◌∙◌, Option, none, some, arith}
use full_service.Prelude.Int.{ℤ}
use full_service.Prelude.Result.{ok, err}
use full_service.Prelude.State.{raise}
use full_service.Prelude.Keeps.{Keeps, Keeps-pure, Keeps-raise, Keeps-bind, Keeps-reads, Keeps-lift}
use full_service.Db.Schema.{RowId, Bytes, Txo, AuthenticatedSenderMemo, DestinationMemo}
use full_service.Db.Error.{WalletDbError, memo_type_error, txo_not_found}
use full_service.Db.Tables.{
  Db, DbAction, DbResult, insert_txo, insert_authenticated_sender_memo, insert_destination_memo,
}
use full_service.Db.Query.{find_txo}
use full_service.External.{
  Crypto, TxOut, Amount, MemoType, authenticated_sender,
  authenticated_sender_with_payment_intent_id, authenticated_sender_with_payment_request_id,
  destination, destination_with_payment_request_id, destination_with_payment_intent_id, other,
}
use full_service.Txos.Memo.{
  store_memo, add_memo_to_database, add_authenticated_memo_to_database,
  add_destination_memo_to_database,
}
use full_service.Txos.Write.{
  update_as_received, update_spent_block_index, store_received, create_received,
}

module _ (before : Db) where
  pub record SameElsewhere (db : Db) : Type 0 where
    pub accounts : db.accounts ≡ before.accounts
    pub assigned_subaddresses : db.assigned_subaddresses ≡ before.assigned_subaddresses
    pub transaction_logs : db.transaction_logs ≡ before.transaction_logs
    pub transaction_input_txos : db.transaction_input_txos ≡ before.transaction_input_txos
    pub transaction_output_txos : db.transaction_output_txos ≡ before.transaction_output_txos

  -- A statement on the other tables.
  elsewhere :
      {A : Type 0} (m : DbAction A)
      → ((db : Db) → (m db).1.accounts ≡ db.accounts)
      → ((db : Db) → (m db).1.assigned_subaddresses ≡ db.assigned_subaddresses)
      → ((db : Db) → (m db).1.transaction_logs ≡ db.transaction_logs)
      → ((db : Db) → (m db).1.transaction_input_txos ≡ db.transaction_input_txos)
      → ((db : Db) → (m db).1.transaction_output_txos ≡ db.transaction_output_txos)
      → Keeps SameElsewhere m
  elsewhere m a s l i o = record {
    at = λ db h. record {
      accounts = a db ∙ h.accounts;
      assigned_subaddresses = s db ∙ h.assigned_subaddresses;
      transaction_logs = l db ∙ h.transaction_logs;
      transaction_input_txos = i db ∙ h.transaction_input_txos;
      transaction_output_txos = o db ∙ h.transaction_output_txos;
    };
  }

  insert_txo_elsewhere : (t : Txo) → Keeps SameElsewhere (insert_txo t)
  unfolding insert_txo
  insert_txo_elsewhere t =
      elsewhere _ (λ d. ground arith) (λ d. ground arith) (λ d. ground arith) (λ d. ground arith)
        (λ d. ground arith)

  sender_memo_elsewhere :
      (m : AuthenticatedSenderMemo) → Keeps SameElsewhere (insert_authenticated_sender_memo m)
  unfolding insert_authenticated_sender_memo
  sender_memo_elsewhere m =
      elsewhere _ (λ d. ground arith) (λ d. ground arith) (λ d. ground arith) (λ d. ground arith)
        (λ d. ground arith)

  destination_memo_elsewhere :
      (m : DestinationMemo) → Keeps SameElsewhere (insert_destination_memo m)
  unfolding insert_destination_memo
  destination_memo_elsewhere m =
      elsewhere _ (λ d. ground arith) (λ d. ground arith) (λ d. ground arith) (λ d. ground arith)
        (λ d. ground arith)

  store_memo_elsewhere : (i : RowId) (m : MemoType) → Keeps SameElsewhere (store_memo i m)
  unfolding store_memo add_authenticated_memo_to_database add_destination_memo_to_database
  store_memo_elsewhere i (authenticated_sender h) = sender_memo_elsewhere _
  store_memo_elsewhere i (authenticated_sender_with_payment_intent_id h p) = sender_memo_elsewhere _
  store_memo_elsewhere i (authenticated_sender_with_payment_request_id h p) =
      sender_memo_elsewhere _
  store_memo_elsewhere i (destination h n f o) = destination_memo_elsewhere _
  store_memo_elsewhere i (destination_with_payment_request_id h n f o p) =
      destination_memo_elsewhere _
  store_memo_elsewhere i (destination_with_payment_intent_id h n f o p) =
      destination_memo_elsewhere _
  store_memo_elsewhere i other = Keeps-pure _

  memo_elsewhere :
      (c : Crypto) (i : RowId) (p : Bytes) → Keeps SameElsewhere (add_memo_to_database c i p)
  unfolding add_memo_to_database
  memo_elsewhere c i p =
      elim (c.memo_type_try_from p)
        as (λ m. Keeps SameElsewhere (elim m [
          | none ↦ raise {E = WalletDbError} {A = Unit {0}} memo_type_error
          | some m ↦ store_memo i m
        ])) [ none ↦ Keeps-raise _ | some m ↦ store_memo_elsewhere i m ]

  received_elsewhere :
      (c : Crypto) (found : Txo) (sub : Option ℕ) (image : Option Bytes) (block : ℕ) (a : RowId)
      (amount : Amount) (target public hint : Bytes) (secret : Option Bytes) (memo : Option ℤ)
      → Keeps SameElsewhere
          (update_as_received c found sub image block a amount target public hint secret memo)
  unfolding update_as_received
  received_elsewhere c found sub image block a amount target public hint secret memo =
      elsewhere _ (λ d. ground arith) (λ d. ground arith) (λ d. ground arith) (λ d. ground arith)
        (λ d. ground arith)

  pub spent_elsewhere : (i : RowId) (b : ℕ) → Keeps SameElsewhere (update_spent_block_index i b)
  unfolding update_spent_block_index
  spent_elsewhere i b = elsewhere _ (λ d. refl) (λ d. refl) (λ d. refl) (λ d. refl) (λ d. refl)

  store_elsewhere :
      (c : Crypto) (t : TxOut) (sub : Option ℕ) (image : Option Bytes) (amount : Amount) (block : ℕ)
      (a : RowId) (secret : Bytes) (memo : Option ℤ) (r : DbResult Txo)
      → Keeps SameElsewhere (store_received c t sub image amount block a secret memo r)
  store_elsewhere c t sub image amount block a secret memo (ok found) =
      received_elsewhere c found _ _ _ _ _ _ _ _ _ _
  store_elsewhere c t sub image amount block a secret memo (err (txo_not_found i)) =
      insert_txo_elsewhere _
  store_elsewhere c t sub image amount block a secret memo (err e) = Keeps-raise e

  -- `create_received` changes no account, subaddress, log or link between a log and a txo.
  pub create_received_elsewhere :
      (c : Crypto) (t : TxOut) (sub : Option ℕ) (image : Option Bytes) (amount : Amount) (block : ℕ)
      (a : RowId)
      → Keeps SameElsewhere (create_received c t sub image amount block a)
  unfolding create_received
  create_received_elsewhere c t sub image amount block a = Keeps-bind _ _ (Keeps-reads _) λ account.
      Keeps-bind _ _ (Keeps-lift _) λ public. Keeps-bind _ _ (Keeps-lift _) λ view.
        Keeps-bind _ _
          (record {
            at = λ db h.
                (store_elsewhere c t sub image amount block a _ _ (find_txo (c.txo_id t) db)).at db
                  h;
          })
          λ _. Keeps-bind _ _ (memo_elsewhere c _ _) λ _. Keeps-pure _
