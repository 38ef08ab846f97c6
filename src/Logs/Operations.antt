-- ===== src/Logs/Operations.antt =====
-- `log_built`, `log_signed` and `log_submitted` keep the logs valid and move them forward; a failed
-- or succeeded log stays what it is.
use Prim.Native.String.{String}
use full_service.Prelude.{ℕ, Option, none, some, List}
use full_service.Prelude.Int.{ℤ, as_i64}
use full_service.Prelude.Result.{ok, err}
use full_service.Prelude.Keeps.{Keeps, Keeps-bind, Keeps-lift, Keeps-reads, Keeps-for_each}
use full_service.Db.Schema.{RowId, TransactionLog}
use full_service.Db.Error.{transaction_log_not_found}
use full_service.Db.Tables.{Db, DbAction, DbResult}
use full_service.External.{Crypto}
use full_service.Logs.Proposal.{TxProposal, UnsignedTxProposal}
use full_service.Logs.Defs.{
  log_built, log_signed, log_submitted, insert_log_and_txos, sign_existing, new_transaction_log,
  submit_existing, on_log, on_result, get,
}
use full_service.Logs.Lifecycle.{LogIsValid}
use full_service.Logs.Keeping.{
  Forward, comment-Forward, tombstone-Forward, submitted-Forward, insert_log-Forward,
  new_output-Forward, input-Forward, key_image-Forward,
}

module _ (before : List TransactionLog) where
  new_log-LogIsValid :
      (p : TxProposal) (t : String) (a i : RowId) (s : Option ℤ)
      → LogIsValid (new_transaction_log p t a i s)
  new_log-LogIsValid p t a i s = record { submitted = λ h. cc; not_failed = λ h. cc }

  insert_log_and_txos-Forward :
      (c : Crypto) (p : TxProposal) (t : String) (a i : RowId) (s : Option ℤ)
      → Keeps (Forward before) (insert_log_and_txos c p t a i s)
  unfolding insert_log_and_txos
  insert_log_and_txos-Forward c p t a i s =
      Keeps-bind _ _ (insert_log-Forward before _ (new_log-LogIsValid p t a i s)) λ _.
        Keeps-bind _ _
          (Keeps-for_each _ _
            λ x. Keeps-bind _ _ (key_image-Forward before _ _ _ _) λ _. input-Forward before _)
          λ _.
            Keeps-bind _ _ (Keeps-for_each _ _ λ x. new_output-Forward before _ _ _ _)
              λ _. Keeps-for_each _ _ λ x. new_output-Forward before _ _ _ _

  sign_existing-Forward :
      (c : Crypto) (p : TxProposal) (t : String) (l : TransactionLog)
      → Keeps (Forward before) (sign_existing c p t l)
  unfolding sign_existing
  sign_existing-Forward c p t l =
      Keeps-bind _ _ (Keeps-for_each _ _ λ x. key_image-Forward before _ _ _ _)
        λ _. Keeps-bind _ _ (comment-Forward before _ _) λ _. tombstone-Forward before _ _ _

  submit_existing-Forward :
      (t : String) (b : ℕ) (l : TransactionLog) → Keeps (Forward before) (submit_existing t b l)
  unfolding submit_existing
  submit_existing-Forward t b l =
      Keeps-bind _ _ (submitted-Forward before _ _) λ _. comment-Forward before _ _

  on_log-Forward :
      (i : RowId) (f : TransactionLog → DbAction (Unit {0})) (m : DbAction (Unit {0}))
      → ((l : TransactionLog) → Keeps (Forward before) (f l))
      → Keeps (Forward before) m
      → Keeps (Forward before) (on_log i f m)
  unfolding on_log
  on_log-Forward i f m kf km = record { at = λ db h. by_result db h (get i db) }
    where
      by_result :
          (db : Db)
          → Forward before db
          → (r : DbResult TransactionLog) → Forward before (on_result r f m db).1
      by_result db h (ok l) = (kf l).at db h
      by_result db h (err (transaction_log_not_found j)) = km.at db h
      by_result db h (err e) = h

  pub log_built-Forward :
      (c : Crypto) (p : UnsignedTxProposal) (a : RowId) → Keeps (Forward before) (log_built c p a)
  unfolding log_built
  log_built-Forward c p a = Keeps-bind _ _ (Keeps-reads _) λ _. Keeps-bind _ _ (Keeps-lift _) λ i.
      Keeps-bind _ _
        (insert_log-Forward before _ (record { submitted = λ h. cc; not_failed = λ h. cc }))
        λ _. Keeps-bind _ _ (Keeps-for_each _ _ λ x. input-Forward before _) λ _.
          Keeps-bind _ _ (Keeps-for_each _ _ λ x. new_output-Forward before _ _ _ _) λ _.
            Keeps-bind _ _ (Keeps-for_each _ _ λ x. new_output-Forward before _ _ _ _)
              λ _. Keeps-reads _

  pub log_signed-Forward :
      (c : Crypto) (p : TxProposal) (t : String) (a : RowId)
      → Keeps (Forward before) (log_signed c p t a)
  unfolding log_signed
  log_signed-Forward c p t a = Keeps-bind _ _ (Keeps-reads _) λ _.
      Keeps-bind _ _ (Keeps-lift _) λ i.
        Keeps-bind _ _
          (on_log-Forward i _ _ (sign_existing-Forward c p t)
            (insert_log_and_txos-Forward c p t a i none))
          λ _. Keeps-reads _

  pub log_submitted-Forward :
      (c : Crypto) (p : TxProposal) (b : ℕ) (t : String) (a : RowId)
      → Keeps (Forward before) (log_submitted c p b t a)
  unfolding log_submitted
  log_submitted-Forward c p b t a = Keeps-bind _ _ (Keeps-reads _) λ _.
      Keeps-bind _ _ (Keeps-lift _) λ i.
        Keeps-bind _ _
          (on_log-Forward i _ _ (submit_existing-Forward t b)
            (insert_log_and_txos-Forward c p t a i (some (as_i64 b))))
          λ _. Keeps-reads _
