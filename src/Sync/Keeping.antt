-- ===== src/Sync/Keeping.antt =====
-- Properties that one chunk keeps, from those that its statements keep.
use full_service.Prelude.{ℕ, ◌+◌, ◌≡◌, refl, sym, subst, List, arith}
use full_service.Prelude.State.{pure, ◌>>=◌, ◌>>◌}
use full_service.Prelude.Keeps.{
  Keeps, Keeps-pure, Keeps-bind, Keeps-reads, Keeps-for_each, Ends, Ends-bind,
}
use full_service.Db.Schema.{RowId, Account}
use full_service.Db.Tables.{Db, DbAction}
use full_service.External.{Crypto, TxOut}
use full_service.Txos.Frame.{SameElsewhere, create_received_elsewhere, spent_elsewhere}
use full_service.Logs.Defs.{
  update_pending_associated_with_txo_to_succeeded,
  update_pending_exceeding_tombstone_block_index_to_failed,
}
use full_service.Sync.Defs.{
  Chunk, from_db, update_next_block_index, decode_received, write_received, mark_spent,
  process_chunk, Received,
}

-- A property that the receipt of txos and the ends of logs keep, a chunk keeps too.
module _ (P : Db → Type 0)
    (carried : (before after : Db) → SameElsewhere before after → P before → P after)
    (succeeds : (t : RowId) (b : ℕ) → Keeps P (update_pending_associated_with_txo_to_succeeded t b))
    (expires : (b : ℕ) → Keeps P (update_pending_exceeding_tombstone_block_index_to_failed b))
    (c : Crypto) where
  from_db-Keeps : {A : Type 0} (m : DbAction A) → Keeps P m → Keeps P (from_db m)
  from_db-Keeps m k = record { at = λ db h. k.at db h }

  elsewhere-Keeps :
      {A : Type 0} (m : DbAction A) → ((before : Db) → Keeps (SameElsewhere before) m) → Keeps P m
  elsewhere-Keeps m k = record { at = λ db h. carried db (m db).1 ((k db).at db (same db)) h }
    where
      same : (db : Db) → SameElsewhere db db
      same db = record {
        accounts = refl;
        assigned_subaddresses = refl;
        transaction_logs = refl;
        transaction_input_txos = refl;
        transaction_output_txos = refl;
      }

  write_received-Keeps : (a : RowId) (r : Received c) → Keeps P (write_received c a r)
  unfolding write_received
  write_received-Keeps a r =
      Keeps-bind _ _
        (from_db-Keeps _ (elsewhere-Keeps _ λ d. create_received_elsewhere d c _ _ _ _ _ _))
        λ _. Keeps-pure _

  mark_spent-Keeps : (p : ℕ × RowId) → Keeps P (mark_spent c p)
  unfolding mark_spent
  mark_spent-Keeps p =
      Keeps-bind _ _ (from_db-Keeps _ (elsewhere-Keeps _ λ d. spent_elsewhere d _ _))
        λ _. from_db-Keeps _ (succeeds _ _)

  decode_received-Keeps : (a : Account) (os : List (ℕ × TxOut)) → Keeps P (decode_received c a os)
  unfolding decode_received
  decode_received-Keeps a os = record { at = λ db h. subst P (sym (same db)) h }
    where
      same : (db : Db) → (decode_received c a os db).1 ≡ db
      same db = ground arith

  finish_Ends :
      (account : Account) (n k : ℕ) (Q : Db → Type 0)
      → ((db : Db) → P db → Q (update_next_block_index account n db).1)
      → Ends P Q (from_db (update_next_block_index account n) >> pure k)
  unfolding update_next_block_index ◌>>=◌
  finish_Ends account n k Q updated = record { at = λ db h e. updated db h }

  pub process_chunk-Ends :
      (Q : Db → Type 0) (account : Account) (a : RowId) (chunk : Chunk) (last : ℕ)
      → ((db : Db) → P db → Q (update_next_block_index account (last + 1) db).1)
      → Ends P Q (process_chunk c account a chunk last)
  unfolding process_chunk
  process_chunk-Ends Q account a chunk last updated =
      Ends-bind _ _ (decode_received-Keeps account chunk.tx_outs) λ received.
        Ends-bind _ _ (Keeps-for_each _ _ λ r. write_received-Keeps a r) λ _.
          Ends-bind _ _ (Keeps-reads _) λ spent.
            Ends-bind _ _ (Keeps-for_each _ _ λ p. mark_spent-Keeps p) λ _.
              Ends-bind _ _ (from_db-Keeps _ (expires _)) λ _. finish_Ends account _ _ Q updated

  pub process_chunk-Keeps :
      (account : Account) (a : RowId) (chunk : Chunk) (last : ℕ)
      → Keeps P (update_next_block_index account (last + 1))
      → Keeps P (process_chunk c account a chunk last)
  unfolding process_chunk
  process_chunk-Keeps account a chunk last updated =
      Keeps-bind _ _ (decode_received-Keeps account chunk.tx_outs) λ received.
        Keeps-bind _ _ (Keeps-for_each _ _ λ r. write_received-Keeps a r) λ _.
          Keeps-bind _ _ (Keeps-reads _) λ spent.
            Keeps-bind _ _ (Keeps-for_each _ _ λ p. mark_spent-Keeps p) λ _.
              Keeps-bind _ _ (from_db-Keeps _ (expires _))
                λ _. Keeps-bind _ _ (from_db-Keeps _ updated) λ _. Keeps-pure _
