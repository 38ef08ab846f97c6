-- ===== src/Txos/Receive.antt =====
-- The row that `create_received` leaves, whether the txo was there before or not.
use full_service.Prelude.{
  ℕ, ◌≡◌, refl, ap, ◌∙◌, true, false, Option, none, some, [], ◌∷◌, arith, inl, inr,
}
use full_service.Prelude.Int.{ℤ, as_i64}
use full_service.Prelude.Tests.{◌==◌, Bool-cases}
use full_service.Prelude.Lists.{find?}
use full_service.Prelude.Result.{ok, err, ok_or, is_ok}
use full_service.Prelude.State.{raise}
use full_service.Prelude.Keeps.{Keeps, Ends, Ends-bind, Ends-then}
use full_service.Db.Schema.{RowId, Bytes, Txo}
use full_service.Db.Error.{memo_type_error, txo_not_found}
use full_service.Db.Tables.{
  Db, DbAction, DbResult, has_account, has_txo, references_account, insert_txo,
  insert_authenticated_sender_memo, insert_destination_memo,
}
use full_service.Db.Query.{find_txo}
use full_service.Db.Rows.{find?-update_at, find?-append, found_or, any-none_of_find?}
use full_service.External.{
  Crypto, TxOut, Amount, MemoType, authenticated_sender,
  authenticated_sender_with_payment_intent_id, authenticated_sender_with_payment_request_id,
  destination, destination_with_payment_request_id, destination_with_payment_intent_id, other,
}
use full_service.Txos.Memo.{
  store_memo, add_memo_to_database, add_authenticated_memo_to_database,
  add_destination_memo_to_database,
}
use full_service.Txos.Write.{map_option, update_as_received, store_received, create_received}

-- The memo tables are others than the txos table.
store_memo_txos : (i : RowId) (m : MemoType) (db : Db) → (store_memo i m db).1.txos ≡ db.txos
unfolding store_memo add_authenticated_memo_to_database add_destination_memo_to_database
    insert_authenticated_sender_memo insert_destination_memo
store_memo_txos i (authenticated_sender h) db = ground arith
store_memo_txos i (authenticated_sender_with_payment_intent_id h p) db = ground arith
store_memo_txos i (authenticated_sender_with_payment_request_id h p) db = ground arith
store_memo_txos i (destination h n f o) db = ground arith
store_memo_txos i (destination_with_payment_request_id h n f o p) db = ground arith
store_memo_txos i (destination_with_payment_intent_id h n f o p) db = ground arith
store_memo_txos i other db = refl

pub memo_txos :
    (c : Crypto) (i : RowId) (p : Bytes) (db : Db)
    → (add_memo_to_database c i p db).1.txos ≡ db.txos
unfolding add_memo_to_database
memo_txos c i p db =
    elim (c.memo_type_try_from p)
      as (λ m.
        (elim m as (λ _. DbAction (Unit {0})) [
          | none ↦ raise memo_type_error
          | some m ↦ store_memo i m
        ]
          db).1.txos
        ≡ db.txos) [ none ↦ refl | some m ↦ store_memo_txos i m db ]

module _ (c : Crypto) (txo : TxOut) (sub : Option ℕ) (image : Option Bytes) (amount : Amount)
    (block : ℕ) (account : RowId) where
  -- The row of the output is there, as received by the account.
  pub record HasReceived (db : Db) : Type 0 where
    pub row : Txo
    pub found : find_txo (c.txo_id txo) db ≡ ok row
    pub account_id : row.account_id ≡ some account
    pub received_block_index : row.received_block_index ≡ some (as_i64 block)
    pub value : row.value ≡ as_i64 amount.value
    pub token_id : row.token_id ≡ as_i64 amount.token_id
    pub subaddress_index : row.subaddress_index ≡ map_option as_i64 sub
    pub key_image : row.key_image ≡ map_option c.encode image

  abbrev received_over : Txo → Option Bytes → Option ℤ → Txo
  received_over t secret memo = record t {
    subaddress_index = map_option as_i64 sub;
    key_image = map_option c.encode image;
    received_block_index = some (as_i64 block);
    account_id = some account;
    value = as_i64 amount.value;
    token_id = as_i64 amount.token_id;
    target_key = c.encode txo.target_key;
    public_key = c.encode txo.public_key;
    e_fog_hint = c.encode txo.e_fog_hint;
    shared_secret = secret;
    memo_type = memo;
  }

  updated :
      (found : Txo) (secret : Option Bytes) (memo : Option ℤ) (db : Db)
      → find? (λ t. t.id == c.txo_id txo) db.txos ≡ some found
      → is_ok
          (update_as_received c found sub image block account amount
            (c.encode txo.target_key)
            (c.encode txo.public_key)
            (c.encode txo.e_fog_hint)
            secret
            memo
            db).0
        ≡ true
      → HasReceived
          (update_as_received c found sub image block account amount
            (c.encode txo.target_key)
            (c.encode txo.public_key)
            (c.encode txo.e_fog_hint)
            secret
            memo
            db).1
  unfolding update_as_received find_txo
  updated found secret memo db e h = elim (Bool-cases (has_account db account)) [
    | inl known ↦ rw known (record {
      row = received_over found secret memo;
      found = ap (ok_or (txo_not_found (c.txo_id txo))) (
          find?-update_at (λ t. t.id == c.txo_id txo) (λ t. t.id == found.id)
            (λ t. received_over t secret memo) (λ t. refl) db.txos found e (ground arith));
      account_id = refl;
      received_block_index = refl;
      value = refl;
      token_id = refl;
      subaddress_index = refl;
      key_image = refl;
    })
    | inr unknown ↦ absurd (let h' = rw unknown at h in cc)
  ]

  inserted :
      (t : Txo) (db : Db)
      → t.id ≡ c.txo_id txo
      → find? (λ t. t.id == c.txo_id txo) db.txos ≡ none
      → is_ok (insert_txo t db).0 ≡ true
      → find_txo (c.txo_id txo) (insert_txo t db).1 ≡ ok t
  unfolding insert_txo find_txo
  inserted t db same e h =
      let alone : find? (λ u. u.id == c.txo_id txo) (t ∷ []) ≡ some t = ground arith in
      let fresh : has_txo db t.id ≡ false =
        rw same (any-none_of_find? (λ u. u.id == c.txo_id txo) db.txos e) in
      elim (Bool-cases (references_account db t.account_id)) [
        | inl known ↦
            rw (fresh, known)
              (ap (ok_or (txo_not_found (c.txo_id txo))) (
                find?-append (λ u. u.id == c.txo_id txo) db.txos (t ∷ [])
                ∙ ap (λ o. found_or o (find? (λ u. u.id == c.txo_id txo) (t ∷ []))) e
                ∙ alone))
        | inr unknown ↦ absurd (let h' = rw (fresh, unknown) at h in cc)
      ]

  stored :
      (secret : Bytes) (memo : Option ℤ) (db : Db) (r : DbResult Txo)
      → find_txo (c.txo_id txo) db ≡ r
      → is_ok (store_received c txo sub image amount block account secret memo r db).0 ≡ true
      → HasReceived (store_received c txo sub image amount block account secret memo r db).1
  unfolding find_txo
  stored secret memo db (ok found) e h = updated found (some secret) memo db (ground arith) h
  stored secret memo db (err (txo_not_found i)) e h = record {
    row = _;
    found = inserted _ db refl (ground arith) h;
    account_id = refl;
    received_block_index = refl;
    value = refl;
    token_id = refl;
    subaddress_index = refl;
    key_image = refl;
  }
  stored secret memo db (err e') e h = cc

  anything : {A : Type 0} (m : DbAction A) → Keeps (λ db. Unit) m
  anything m = record { at = λ db h. tt }

  memo-Ends : (i : RowId) (p : Bytes) → Ends HasReceived HasReceived (add_memo_to_database c i p)
  unfolding find_txo
  memo-Ends i p = record {
    at = λ db h e. record {
      row = h.row;
      found =
          ap (λ ts. ok_or (txo_not_found (c.txo_id txo)) (find? (λ t. t.id == c.txo_id txo) ts))
            (memo_txos c i p db)
          ∙ h.found;
      account_id = h.account_id;
      received_block_index = h.received_block_index;
      value = h.value;
      token_id = h.token_id;
      subaddress_index = h.subaddress_index;
      key_image = h.key_image;
    };
  }

  -- An output that is received without an error is in the txos table afterwards, with the account, the
  -- block, the value, the token, the subaddress and the key image that it was received with, also where
  -- a transaction had stored it before.
  pub create_received-HasReceived :
      (db : Db)
      → is_ok (create_received c txo sub image amount block account db).0 ≡ true
      → HasReceived (create_received c txo sub image amount block account db).1
  unfolding create_received
  create_received-HasReceived db h =
      (Ends-bind _ _ (anything _) λ row. Ends-bind _ _ (anything _) λ public.
          Ends-bind _ _ (anything _) λ view.
            Ends-then _ _ (record { at = λ db u e. stored _ _ db _ refl e })
              λ _. Ends-then _ _ (memo-Ends _ _) λ _. record { at = λ db h e. h }).at
        db tt h
