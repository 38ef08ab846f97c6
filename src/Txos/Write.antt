-- ===== src/Txos/Write.antt =====
-- The statements of full-service/src/db/txo.rs that write the txos table.
use full_service.Prelude.{ℕ, Bool, false, Option, none, some}
use full_service.Prelude.Tests.{◌==◌, if◌then◌else◌}
use full_service.Prelude.Int.{ℤ, as_i64}
use full_service.Prelude.Lists.{find?}
use full_service.Prelude.Result.{ok, err, ok_or}
use full_service.Prelude.State.{pure, raise, reads, lift, ◌>>=◌, ◌>>◌}
use full_service.Db.Schema.{RowId, Bytes, Account, Txo}
use full_service.Db.Error.{
  diesel, not_found, foreign_key_violation, key_error, prost_decode, b58_encode, txo_not_found,
}
use full_service.Db.Tables.{
  Db, DbAction, DbResult, update, has_account, insert_txo, insert_transaction_output_txo,
}
use full_service.Db.Query.{find_account, find_txo}
use full_service.External.{Crypto, TxOut, Amount}
use full_service.Txos.Memo.{two_bytes_to_i32, add_memo_to_database}

-- `OutputTxo` of full-service/src/service/models/tx_proposal.rs.
pub record OutputTxo : Type 0 where
  pub tx_out : TxOut
  pub recipient_public_address : Bytes
  pub confirmation_number : Bytes
  pub amount : Amount
  pub shared_secret : Option Bytes

-- `Option::map`
abbrev pub map_option : {A B : Type 0} → (A → B) → Option A → Option B
map_option f none = none
map_option f (some a) = some (f a)

-- `diesel::update(self)` and `diesel::update(txos.filter(id.eq(i)))`.
abbrev pub update_txo : RowId → (Txo → Txo) → Db → Db
update_txo i f db = record db { txos = update (λ t. t.id == i) f db.txos }

unfoldable pub update_as_received :
    Crypto
    → Txo
    → (subaddress_index : Option ℕ) (received_key_image : Option Bytes) (block_index : ℕ)
      (account_id_hex : RowId) (amount : Amount) (target_key public_key e_fog_hint : Bytes)
      (shared_secret : Option Bytes) (memo_type : Option ℤ)
    → DbAction (Unit {0})
update_as_received c found sub image block account amount target public hint secret memo db =
    if has_account db account
    then (
      ok tt,
      update_txo found.id
          (λ t. record t {
            subaddress_index = map_option as_i64 sub;
            key_image = map_option c.encode image;
            received_block_index = some (as_i64 block);
            account_id = some account;
            value = as_i64 amount.value;
            token_id = as_i64 amount.token_id;
            target_key = target;
            public_key = public;
            e_fog_hint = hint;
            shared_secret = secret;
            memo_type = memo;
          })
          db,
    )
    else (err (diesel foreign_key_violation), db)

unfoldable pub update_spent_block_index :
    (txo_id_hex : RowId) (spent_block_index : ℕ) → DbAction (Unit {0})
update_spent_block_index i block db =
    (ok tt, update_txo i (λ t. record t { spent_block_index = some (as_i64 block) }) db)

unfoldable pub update_key_image :
    Crypto
    → (txo_id_hex : RowId) (key_image : Bytes) (spent_block_index : Option ℕ) → DbAction (Unit {0})
update_key_image c i image spent db = (
  ok tt,
  update_txo i
      (λ t. record t {
        key_image = some (c.encode image);
        spent_block_index = map_option as_i64 spent;
      })
      db,
)

unfoldable pub update_is_synced_to_t3 : Txo → Bool → DbAction (Unit {0})
update_is_synced_to_t3 t synced db =
    (ok tt, update_txo t.id (λ u. record u { is_synced_to_t3 = synced }) db)

-- `first` on the rows of this public key, then `Txo::get`.
unfoldable pub update_key_image_by_pubkey :
    Crypto → (public_key key_image : Bytes) (spent_block_index : Option ℕ) → DbAction (Unit {0})
update_key_image_by_pubkey c public image spent = do
  found ←
      reads (λ db. ok_or (diesel not_found) (find? (λ t. t.public_key == c.encode public) db.txos))
  txo ← reads (find_txo found.id)
  update_key_image c txo.id image spent

-- `Account::view_private_key` of full-service/src/db/account.rs.
unfoldable pub view_private_key : Crypto → Account → DbResult Bytes
view_private_key c a =
    if a.view_only
    then ok_or prost_decode
        (map_option c.view_private_key (c.decode_view_account_key a.account_key))
    else ok_or prost_decode (
        map_option (λ k. c.view_private_key (c.view_account_key_from k))
          (c.decode_account_key a.account_key))

-- `match txo.e_memo`
abbrev memo_payload : Crypto → TxOut → Bytes → Bytes
memo_payload c txo secret = elim txo.e_memo [ none ↦ c.unused_memo | some e ↦ c.decrypt e secret ]

-- `match Txo::get(..)`: update the txo that is there, or insert one.
abbrev pub store_received :
    Crypto
    → TxOut
    → (subaddress_index : Option ℕ) (key_image : Option Bytes) (amount : Amount)
      (received_block_index : ℕ) (account_id_hex : RowId) (secret : Bytes) (memo_type : Option ℤ)
    → DbResult Txo
    → DbAction (Unit {0})
store_received c txo sub image amount block account secret memo (ok found) =
    update_as_received c found sub image block account amount (c.encode txo.target_key)
      (c.encode txo.public_key) (c.encode txo.e_fog_hint) (some secret) memo
store_received c txo sub image amount block account secret memo (err (txo_not_found i)) =
    insert_txo (record {
      id = c.txo_id txo;
      value = as_i64 amount.value;
      token_id = as_i64 amount.token_id;
      target_key = c.encode txo.target_key;
      public_key = c.encode txo.public_key;
      e_fog_hint = c.encode txo.e_fog_hint;
      subaddress_index = map_option as_i64 sub;
      key_image = map_option c.encode image;
      received_block_index = some (as_i64 block);
      spent_block_index = none;
      confirmation = none;
      account_id = some account;
      shared_secret = some secret;
      memo_type = memo;
      is_synced_to_t3 = false;
    })
store_received c txo sub image amount block account secret memo (err e) = raise e

unfoldable pub create_received :
    Crypto
    → TxOut
    → (subaddress_index : Option ℕ) (key_image : Option Bytes) (amount : Amount)
      (received_block_index : ℕ) (account_id_hex : RowId)
    → DbAction RowId
create_received c txo sub image amount block account_id = do
  account ← reads (find_account account_id)
  public ← lift (ok_or key_error (c.ristretto_public txo.public_key))
  view ← lift (view_private_key c account)
  let secret = c.get_tx_out_shared_secret view public
  let payload = memo_payload c txo secret
  let memo = two_bytes_to_i32 (c.get_memo_type payload)
  (λ db.
      store_received c txo sub image amount block account_id (c.encode_to_vec secret) (some memo)
        (find_txo (c.txo_id txo) db) db)
  add_memo_to_database c (c.txo_id txo) payload
  pure (c.txo_id txo)

-- The memo is read only where the shared secret is known.
abbrev pub output_payload : Crypto → OutputTxo → Option Bytes
output_payload c o = elim o.shared_secret [
  | none ↦ none
  | some s ↦ some (memo_payload c o.tx_out s)
]

unfoldable pub add_output_memo : Crypto → RowId → Option Bytes → DbAction (Unit {0})
add_output_memo c i none = pure tt
add_output_memo c i (some p) = add_memo_to_database c i p

unfoldable pub create_new_output :
    Crypto → OutputTxo → (is_change : Bool) (transaction_id : RowId) → DbAction (Unit {0})
create_new_output c o is_change log = do
  insert_txo (record {
    id = c.txo_id o.tx_out;
    account_id = none;
    value = as_i64 o.amount.value;
    token_id = as_i64 o.amount.token_id;
    target_key = c.encode o.tx_out.target_key;
    public_key = c.encode o.tx_out.public_key;
    e_fog_hint = c.encode o.tx_out.e_fog_hint;
    subaddress_index = none;
    key_image = none;
    received_block_index = none;
    spent_block_index = none;
    confirmation = some (c.encode o.confirmation_number);
    shared_secret = map_option c.to_bytes o.shared_secret;
    memo_type = map_option (λ p. two_bytes_to_i32 (c.get_memo_type p)) (output_payload c o);
    is_synced_to_t3 = false;
  })
  b58 ← lift (ok_or b58_encode (c.b58_encode_public_address o.recipient_public_address))
  insert_transaction_output_txo (record {
    transaction_log_id = log;
    txo_id = c.txo_id o.tx_out;
    recipient_public_address_b58 = b58;
    is_change = is_change;
  })
  add_output_memo c (c.txo_id o.tx_out) (output_payload c o)
