-- ===== src/Sync/Defs.antt =====
-- full-service/src/service/sync.rs: one chunk of blocks for one account. The ledger is a
-- parameter.
use full_service.Prelude.{
  ℕ, zero, suc, ◌+◌, ◌-◌, Bool, ◌&&◌, Option, none, some, List, [], ◌∷◌, ◌++◌, map, reverse,
}
use full_service.Prelude.Tests.{◌==◌, if◌then◌else◌, is_some, is_none}
use full_service.Prelude.Int.{as_i64, as_u64}
use full_service.Prelude.Lists.{filter, find?, length}
use full_service.Prelude.Order.{sort_by}
use full_service.Prelude.Result.{Result, ok, err, map_err, is_ok}
use full_service.Prelude.State.{Action, pure, reads, lift, for_each, ◌>>=◌, ◌>>◌}
use full_service.Db.Schema.{RowId, Bytes, Account, Txo}
use full_service.Db.Error.{WalletDbError}
use full_service.Db.Tables.{Db, DbAction, update}
use full_service.Db.Query.{
  by_account, by_token, received_desc, find_account, find_by_subaddress_spend_public_key,
}
use full_service.External.{Crypto, TxOut, Amount}
use full_service.Txos.Write.{create_received, update_spent_block_index}
use full_service.Logs.Defs.{
  update_pending_associated_with_txo_to_succeeded,
  update_pending_exceeding_tombstone_block_index_to_failed,
}

pub data SyncError : Type 0 where
  database : WalletDbError → SyncError
  ledger_db prost_decode : SyncError

abbrev pub SyncAction : Type 0 → Type 0
SyncAction A = Action Db SyncError A

-- The conversion that `?` makes.
abbrev pub from_db : {A : Type 0} → DbAction A → SyncAction A
from_db m db = (map_err database (m db).0, (m db).1)

-- `BlockContents`, and what `get_block_contents` answers.
pub record BlockContents : Type 0 where
  pub outputs : List TxOut
  pub key_images : List Bytes

pub data Fetched : Type 0 where
  found : BlockContents → Fetched
  not_found : Fetched
  failed : Fetched

pub record Ledger : Type 0 where
  pub num_blocks : ℕ
  pub get_block_contents : ℕ → Fetched

abbrev pub blocks_chunk_size : ℕ
blocks_chunk_size = 1000

-- `end_block_index`, `tx_outs` and `key_images`.
pub record Chunk : Type 0 where
  pub end_block_index : Option ℕ
  pub tx_outs : List (ℕ × TxOut)
  pub key_images : List (ℕ × Bytes)

abbrev pub empty_chunk : Chunk
empty_chunk = record { end_block_index = none; tx_outs = []; key_images = [] }

abbrev pub add_block : ℕ → BlockContents → Chunk → Chunk
add_block block contents c = record {
  end_block_index = some block;
  tx_outs = c.tx_outs ++ map (λ t. (block, t)) contents.outputs;
  key_images = c.key_images ++ map (λ k. (block, k)) contents.key_images;
}

-- `for block_index in start..end`, with the rounds left.
unfoldable pub load_blocks : Ledger → (rounds block_index : ℕ) → Chunk → Result SyncError Chunk
load_blocks ledger zero block c = ok c
load_blocks ledger (suc rounds) block c = elim (ledger.get_block_contents block) [
  | found contents ↦ load_blocks ledger rounds (block + 1) (add_block block contents c)
  | not_found ↦ ok c
  | failed ↦ err ledger_db
]

-- `account.update_next_block_index` and `account.update_resyncing`
abbrev update_account : RowId → (Account → Account) → Db → Db
update_account i f db = record db { accounts = update (λ a. a.id == i) f db.accounts }

unfoldable pub update_next_block_index : Account → ℕ → DbAction (Unit {0})
update_next_block_index a block db =
    (ok tt, update_account a.id (λ b. record b { next_block_index = as_i64 block }) db)

unfoldable pub update_resyncing : Account → Bool → DbAction (Unit {0})
update_resyncing a resyncing db =
    (ok tt, update_account a.id (λ b. record b { resyncing = resyncing }) db)

abbrev filter_map : {A B : Type 0} → (A → Option B) → List A → List B
filter_map f [] = []
filter_map f (x ∷ xs) = elim (f x) [ none ↦ filter_map f xs | some y ↦ y ∷ filter_map f xs ]

-- `Txo::list_unspent_or_pending_key_images`: the pairs that the map is collected from.
unfoldable pub list_unspent_or_pending_key_images :
    Crypto → (account_id_hex : RowId) (token_id : Option ℕ) → Db → List (Bytes × RowId)
list_unspent_or_pending_key_images c a k db =
    filter_map
      (λ (t : Txo). elim t.key_image [
        | none ↦ none
        | some e ↦ elim (c.decode e) [ none ↦ none | some image ↦ some (image, t.id) ]
      ])
      (sort_by received_desc (
        filter
          (λ t.
            is_some t.key_image
            && (by_account (some a) t
                && (is_some t.subaddress_index && (is_none t.spent_block_index && by_token k t))))
          db.txos))

-- `HashMap::get` on the collected map: of equal keys the last pair stays.
unfoldable pub image_txo : List (Bytes × RowId) → Bytes → Option RowId
image_txo images k = elim (find? (λ p. p.0 == k) (reverse images)) [
  | none ↦ none
  | some p ↦ some p.1
]

module _ (c : Crypto) where
  unfoldable pub decode_amount : TxOut → (view_private_key : Bytes) → Option Amount
  decode_amount t view = elim (c.ristretto_public t.public_key) [
    | none ↦ none
    | some k ↦ c.get_value t (c.get_tx_out_shared_secret view k)
  ]

  unfoldable pub decode_subaddress_index : TxOut → (view_private_key : Bytes) → Db → Option ℕ
  decode_subaddress_index t view db = elim (c.ristretto_public t.public_key) [
    | none ↦ none
    | some public ↦ elim (c.ristretto_public t.target_key) [
      | none ↦ none
      | some target ↦
          elim (find_by_subaddress_spend_public_key
            (c.to_bytes (c.recover_public_subaddress_spend_key view target public)) db) [
              | ok r ↦ some (as_u64 r.0)
              | err e ↦ none
            ]
    ]
  ]

  -- The key image of a txo at a known subaddress.
  abbrev image_at : Bytes → Bytes → Option ℕ → Option Bytes
  image_at public key none = none
  image_at public key (some i) = some (
      c.key_image_from (
        c.recover_onetime_private_key public (c.account_view_private_key key)
          (c.subaddress_spend_private key i)))

  unfoldable pub decode_subaddress_and_key_image :
      TxOut → (account_key : Bytes) → Db → Option ℕ × Option Bytes
  unfolding decode_subaddress_index
  decode_subaddress_and_key_image t key db = elim (c.ristretto_public t.public_key) [
    | none ↦ (none, none)
    | some public ↦
        let i = decode_subaddress_index t (c.account_view_private_key key) db in
        (i, image_at public key i)
  ]

  -- A transaction output that belongs to the account.
  pub record Received : Type 0 where
    pub block_index : ℕ
    pub tx_out : TxOut
    pub amount : Amount
    pub subaddress_index : Option ℕ
    pub key_image : Option Bytes

  abbrev pub received_view_only : (view_account_key : Bytes) → Db → ℕ × TxOut → Option Received
  received_view_only key db (block, t) = elim (decode_amount t (c.view_private_key key)) [
    | none ↦ none
    | some amount ↦ some (record {
      block_index = block;
      tx_out = t;
      amount = amount;
      subaddress_index = decode_subaddress_index t (c.view_private_key key) db;
      key_image = none;
    })
  ]

  abbrev pub received_with_key : (account_key : Bytes) → Db → ℕ × TxOut → Option Received
  received_with_key key db (block, t) = elim (decode_amount t (c.account_view_private_key key)) [
    | none ↦ none
    | some amount ↦ some (record {
      block_index = block;
      tx_out = t;
      amount = amount;
      subaddress_index = (decode_subaddress_and_key_image t key db).0;
      key_image = (decode_subaddress_and_key_image t key db).1;
    })
  ]

  -- The two branches on `account.view_only` differ only in the key and in what is decoded with it;
  -- every output is decoded before the first one is written.
  unfoldable pub decode_received : Account → List (ℕ × TxOut) → SyncAction (List Received)
  decode_received account tx_outs db =
      if account.view_only
      then (elim (c.decode_view_account_key account.account_key) [
        | none ↦ (err prost_decode, db)
        | some key ↦ (ok (filter_map (received_view_only key db) tx_outs), db)
      ])
      else (elim (c.decode_account_key account.account_key) [
        | none ↦ (err prost_decode, db)
        | some key ↦ (ok (filter_map (received_with_key key db) tx_outs), db)
      ])

  unfoldable pub write_received : (account_id_hex : RowId) → Received → SyncAction (Unit {0})
  write_received a r = do
    from_db (create_received c r.tx_out r.subaddress_index r.key_image r.amount r.block_index a)
    pure tt

  -- The key images of the chunk that are those of the account's txos, with the block of each.
  abbrev pub spent_txos : (account_id_hex : RowId) → List (ℕ × Bytes) → Db → List (ℕ × RowId)
  spent_txos a key_images db =
      let images = list_unspent_or_pending_key_images c a none db in
      filter_map
        (λ (p : ℕ × Bytes). elim (image_txo images p.1) [ none ↦ none | some t ↦ some (p.0, t) ])
        key_images

  unfoldable pub mark_spent : ℕ × RowId → SyncAction (Unit {0})
  mark_spent p = do
    from_db (update_spent_block_index p.1 p.0)
    from_db (update_pending_associated_with_txo_to_succeeded p.1 p.0)

  -- The part of the body behind `let end_block_index = end_block_index.unwrap()`.
  unfoldable pub process_chunk :
      Account → (account_id_hex : RowId) → Chunk → (end_block_index : ℕ) → SyncAction ℕ
  process_chunk account a chunk last = do
    received ← decode_received account chunk.tx_outs
    for_each received (write_received a)
    spent ← reads (λ db. ok (spent_txos a chunk.key_images db))
    for_each spent mark_spent
    from_db (update_pending_exceeding_tombstone_block_index_to_failed (last + 1))
    from_db (update_next_block_index account (last + 1))
    pure (length received)

  abbrev pub process_loaded : Account → RowId → Chunk → Option ℕ → SyncAction ℕ
  process_loaded account a chunk none = pure 0
  process_loaded account a chunk (some last) = process_chunk account a chunk last

  -- The closure that runs inside the transaction.
  unfoldable pub sync_chunk_body : Ledger → (account_id_hex : RowId) → SyncAction ℕ
  sync_chunk_body ledger a = do
    account ← from_db (reads (find_account a))
    chunk ←
        lift (load_blocks ledger blocks_chunk_size (as_u64 account.next_block_index) empty_chunk)
    process_loaded account a chunk chunk.end_block_index

-- `exclusive_transaction` of full-service/src/db/wallet_db.rs: an error takes every write back, and
-- the body is run again, `NUM_RETRIES` times in all. `i` counts the attempts that are left.
abbrev pub num_retries : ℕ
num_retries = 5

abbrev pub rolled_back : {E A : Type 0} → Action Db E A → Action Db E A
rolled_back m db = elim (m db).0 [ ok a ↦ (ok a, (m db).1) | err e ↦ (err e, db) ]

unfoldable pub attempts : {E A : Type 0} → (left : ℕ) → Action Db E A → Action Db E A
attempts zero m db = rolled_back m db
attempts (suc left) m db =
    let again = attempts left m db in if is_ok (m db).0 then rolled_back m db else again

unfoldable pub exclusive_transaction : {E A : Type 0} → Action Db E A → Action Db E A
unfolding attempts
exclusive_transaction = attempts (num_retries - 1)

module _ (c : Crypto) (ledger : Ledger) where
  unfoldable pub sync_account_next_chunk : (account_id_hex : RowId) → SyncAction ℕ
  sync_account_next_chunk a = exclusive_transaction (sync_chunk_body c ledger a)
