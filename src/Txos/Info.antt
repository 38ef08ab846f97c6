-- ===== src/Txos/Info.antt =====
-- The reads of full-service/src/db/txo.rs that say what a txo is: its memo, the txos of some public keys,
-- and the check of a confirmation number.
use full_service.Prelude.{ℕ, Bool, ◌&&◌, none, some, List}
use full_service.Prelude.Tests.{◌==◌, if◌then◌else◌}
use full_service.Prelude.Lists.{any, filter, find?}
use full_service.Prelude.Result.{ok, ok_or, ◌>>=◌}
use full_service.Db.Schema.{RowId, Bytes, Txo, AuthenticatedSenderMemo, DestinationMemo}
use full_service.Db.Error.{DieselError, diesel, prost_decode}
use full_service.Db.Tables.{Db, DbResult}
use full_service.Db.Query.{find_account, find_txo}
use full_service.External.{Crypto}
use full_service.Txos.List.{TxoStatus}
use full_service.Txos.Memo.{i32_to_two_bytes}

-- `TxoMemo`
pub data TxoMemo : Type 0 where
  unused : TxoMemo
  authenticated_sender : AuthenticatedSenderMemo → TxoMemo
  destination : DestinationMemo → TxoMemo

-- The type bytes of the memos of the MobileCoin crates, and `TxOutConfirmationNumber::validate`.
pub record MemoCrates : Type 0 where
  pub authenticated_sender_types : List (ℕ × ℕ)
  pub destination_types : List (ℕ × ℕ)
  pub validate : (confirmation public_key view_private_key : Bytes) → Bool

abbrev has_type : List (ℕ × ℕ) → ℕ × ℕ → Bool
has_type types b = any (λ t. t.0 == b.0 && t.1 == b.1) types

module _ (memos : MemoCrates) where
  abbrev pub memo_of_type : ℕ × ℕ → (txo_id : RowId) → Db → DbResult TxoMemo
  memo_of_type b i db =
      if has_type memos.authenticated_sender_types b
      then (ok_or (diesel DieselError.not_found)
            (find? (λ m. m.txo_id == i) db.authenticated_sender_memos)
          >>= λ m. ok (authenticated_sender m))
      else if has_type memos.destination_types b
      then (ok_or (diesel DieselError.not_found) (find? (λ m. m.txo_id == i) db.destination_memos)
          >>= λ m. ok (destination m))
      else ok unused

  unfoldable pub memo : Txo → Db → DbResult TxoMemo
  unfolding i32_to_two_bytes
  memo t db = elim t.memo_type [
    | none ↦ ok unused
    | some k ↦ memo_of_type (i32_to_two_bytes k) t.id db
  ]

  module _ (c : Crypto) where
    unfoldable pub validate_confirmation :
        (account_id txo_id_hex : RowId) (confirmation : Bytes) → Db → DbResult Bool
    unfolding find_txo find_account
    validate_confirmation a i confirmation db = do
      txo ← find_txo i db
      public ← ok_or prost_decode (c.decode txo.public_key)
      account ← find_account a db
      key ← ok_or prost_decode (c.decode_account_key account.account_key)
      ok (memos.validate confirmation public (c.account_view_private_key key))

-- `txos.public_key IN (…)`
abbrev pub has_public_key : Crypto → (public_keys : List Bytes) → Txo → Bool
has_public_key c keys t = any (λ k. t.public_key == c.encode k) keys

unfoldable pub select_by_public_key : Crypto → (public_keys : List Bytes) → Db → List Txo
select_by_public_key c keys db = filter (has_public_key c keys) db.txos

-- `TxoInfo`
pub record TxoInfo : Type 0 where
  pub txo : Txo
  pub memo : TxoMemo
  pub status : TxoStatus
