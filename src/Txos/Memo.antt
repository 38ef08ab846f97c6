-- ===== src/Txos/Memo.antt =====
-- Memos of full-service/src/db/txo.rs: the type bytes as an `i32` column, and the memo tables.
use full_service.Prelude.{ℕ, ◌+◌, ◌*◌, ◌/◌, ◌%◌, ◌^◌, ◌<◌, ◌-◌, ◌≡◌, Option, none, some, arith}
use full_service.Prelude.Int.{ℤ, pos, negsuc, as_i64}
use full_service.Prelude.State.{raise, pure}
use full_service.Db.Schema.{RowId, Bytes}
use full_service.Db.Error.{memo_type_error}
use full_service.Db.Tables.{DbAction, insert_authenticated_sender_memo, insert_destination_memo}
use full_service.External.{
  Crypto, MemoType, authenticated_sender, authenticated_sender_with_payment_intent_id,
  authenticated_sender_with_payment_request_id, destination, destination_with_payment_request_id,
  destination_with_payment_intent_id, other,
}

-- `(value >> 8) as u8` and `(value & 0xFF) as u8`: the shift keeps the sign, so the bits of -(n + 1)
-- are those of n, turned over.
unfoldable pub i32_to_two_bytes : ℤ → ℕ × ℕ
i32_to_two_bytes (pos n) = (n / 2 ^ 8 % 2 ^ 8, n % 2 ^ 8)
i32_to_two_bytes (negsuc n) = (255 - n / 2 ^ 8 % 2 ^ 8, 255 - n % 2 ^ 8)

-- `((bytes[0] as i32) << 8) | (bytes[1] as i32)`: the low byte fills the bits that the shift frees.
unfoldable pub two_bytes_to_i32 : ℕ × ℕ → ℤ
two_bytes_to_i32 (hi, lo) = pos (hi * 2 ^ 8 + lo)

-- Every pair of type bytes comes back from the column.
pub i32_to_two_bytes-two_bytes_to_i32 :
    (hi lo : ℕ) → hi < 2 ^ 8 → lo < 2 ^ 8 → i32_to_two_bytes (two_bytes_to_i32 (hi, lo)) ≡ (hi, lo)
unfolding i32_to_two_bytes two_bytes_to_i32
i32_to_two_bytes-two_bytes_to_i32 hi lo h k = ground arith

unfoldable pub add_authenticated_memo_to_database :
    (txo_id sender_address_hash : RowId) (payment_request_id payment_intent_id : Option ℤ)
    → DbAction (Unit {0})
add_authenticated_memo_to_database t h r i =
    insert_authenticated_sender_memo (record {
      txo_id = t;
      sender_address_hash = h;
      payment_request_id = r;
      payment_intent_id = i;
    })

unfoldable pub add_destination_memo_to_database :
    (txo_id recipient_address_hash : RowId) (num_recipients fee total_outlay : ℤ)
    (payment_request_id payment_intent_id : Option ℤ)
    → DbAction (Unit {0})
add_destination_memo_to_database t h n f o r i = insert_destination_memo (record {
  txo_id = t;
  recipient_address_hash = h;
  num_recipients = n;
  fee = f;
  total_outlay = o;
  payment_request_id = r;
  payment_intent_id = i;
})

-- What `match MemoType::try_from(memo_payload)` does on each memo type.
unfoldable pub store_memo : RowId → MemoType → DbAction (Unit {0})
store_memo t (authenticated_sender h) = add_authenticated_memo_to_database t h none none
store_memo t (authenticated_sender_with_payment_intent_id h i) =
    add_authenticated_memo_to_database t h none (some (as_i64 i))
store_memo t (authenticated_sender_with_payment_request_id h r) =
    add_authenticated_memo_to_database t h (some (as_i64 r)) none
store_memo t (destination h n f o) =
    add_destination_memo_to_database t h (pos n) (as_i64 f) (as_i64 o) none none
store_memo t (destination_with_payment_request_id h n f o r) =
    add_destination_memo_to_database t h (pos n) (as_i64 f) (as_i64 o) (some (as_i64 r)) none
store_memo t (destination_with_payment_intent_id h n f o i) =
    add_destination_memo_to_database t h (pos n) (as_i64 f) (as_i64 o) none (some (as_i64 i))
store_memo t other = pure tt

unfoldable pub add_memo_to_database :
    Crypto → (txo_id : RowId) (memo_payload : Bytes) → DbAction (Unit {0})
unfolding add_authenticated_memo_to_database add_destination_memo_to_database
add_memo_to_database c t p = elim (c.memo_type_try_from p) [
  | none ↦ raise memo_type_error
  | some m ↦ store_memo t m
]
