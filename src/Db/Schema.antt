-- ===== src/Db/Schema.antt =====
-- The rows of the wallet database (full-service/src/db/models.rs). A hex id, a base58 text and a
-- byte string are only compared, so each is a number; a signed column is an integer.
use Prim.Native.String.{String}
use full_service.Prelude.{ℕ, Bool, Option}
use full_service.Prelude.Int.{ℤ}

abbrev pub RowId : Type 0
RowId = ℕ

abbrev pub Bytes : Type 0
Bytes = ℕ

pub record Account : Type 0 where
  pub id : RowId
  pub account_key : Bytes
  pub entropy : Option Bytes
  pub key_derivation_version : ℤ
  pub first_block_index : ℤ
  pub next_block_index : ℤ
  pub import_block_index : Option ℤ
  pub name : String
  pub fog_enabled : Bool
  pub view_only : Bool
  pub managed_by_hardware_wallet : Bool
  pub resyncing : Bool
  pub require_spend_subaddress : Bool

pub record Txo : Type 0 where
  pub id : RowId
  pub account_id : Option RowId
  pub value : ℤ
  pub token_id : ℤ
  pub target_key : Bytes
  pub public_key : Bytes
  pub e_fog_hint : Bytes
  pub subaddress_index : Option ℤ
  pub key_image : Option Bytes
  pub received_block_index : Option ℤ
  pub spent_block_index : Option ℤ
  pub confirmation : Option Bytes
  pub shared_secret : Option Bytes
  pub memo_type : Option ℤ
  pub is_synced_to_t3 : Bool

pub record AssignedSubaddress : Type 0 where
  pub public_address_b58 : RowId
  pub account_id : RowId
  pub subaddress_index : ℤ
  pub comment : String
  pub spend_public_key : Bytes

pub record TransactionLog : Type 0 where
  pub id : RowId
  pub account_id : RowId
  pub fee_value : ℤ
  pub fee_token_id : ℤ
  pub submitted_block_index : Option ℤ
  pub tombstone_block_index : Option ℤ
  pub finalized_block_index : Option ℤ
  pub comment : String
  pub tx : Bytes
  pub failed : Bool

pub record TransactionInputTxo : Type 0 where
  pub transaction_log_id : RowId
  pub txo_id : RowId

pub record TransactionOutputTxo : Type 0 where
  pub transaction_log_id : RowId
  pub txo_id : RowId
  pub recipient_public_address_b58 : RowId
  pub is_change : Bool

pub record AuthenticatedSenderMemo : Type 0 where
  pub txo_id : RowId
  pub sender_address_hash : RowId
  pub payment_request_id : Option ℤ
  pub payment_intent_id : Option ℤ

pub record DestinationMemo : Type 0 where
  pub txo_id : RowId
  pub recipient_address_hash : RowId
  pub num_recipients : ℤ
  pub fee : ℤ
  pub total_outlay : ℤ
  pub payment_request_id : Option ℤ
  pub payment_intent_id : Option ℤ

-- The integer primary key is the row's place in the table.
pub record GiftCode : Type 0 where
  pub gift_code_b58 : RowId
  pub value : ℤ
