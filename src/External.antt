-- ===== src/External.antt =====
-- What the program takes from the MobileCoin crates: keys, key images, one-time addresses, memo
-- payloads and serialisation. Each value of those crates is opaque and only compared or passed on,
-- so it is a number; each function of theirs is a field of `Crypto`, over which the model is
-- parametric.
use Prim.Native.String.{String}
use full_service.Prelude.{ℕ, Option}
use full_service.Db.Schema.{RowId, Bytes}

-- `mc_transaction_core::Amount`
pub record Amount : Type 0 where
  pub value : ℕ
  pub token_id : ℕ

-- `mc_transaction_core::tx::TxOut`, by the fields that the program reads.
pub record TxOut : Type 0 where
  pub target_key : Bytes
  pub public_key : Bytes
  pub e_fog_hint : Bytes
  pub e_memo : Option Bytes
  pub masked_amount : Bytes

-- The memo types that the program tells apart, with what it reads of each
-- (`mc_transaction_extra::MemoType`). `other` is any further registered type.
pub data MemoType : Type 0 where
  authenticated_sender : (sender_address_hash : RowId) → MemoType
  authenticated_sender_with_payment_intent_id :
      (sender_address_hash : RowId) (payment_intent_id : ℕ) → MemoType
  authenticated_sender_with_payment_request_id :
      (sender_address_hash : RowId) (payment_request_id : ℕ) → MemoType
  destination : (address_hash : RowId) (num_recipients fee total_outlay : ℕ) → MemoType
  destination_with_payment_request_id :
      (address_hash : RowId) (num_recipients fee total_outlay payment_request_id : ℕ) → MemoType
  destination_with_payment_intent_id :
      (address_hash : RowId) (num_recipients fee total_outlay payment_intent_id : ℕ) → MemoType
  other : MemoType

pub record Crypto : Type 0 where
  -- `TxOut::digest32` in hex.
  pub txo_id : TxOut → RowId
  -- `mc_util_serial::encode` and `decode` of keys, key images and confirmation numbers.
  pub encode : Bytes → Bytes
  pub decode : Bytes → Option Bytes
  -- `RistrettoPublic::try_from`, `encode_to_vec` and `to_bytes`.
  pub ristretto_public : Bytes → Option Bytes
  pub encode_to_vec : Bytes → Bytes
  pub to_bytes : Bytes → Bytes
  -- `AccountKey` and `ViewAccountKey`.
  pub decode_account_key : Bytes → Option Bytes
  pub decode_view_account_key : Bytes → Option Bytes
  pub view_account_key_from : Bytes → Bytes
  pub view_private_key : Bytes → Bytes
  pub account_view_private_key : Bytes → Bytes
  pub subaddress_spend_private : Bytes → ℕ → Bytes
  pub subaddress : Bytes → ℕ → Bytes
  pub view_subaddress : Bytes → ℕ → Bytes
  -- `CompressedRistrettoPublic::from`
  pub compressed : Bytes → Bytes
  pub encode_account_key : Bytes → Bytes
  pub encode_view_account_key : Bytes → Bytes
  -- `Mnemonic::entropy`, `derive_slip10_key(0).into()`, `AccountKey::with_fog` and
  -- `AccountKey::from(&RootIdentity)`, with the decoding of the fog authority's key.
  pub mnemonic_entropy : Bytes → Bytes
  pub slip10_account_key : Bytes → Bytes
  pub with_fog : Bytes → String → Bytes → Bytes
  pub root_identity_account_key : Bytes → String → Bytes → Bytes
  pub base64_decode : String → Option Bytes
  -- `PublicAddress::digest32` in hex, `PublicAddress::spend_public_key`, and the indices of
  -- `mc_account_keys`.
  pub digest32 : Bytes → RowId
  pub spend_public_key : Bytes → Bytes
  pub default_subaddress_index : ℕ
  pub change_subaddress_index : ℕ
  -- `mc_transaction_core::onetime_keys` and `KeyImage::from`.
  pub get_tx_out_shared_secret : Bytes → Bytes → Bytes
  pub get_value : TxOut → Bytes → Option Amount
  pub recover_public_subaddress_spend_key : Bytes → Bytes → Bytes → Bytes
  pub recover_onetime_private_key : Bytes → Bytes → Bytes → Bytes
  pub key_image_from : Bytes → Bytes
  -- Memos: `EncryptedMemo::decrypt`, `UnusedMemo.into()`, `get_memo_type`, `MemoType::try_from`.
  pub decrypt : Bytes → Bytes → Bytes
  pub unused_memo : Bytes
  pub get_memo_type : Bytes → ℕ × ℕ
  pub memo_type_try_from : Bytes → Option MemoType
  -- `b58_encode_public_address`
  pub b58_encode_public_address : Bytes → Option RowId
  -- `HexFmt` of a public key.
  pub hex_fmt : Bytes → RowId
