-- ===== src/B58.antt =====
-- full-service/src/util/b58/mod.rs: addresses, payment requests and transfer payloads as base-58 texts. The
-- `PrintableWrapper` of the MobileCoin crates is a record of its messages; its encoding is a parameter.
pub mod RoundTrip
use Prim.Native.String.{String}
use full_service.Prelude.{ℕ, Bool, true, false, ◌&&◌, Option, none, some, List, []}
use full_service.Prelude.Tests.{◌==◌, if◌then◌else◌, is_some}
use full_service.Prelude.Lists.{length, is_empty}
use full_service.Prelude.Result.{Result, ok, err, ok_or, ◌>>=◌}
use full_service.Db.Schema.{RowId, Bytes}
use full_service.External.{Amount}

pub record PaymentRequest : Type 0 where
  pub public_address : Bytes
  pub value : ℕ
  pub token_id : ℕ
  pub memo : String

-- The entropies as bytes; an entropy that is not set is empty.
pub record TransferPayload : Type 0 where
  pub root_entropy : List ℕ
  pub bip39_entropy : List ℕ
  pub tx_out_public_key : Bytes
  pub memo : String

-- The wrapper holds one message; `empty` has none.
pub data PrintableWrapper : Type 0 where
  empty : PrintableWrapper
  public_address_of : Bytes → PrintableWrapper
  payment_request_of : PaymentRequest → PrintableWrapper
  transfer_payload_of : TransferPayload → PrintableWrapper

pub data B58Error : Type 0 where
  printable_wrapper not_printable_wrapper not_public_address not_payment_request : B58Error
  not_transfer_payload transfer_payload_requires_single_entropy invalid_entropy : B58Error
  proto_conversion : B58Error

abbrev pub B58Result : Type 0 → Type 0
B58Result A = Result B58Error A

-- The encoding of the wrapper, and the conversions of keys; `none` is an error.
pub record WrapperCrates : Type 0 where
  pub b58_encode : PrintableWrapper → Option RowId
  pub b58_decode : RowId → Option PrintableWrapper
  pub address_to_proto : Bytes → Bytes
  pub address_try_from : Bytes → Option Bytes
  pub compressed_try_from : Bytes → Option Bytes
  pub mnemonic_from_entropy : List ℕ → Option Bytes
  pub slip10_account_key : Bytes → Bytes
  pub root_entropy_account_key : List ℕ → Bytes

pub data PrintableWrapperType : Type 0 where
  public_address payment_request transfer_payload : PrintableWrapperType

pub record DecodedTransferPayload : Type 0 where
  pub root_entropy : Option (List ℕ)
  pub bip39_entropy : Option (List ℕ)
  pub account_key : Bytes
  pub txo_public_key : Bytes
  pub memo : String

module _ (w : WrapperCrates) where
  abbrev decoded : RowId → B58Result PrintableWrapper
  decoded b58 = ok_or printable_wrapper (w.b58_decode b58)

  abbrev pub wrapper_type : PrintableWrapper → B58Result PrintableWrapperType
  wrapper_type empty = err not_printable_wrapper
  wrapper_type (public_address_of a) = ok public_address
  wrapper_type (payment_request_of r) = ok payment_request
  wrapper_type (transfer_payload_of p) = ok transfer_payload

  unfoldable pub b58_printable_wrapper_type : RowId → B58Result PrintableWrapperType
  b58_printable_wrapper_type b58 = decoded b58 >>= λ m. wrapper_type m

  unfoldable pub b58_encode_public_address : (public_address : Bytes) → B58Result RowId
  b58_encode_public_address a =
      ok_or printable_wrapper (w.b58_encode (public_address_of (w.address_to_proto a)))

  abbrev pub to_public_address : PrintableWrapper → B58Result Bytes
  to_public_address (public_address_of a) = ok_or proto_conversion (w.address_try_from a)
  to_public_address m = err not_public_address

  unfoldable pub b58_decode_public_address : RowId → B58Result Bytes
  b58_decode_public_address b58 = decoded b58 >>= λ m. to_public_address m

  unfoldable pub b58_encode_payment_request :
      (public_address : Bytes) → Amount → (memo : String) → B58Result RowId
  b58_encode_payment_request a amount memo = ok_or printable_wrapper (
      w.b58_encode (
        payment_request_of (record {
          public_address = w.address_to_proto a;
          value = amount.value;
          token_id = amount.token_id;
          memo = memo;
        })))

  abbrev pub to_payment_request : PrintableWrapper → B58Result PaymentRequest
  to_payment_request (payment_request_of r) =
      ok_or proto_conversion (w.address_try_from r.public_address) >>= λ a.
      ok (record r { public_address = a })
  to_payment_request m = err not_payment_request

  unfoldable pub b58_decode_payment_request : RowId → B58Result PaymentRequest
  b58_decode_payment_request b58 = decoded b58 >>= λ m. to_payment_request m

  unfoldable pub b58_encode_transfer_payload :
      (bip_39_entropy_bytes : List ℕ) (proto_tx_pubkey : Bytes) (memo : String) → B58Result RowId
  b58_encode_transfer_payload entropy key memo = ok_or printable_wrapper (
      w.b58_encode (
        transfer_payload_of (record {
          root_entropy = [];
          bip39_entropy = entropy;
          tx_out_public_key = key;
          memo = memo;
        })))

  -- The account key, from the one entropy that is there.
  abbrev pub key_of_entropy : (root_entropy bip39_entropy : List ℕ) → B58Result Bytes
  key_of_entropy root bip39 =
      if is_empty root
      then if is_empty bip39
        then err transfer_payload_requires_single_entropy
        else (ok_or invalid_entropy (w.mnemonic_from_entropy bip39) >>= λ m.
            ok (w.slip10_account_key m))
      else if is_empty bip39
      then if length root == 32 then ok (w.root_entropy_account_key root) else err invalid_entropy
      else err transfer_payload_requires_single_entropy

  -- An entropy that is set.
  abbrev pub set_entropy : List ℕ → Option (List ℕ)
  set_entropy e = if is_empty e then none else some e

  abbrev pub to_transfer_payload : PrintableWrapper → B58Result DecodedTransferPayload
  to_transfer_payload (transfer_payload_of p) =
      key_of_entropy p.root_entropy p.bip39_entropy >>= λ key.
      ok_or proto_conversion (w.compressed_try_from p.tx_out_public_key) >>= λ public. ok (record {
        root_entropy = set_entropy p.root_entropy;
        bip39_entropy = set_entropy p.bip39_entropy;
        account_key = key;
        txo_public_key = public;
        memo = p.memo;
      })
  to_transfer_payload m = err not_transfer_payload

  unfoldable pub b58_decode_transfer_payload : RowId → B58Result DecodedTransferPayload
  b58_decode_transfer_payload b58 = decoded b58 >>= λ m. to_transfer_payload m
