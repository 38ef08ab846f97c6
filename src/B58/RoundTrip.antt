-- ===== src/B58/RoundTrip.antt =====
-- What is encoded decodes to what it was, under its own type and no other.
use Prim.Native.String.{String}
use full_service.Prelude.{ℕ, ◌≡◌, refl, false, none, some, List, arith}
use full_service.Prelude.Lists.{is_empty}
use full_service.Prelude.Result.{ok, err, ok_or}
use full_service.Db.Schema.{RowId, Bytes}
use full_service.External.{Amount}
use full_service.B58.{
  WrapperCrates, PrintableWrapper, b58_printable_wrapper_type, b58_decode_public_address,
  b58_encode_payment_request, b58_decode_payment_request, b58_encode_transfer_payload,
  b58_decode_transfer_payload, payment_request, transfer_payload, not_payment_request,
  not_transfer_payload, not_public_address, printable_wrapper,
}

module _ (w : WrapperCrates)
    (inverse : (m : PrintableWrapper) (b58 : RowId)
      → w.b58_encode m ≡ some b58
      → w.b58_decode b58 ≡ some m) where
  encoded :
      (m : PrintableWrapper) (b58 : RowId)
      → ok_or printable_wrapper (w.b58_encode m) ≡ ok b58
      → w.b58_decode b58 ≡ some m
  encoded m b58 h = inverse m b58 (ground arith)

  -- With a wrapper that decodes what it encodes, and an address that converts back: a payment request
  -- that was encoded decodes to the same address, value, token and memo, is of the type of payment
  -- requests, and is refused as an address and as a transfer payload.
  pub b58_decode_payment_request-encode :
      (a b58 : Bytes) (amount : Amount) (memo : String)
      → w.address_try_from (w.address_to_proto a) ≡ some a
      → b58_encode_payment_request w a amount memo ≡ ok b58
      → (b58_decode_payment_request w b58
          ≡ ok (record {
            public_address = a;
            value = amount.value;
            token_id = amount.token_id;
            memo = memo;
          }))
        × (b58_printable_wrapper_type w b58 ≡ ok payment_request)
        × (b58_decode_public_address w b58 ≡ err not_public_address)
        × (b58_decode_transfer_payload w b58 ≡ err not_transfer_payload)
  unfolding b58_encode_payment_request b58_decode_payment_request b58_printable_wrapper_type
      b58_decode_public_address b58_decode_transfer_payload
  b58_decode_payment_request-encode a b58 amount memo back h =
      let e = encoded _ b58 h in (rw e (rw back refl), rw e refl, rw e refl, rw e refl)

  -- With such a wrapper: a transfer payload that was encoded from an entropy that is a mnemonic's
  -- decodes to that entropy and no root entropy, the account key of the mnemonic, the public key and
  -- the memo; and it is refused as an address and as a payment request.
  pub b58_decode_transfer_payload-encode :
      (entropy : List ℕ) (key public mnemonic b58 : Bytes) (memo : String)
      → is_empty entropy ≡ false
      → w.mnemonic_from_entropy entropy ≡ some mnemonic
      → w.compressed_try_from key ≡ some public
      → b58_encode_transfer_payload w entropy key memo ≡ ok b58
      → (b58_decode_transfer_payload w b58
          ≡ ok (record {
            root_entropy = none;
            bip39_entropy = some entropy;
            account_key = w.slip10_account_key mnemonic;
            txo_public_key = public;
            memo = memo;
          }))
        × (b58_printable_wrapper_type w b58 ≡ ok transfer_payload)
        × (b58_decode_public_address w b58 ≡ err not_public_address)
        × (b58_decode_payment_request w b58 ≡ err not_payment_request)
  unfolding b58_encode_transfer_payload b58_decode_payment_request b58_printable_wrapper_type
      b58_decode_public_address b58_decode_transfer_payload
  b58_decode_transfer_payload-encode entropy key public mnemonic b58 memo set m p h =
      let e = encoded _ b58 h in (rw e (rw set (rw m (rw p refl))), rw e refl, rw e refl, rw e refl)
