-- ===== src/Tests/WrapperExamples.antt =====
-- Base-58 texts, and each theorem on them at one input.
use Prim.Native.String.{String}
use full_service.Prelude.{ℕ, ◌≡◌, refl, Option, none, some, List, [], ◌∷◌, arith}
use full_service.Prelude.Tests.{◌==◌, if◌then◌else◌}
use full_service.Prelude.Result.{ok, err}
use full_service.Db.Schema.{RowId}
use full_service.B58.{
  WrapperCrates, PrintableWrapper, b58_printable_wrapper_type, b58_encode_payment_request,
  b58_decode_public_address, b58_decode_payment_request, b58_encode_transfer_payload,
  b58_decode_transfer_payload, payment_request, transfer_payload, not_payment_request,
  not_transfer_payload, not_public_address, payment_request_of, transfer_payload_of,
  public_address_of, empty,
}
use full_service.B58.RoundTrip.{
  b58_decode_payment_request-encode, b58_decode_transfer_payload-encode,
}

-- A wrapper that encodes one payment request and one transfer payload.
abbrev encode_request : (address value token_id : ℕ) (memo : String) → Option RowId
encode_request a v t String.[] =
    if a == 5 then if v == 9 then if t == 0 then some 100 else none else none else none
encode_request a v t (String.◌∷◌ c s) = none

abbrev encode_payload : (root bip39 : List ℕ) (public_key : ℕ) (memo : String) → Option RowId
encode_payload [] (e ∷ []) k String.[] = if e == 3 then if k == 44 then some 101 else none else none
encode_payload root bip39 k memo = none

abbrev encode_message : PrintableWrapper → Option RowId
encode_message empty = none
encode_message (public_address_of a) = none
encode_message (payment_request_of r) = encode_request r.public_address r.value r.token_id r.memo
encode_message (transfer_payload_of p) =
    encode_payload p.root_entropy p.bip39_entropy p.tx_out_public_key p.memo

abbrev decode_message : RowId → Option PrintableWrapper
decode_message b =
    if b == 100
    then some
        (payment_request_of (record { public_address = 5; value = 9; token_id = 0; memo = "" }))
    else if b == 101
    then some (
        transfer_payload_of
          (record { root_entropy = []; bip39_entropy = 3 ∷ []; tx_out_public_key = 44; memo = "" }))
    else none

abbrev pub wrapper : WrapperCrates
wrapper = record {
  b58_encode = encode_message;
  b58_decode = decode_message;
  address_to_proto = λ a. a;
  address_try_from = λ a. some a;
  compressed_try_from = λ k. some k;
  mnemonic_from_entropy = λ e. some 33;
  slip10_account_key = λ m. m;
  root_entropy_account_key = λ e. 34;
}

request_decodes :
    (a v t : ℕ) (memo : String) (b : RowId)
    → encode_request a v t memo ≡ some b
    → decode_message b
      ≡ some
          (payment_request_of (record { public_address = a; value = v; token_id = t; memo = memo }))
request_decodes a v t String.[] b h = ground arith
request_decodes a v t (String.◌∷◌ c s) b h = cc

payload_decodes :
    (root bip39 : List ℕ) (k : ℕ) (memo : String) (b : RowId)
    → encode_payload root bip39 k memo ≡ some b
    → decode_message b
      ≡ some (
          transfer_payload_of (record {
            root_entropy = root;
            bip39_entropy = bip39;
            tx_out_public_key = k;
            memo = memo;
          }))
payload_decodes [] [] k memo b h = cc
payload_decodes [] (e ∷ []) k String.[] b h = ground arith
payload_decodes [] (e ∷ []) k (String.◌∷◌ c s) b h = cc
payload_decodes [] (e ∷ f ∷ es) k memo b h = cc
payload_decodes (r ∷ rs) bip39 k memo b h = cc

inverse :
    (m : PrintableWrapper) (b58 : RowId)
    → wrapper.b58_encode m ≡ some b58
    → wrapper.b58_decode b58 ≡ some m
inverse empty b h = cc
inverse (public_address_of a) b h = cc
inverse (payment_request_of r) b h = request_decodes r.public_address r.value r.token_id r.memo b h
inverse (transfer_payload_of p) b h =
    payload_decodes p.root_entropy p.bip39_entropy p.tx_out_public_key p.memo b h

request_result :
    b58_encode_payment_request wrapper 5 (record { value = 9; token_id = 0 }) "" ≡ ok 100
unfolding b58_encode_payment_request
request_result = refl

b58_decode_payment_request-encode_example :
    (b58_decode_payment_request wrapper 100
      ≡ ok (record { public_address = 5; value = 9; token_id = 0; memo = "" }))
    × (b58_printable_wrapper_type wrapper 100 ≡ ok payment_request)
    × (b58_decode_public_address wrapper 100 ≡ err not_public_address)
    × (b58_decode_transfer_payload wrapper 100 ≡ err not_transfer_payload)
b58_decode_payment_request-encode_example =
    b58_decode_payment_request-encode wrapper inverse 5 100 (record { value = 9; token_id = 0 }) ""
      refl request_result

payload_result : b58_encode_transfer_payload wrapper (3 ∷ []) 44 "" ≡ ok 101
unfolding b58_encode_transfer_payload
payload_result = refl

b58_decode_transfer_payload-encode_example :
    (b58_decode_transfer_payload wrapper 101
      ≡ ok (record {
        root_entropy = none;
        bip39_entropy = some (3 ∷ []);
        account_key = 33;
        txo_public_key = 44;
        memo = "";
      }))
    × (b58_printable_wrapper_type wrapper 101 ≡ ok transfer_payload)
    × (b58_decode_public_address wrapper 101 ≡ err not_public_address)
    × (b58_decode_payment_request wrapper 101 ≡ err not_payment_request)
b58_decode_transfer_payload-encode_example =
    b58_decode_transfer_payload-encode wrapper inverse (3 ∷ []) 44 44 33 101 "" refl refl refl
      payload_result
