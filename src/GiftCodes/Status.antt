-- ===== src/GiftCodes/Status.antt =====
-- The decoding and the status of gift codes in full-service/src/service/gift_code.rs. The ledger is a
-- parameter.
use Prim.Native.String.{String}
use full_service.Prelude.{ℕ, Bool, Option, none, some, List, [], ◌∷◌}
use full_service.Prelude.Tests.{if◌then◌else◌}
use full_service.Prelude.Int.{ℤ, as_i64, as_u64}
use full_service.Prelude.Result.{Result, ok, err, ok_or, map_err, ◌>>=◌}
use full_service.Db.Schema.{RowId, Bytes, GiftCode}
use full_service.Db.Tables.{Db}
use full_service.External.{Crypto, TxOut}
use full_service.B58.{WrapperCrates, DecodedTransferPayload, b58_decode_transfer_payload}
use full_service.GiftCodes.{
  get, list_all, GiftCodeServiceError, database, b58, ledger_db, invalid_key, amount,
  DecodedGiftCode, GiftCodeStatus, gift_code_submitted_pending, gift_code_available,
  gift_code_claimed,
}

-- `get_tx_out_index_by_public_key` tells a missing output from an error of the ledger database.
pub data Found : Type 0 where
  at_index : ℕ → Found
  not_found : Found
  failed : Found

pub record GiftLedger : Type 0 where
  pub tx_out_index_by_public_key : Bytes → Found
  pub get_tx_out_by_index : ℕ → Option TxOut
  pub contains_key_image : Bytes → Option Bool
  -- `serde_json` of the memo of a gift code.
  pub comment_of : (memo : String) → String

abbrev pub GiftResult : Type 0 → Type 0
GiftResult A = Result GiftCodeServiceError A

module _ (w : WrapperCrates) where
  unfoldable pub decode_transfer_payload :
      (gift_code_b58 : RowId) → GiftResult DecodedTransferPayload
  unfolding b58_decode_transfer_payload
  decode_transfer_payload g = map_err b58 (b58_decode_transfer_payload w g)

module _ (c : Crypto) (w : WrapperCrates) where
  abbrev pub decoded_gift_code : RowId → (value : ℕ) → DecodedTransferPayload → DecodedGiftCode
  decoded_gift_code g value p = record {
    gift_code_b58 = g;
    root_entropy = p.root_entropy;
    bip39_entropy = p.bip39_entropy;
    txo_public_key = c.encode p.txo_public_key;
    value = value;
    memo = p.memo;
  }

  -- `DecodedGiftCode::try_from`
  unfoldable pub try_from : GiftCode → GiftResult DecodedGiftCode
  unfolding decode_transfer_payload
  try_from r = decode_transfer_payload w r.gift_code_b58 >>= λ p.
      ok (decoded_gift_code r.gift_code_b58 (as_u64 r.value) p)

  unfoldable pub get_gift_code : (gift_code_b58 : RowId) → Db → GiftResult DecodedGiftCode
  unfolding get try_from
  get_gift_code g db = map_err database (get g db) >>= λ r. try_from r

  abbrev pub try_all : List GiftCode → GiftResult (List DecodedGiftCode)
  try_all [] = ok []
  try_all (r ∷ rs) = try_from r >>= λ d. try_all rs >>= λ ds. ok (d ∷ ds)

  unfoldable pub list_gift_codes :
      (offset limit : Option ℕ) → Db → GiftResult (List DecodedGiftCode)
  unfolding list_all try_from
  list_gift_codes offset limit db = try_all (list_all offset limit db)

  module _ (ledger : GiftLedger) where
    -- The key image of a gift, which is always sent to the main subaddress.
    abbrev pub gift_image : (account_key public : Bytes) → Bytes
    gift_image key public = c.key_image_from (
        c.recover_onetime_private_key public (c.account_view_private_key key)
          (c.subaddress_spend_private key c.default_subaddress_index))

    abbrev pub status_of : Bool → GiftCodeStatus
    status_of claimed = if claimed then gift_code_claimed else gift_code_available

    -- The status of a gift whose output is in the ledger.
    unfoldable pub status_in_ledger :
        DecodedTransferPayload → TxOut → GiftResult (GiftCodeStatus × Option ℤ × String)
    status_in_ledger p out = ok_or invalid_key (c.ristretto_public out.public_key) >>= λ public.
        ok_or amount (
          c.get_value out
            (c.get_tx_out_shared_secret (c.account_view_private_key p.account_key) public))
        >>= λ value. ok_or invalid_key (c.ristretto_public p.txo_public_key) >>= λ own.
            ok_or ledger_db (ledger.contains_key_image (gift_image p.account_key own))
            >>= λ claimed. ok (status_of claimed, some (as_i64 value.value), p.memo)

    abbrev pub status_at :
        DecodedTransferPayload → Found → GiftResult (GiftCodeStatus × Option ℤ × String)
    status_at p not_found = ok (gift_code_submitted_pending, none, p.memo)
    status_at p failed = err ledger_db
    status_at p (at_index i) =
        ok_or ledger_db (ledger.get_tx_out_by_index i) >>= λ out. status_in_ledger p out

    unfoldable pub check_gift_code_status :
        (gift_code_b58 : RowId) → GiftResult (GiftCodeStatus × Option ℤ × String)
    unfolding decode_transfer_payload status_in_ledger
    check_gift_code_status g = decode_transfer_payload w g >>= λ p.
        status_at p (ledger.tx_out_index_by_public_key p.txo_public_key)
