-- ===== src/Tests/GiftExamples.antt =====
-- Gift codes on the small wallet, and each theorem on them at one input.
use full_service.Prelude.{◌≡◌, ◌≢◌, refl, true, none, some, [], ◌∷◌}
use full_service.Prelude.Int.{pos}
use full_service.Prelude.Result.{ok, err, is_ok}
use full_service.Db.Schema.{RowId}
use full_service.Db.Error.{gift_code_not_found}
use full_service.B58.{DecodedTransferPayload, b58_decode_transfer_payload}
use full_service.Service.Transaction.{Network}
use full_service.Service.Submit.{ServiceState}
use full_service.GiftCodes.{get}
use full_service.GiftCodes.Status.{GiftLedger, at_index, decode_transfer_payload}
use full_service.GiftCodes.Calls.{submit_gift_code, remove_gift_code}
use full_service.GiftCodes.Store.{remove_gift_code_lem, submit_gift_code-keeps}
use full_service.Tests.Wallet.{crypto, wallet, output_of, payload, proposal}
use full_service.Tests.ServiceExamples.{network, service}
use full_service.Tests.WrapperExamples.{wrapper}

-- Gift code 101 is stored twice.
abbrev with_gifts : ServiceState
with_gifts = record service {
  db = record wallet {
    gift_codes =
        record { gift_code_b58 = 101; value = pos 10 }
        ∷ record { gift_code_b58 = 102; value = pos 7 }
        ∷ record { gift_code_b58 = 101; value = pos 10 }
        ∷ [];
  };
}

stored : is_ok (get 101 with_gifts.db) ≡ true
unfolding get
stored = refl

remove_gift_code_lem_example :
    ((remove_gift_code 101 with_gifts).0 ≡ ok true)
    × (get 101 (remove_gift_code 101 with_gifts).1.db ≡ err (gift_code_not_found 101))
    × ((h : RowId) → h ≢ 101 → get h (remove_gift_code 101 with_gifts).1.db ≡ get h with_gifts.db)
remove_gift_code_lem_example = remove_gift_code_lem 101 with_gifts stored

abbrev gift_ledger : GiftLedger
gift_ledger = record {
  tx_out_index_by_public_key = λ b. at_index b;
  get_tx_out_by_index = λ i. some (output_of i 10);
  contains_key_image = λ b. some true;
  comment_of = λ m. m;
}

abbrev refusing : Network
refusing = record network { propose_tx = λ r tx. none }

abbrev gift : DecodedTransferPayload
gift = record {
  root_entropy = none;
  bip39_entropy = some (3 ∷ []);
  account_key = 33;
  txo_public_key = 44;
  memo = "";
}

gift_decodes : decode_transfer_payload wrapper 101 ≡ ok gift
unfolding decode_transfer_payload b58_decode_transfer_payload
gift_decodes = refl

submit_gift_code-keeps_example :
    is_ok
      (get 101 (submit_gift_code crypto wrapper gift_ledger refusing 1 101 proposal service).1.db)
    ≡ true
submit_gift_code-keeps_example =
    submit_gift_code-keeps crypto wrapper gift_ledger refusing 1 101 proposal service gift payload
      gift_decodes refl (λ r. refl)
