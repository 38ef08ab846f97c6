-- ===== src/GiftCodes/Calls.antt =====
-- The calls of full-service/src/service/gift_code.rs that change the wallet.
use Prim.Native.String.{String}
use full_service.Prelude.{Bool, true, some, List, [], ◌∷◌}
use full_service.Prelude.Int.{as_i64}
use full_service.Prelude.Result.{Result, ok, err, map_err}
use full_service.Prelude.State.{Action, pure, reads, lift, ◌>>=◌, ◌>>◌}
use full_service.Db.Schema.{RowId}
use full_service.Db.Tables.{DbAction}
use full_service.External.{Crypto}
use full_service.B58.{WrapperCrates}
use full_service.Txos.Write.{OutputTxo}
use full_service.Logs.Proposal.{TxProposal}
use full_service.Service.Transaction.{Network}
use full_service.Service.Submit.{ServiceState, submit_transaction}
use full_service.Sync.Defs.{exclusive_transaction}
use full_service.GiftCodes.{
  get, create, delete, GiftCodeServiceError, database, transaction_service, panicked,
  DecodedGiftCode,
}
use full_service.GiftCodes.Status.{
  GiftResult, GiftLedger, decode_transfer_payload, decoded_gift_code,
}

abbrev pub GiftAction : Type 0 → Type 0
GiftAction A = Action ServiceState GiftCodeServiceError A

abbrev pub stored : {A : Type 0} → DbAction A → GiftAction A
stored m s = (
  map_err database (exclusive_transaction m s.db).0,
  record s { db = (exclusive_transaction m s.db).1 },
)

-- `?` on a result whose value is not used.
abbrev pub discarded : {E A : Type 0} → Result E A → Result E (Unit {0})
discarded (ok a) = ok tt
discarded (err e) = err e

abbrev pub first_payload : List OutputTxo → GiftResult OutputTxo
first_payload [] = err panicked
first_payload (o ∷ os) = ok o

module _ (c : Crypto) (w : WrapperCrates) (ledger : GiftLedger) where
  abbrev pub submitted : Network → TxProposal → (comment : String) → RowId → GiftAction (Unit {0})
  submitted network p comment a s =
      let r = submit_transaction c network p (some comment) (some a) s in
      (discarded (map_err transaction_service r.0), r.1)

  -- The gift code is stored before its transaction is sent out.
  unfoldable pub submit_gift_code :
      Network → (from_account_id gift_code_b58 : RowId) → TxProposal → GiftAction DecodedGiftCode
  unfolding decode_transfer_payload exclusive_transaction create submit_transaction
  submit_gift_code network a g p = do
    payload ← lift (decode_transfer_payload w g)
    output ← lift (first_payload p.payload_txos)
    row ← stored (create g (as_i64 output.amount.value))
    submitted network p (ledger.comment_of payload.memo) a
    pure (decoded_gift_code c w row.gift_code_b58 output.amount.value payload)

unfoldable pub remove_gift_code : (gift_code_b58 : RowId) → GiftAction Bool
unfolding get delete exclusive_transaction
remove_gift_code g = do stored (do row ← reads (get g); delete row); pure true
