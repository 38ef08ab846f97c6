-- ===== src/GiftCodes.antt =====
-- Gift codes: full-service/src/db/gift_code.rs, and the calls of full-service/src/service/gift_code.rs that
-- list, check, submit and remove them.
pub mod Status
pub mod Calls
pub mod Store
use Prim.Native.String.{String}
use full_service.Prelude.{ℕ, Bool, true, not, Option, none, some, List, [], ◌∷◌, ◌++◌}
use full_service.Prelude.Tests.{◌==◌, if◌then◌else◌}
use full_service.Prelude.Int.{ℤ, as_i64, as_u64}
use full_service.Prelude.Lists.{filter, find?}
use full_service.Prelude.Result.{Result, ok, err, ok_or, map_err}
use full_service.Prelude.State.{Action, pure, raise, reads, lift, modify, ◌>>=◌, ◌>>◌}
use full_service.Db.Schema.{RowId, Bytes, GiftCode}
use full_service.Db.Error.{WalletDbError, gift_code_not_found}
use full_service.Db.Tables.{Db, DbAction, DbResult}
use full_service.Db.Query.{page}
use full_service.External.{Crypto, TxOut, Amount}
use full_service.B58.{WrapperCrates, B58Error, DecodedTransferPayload, b58_decode_transfer_payload}
use full_service.Txos.Write.{OutputTxo}
use full_service.Logs.Proposal.{TxProposal}
use full_service.Service.Sign.{TransactionServiceError}
use full_service.Service.Transaction.{Network}
use full_service.Service.Submit.{ServiceState, submit_transaction}
use full_service.Sync.Defs.{exclusive_transaction}

-- `GiftCodeModel`
unfoldable pub get : (gift_code_b58 : RowId) → Db → DbResult GiftCode
get g db = ok_or (gift_code_not_found g) (find? (λ r. r.gift_code_b58 == g) db.gift_codes)

unfoldable pub create : (gift_code_b58 : RowId) (value : ℤ) → DbAction GiftCode
unfolding get
create g value = do
  modify λ db. record db {
    gift_codes = db.gift_codes ++ record { gift_code_b58 = g; value = value } ∷ [];
  }
  reads (get g)

unfoldable pub list_all : (offset limit : Option ℕ) → Db → List GiftCode
list_all offset limit db = page offset limit db.gift_codes

unfoldable pub delete : GiftCode → DbAction (Unit {0})
delete g = modify λ db. record db {
  gift_codes = filter (λ r. not (r.gift_code_b58 == g.gift_code_b58)) db.gift_codes;
}

-- `GiftCodeServiceError`, by the cases that the modelled code raises.
pub data GiftCodeServiceError : Type 0 where
  database : WalletDbError → GiftCodeServiceError
  b58 : B58Error → GiftCodeServiceError
  transaction_service : TransactionServiceError → GiftCodeServiceError
  ledger_db invalid_key amount : GiftCodeServiceError
  -- A panic of the source.
  panicked : GiftCodeServiceError

pub data GiftCodeStatus : Type 0 where
  gift_code_submitted_pending gift_code_available gift_code_claimed : GiftCodeStatus

pub record DecodedGiftCode : Type 0 where
  pub gift_code_b58 : RowId
  pub root_entropy : Option (List ℕ)
  pub bip39_entropy : Option (List ℕ)
  pub txo_public_key : Bytes
  pub value : ℕ
  pub memo : String
