-- ===== src/Db/Error.antt =====
-- The errors of the database layer (full-service/src/db/wallet_db_error.rs): the cases that the
-- modelled code raises, without their message texts.
use full_service.Db.Schema.{RowId}

-- What diesel reports of a statement.
pub data DieselError : Type 0 where
  not_found unique_violation foreign_key_violation : DieselError

pub data WalletDbError : Type 0 where
  diesel : DieselError → WalletDbError
  duplicate_entries prost_decode b58_encode b58_decode base64_decode key_error memo_type_error :
      WalletDbError
  no_spendable_txos insufficient_funds_fragmented_txos : WalletDbError
  insufficient_funds insufficient_funds_under_max_spendable invalid_argument : WalletDbError
  account_not_found account_already_exists assigned_subaddress_not_found : RowId → WalletDbError
  txo_not_found transaction_log_not_found gift_code_not_found : RowId → WalletDbError
  subaddresses_not_supported_for_fog_enabled_accounts : WalletDbError
  account_key_not_available_for_view_only_account : WalletDbError
  invalid_txo_status ledger_db : WalletDbError
