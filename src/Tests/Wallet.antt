-- ===== src/Tests/Wallet.antt =====
-- A wallet with two accounts, their txos and logs, a ledger, and functions in place of the
-- MobileCoin crates.
use full_service.Prelude.{ℕ, ◌+◌, ◌-◌, Bool, true, false, Option, none, some, [], ◌∷◌}
use full_service.Prelude.Tests.{◌==◌, if◌then◌else◌}
use full_service.Prelude.Int.{ℤ, pos, u64_max}
use full_service.Db.Schema.{RowId, Account, Txo, TransactionLog}
use full_service.Db.Tables.{Db}
use full_service.External.{Crypto, TxOut, other}
use full_service.Txos.Write.{OutputTxo}
use full_service.Logs.Proposal.{TxProposal, UnsignedTxProposal}
use full_service.Sync.Defs.{Ledger, found, not_found}

-- The id of an output is its public key; an output belongs to the account whose key is its hint.
abbrev pub crypto : Crypto
crypto = record {
  txo_id = λ t. t.public_key;
  encode = λ b. b;
  decode = λ b. some b;
  ristretto_public = λ b. some b;
  encode_to_vec = λ b. b;
  to_bytes = λ b. b;
  decode_account_key = λ b. some b;
  decode_view_account_key = λ b. some b;
  view_account_key_from = λ b. b;
  view_private_key = λ b. b;
  account_view_private_key = λ b. b;
  subaddress_spend_private = λ b i. b + i;
  subaddress = λ b i. b + i;
  view_subaddress = λ b i. b + i;
  compressed = λ b. b;
  encode_account_key = λ b. b;
  encode_view_account_key = λ b. b;
  mnemonic_entropy = λ b. b;
  slip10_account_key = λ b. b;
  with_fog = λ b u k. b;
  root_identity_account_key = λ b u k. b;
  base64_decode = λ s. some 0;
  digest32 = λ b. b;
  spend_public_key = λ b. b;
  default_subaddress_index = 0;
  change_subaddress_index = u64_max - 1;
  get_tx_out_shared_secret = λ v p. v;
  get_value = λ t s.
      if t.e_fog_hint == s then some (record { value = t.masked_amount; token_id = 0 }) else none;
  recover_public_subaddress_spend_key = λ v t p. t;
  recover_onetime_private_key = λ p v s. p;
  key_image_from = λ b. b + 1000;
  decrypt = λ b s. b;
  unused_memo = 0;
  get_memo_type = λ b. (0, 0);
  memo_type_try_from = λ b. some other;
  b58_encode_public_address = λ b. some b;
  hex_fmt = λ b. b;
}

abbrev pub account_of : RowId → ℤ → Account
account_of i next = record {
  id = i;
  account_key = i + 10;
  entropy = none;
  key_derivation_version = pos 2;
  first_block_index = pos 0;
  next_block_index = next;
  import_block_index = none;
  name = "";
  fog_enabled = false;
  view_only = false;
  managed_by_hardware_wallet = false;
  resyncing = false;
  require_spend_subaddress = false;
}

-- A received and unspent txo of account 1.
abbrev pub txo_of : RowId → ℕ → Txo
txo_of i value = record {
  id = i;
  account_id = some 1;
  value = pos value;
  token_id = pos 0;
  target_key = 7;
  public_key = i;
  e_fog_hint = 11;
  subaddress_index = some (pos 0);
  key_image = some (i + 1000);
  received_block_index = some (pos 3);
  spent_block_index = none;
  confirmation = none;
  shared_secret = none;
  memo_type = none;
  is_synced_to_t3 = false;
}

abbrev pub log_of : RowId → Option ℤ → Bool → TransactionLog
log_of i submitted failed = record {
  id = i;
  account_id = 1;
  fee_value = pos 1;
  fee_token_id = pos 0;
  submitted_block_index = submitted;
  tombstone_block_index = some (pos 20);
  finalized_block_index = none;
  comment = "";
  tx = 0;
  failed = failed;
}

-- Txo 100 is an input of a log that failed and of a pending one.
abbrev pub wallet : Db
wallet = record {
  accounts = account_of 1 (pos 5) ∷ account_of 2 (pos 2) ∷ [];
  txos = txo_of 100 30 ∷ txo_of 101 50 ∷ txo_of 102 20 ∷ [];
  assigned_subaddresses =
      record {
        public_address_b58 = 70;
        account_id = 1;
        subaddress_index = pos 0;
        comment = "";
        spend_public_key = 7;
      }
      ∷ [];
  transaction_logs = log_of 40 (some (pos 4)) true ∷ log_of 41 (some (pos 4)) false ∷ [];
  transaction_input_txos =
      record { transaction_log_id = 40; txo_id = 100 }
      ∷ record { transaction_log_id = 41; txo_id = 100 }
      ∷ [];
  transaction_output_txos = [];
  authenticated_sender_memos = [];
  destination_memos = [];
  gift_codes = [];
}

-- The same wallet without the failed log's input.
abbrev pub plain_wallet : Db
plain_wallet = record wallet {
  transaction_input_txos = record { transaction_log_id = 41; txo_id = 100 } ∷ [];
}

abbrev pub output_of : ℕ → ℕ → TxOut
output_of key value = record {
  target_key = 7;
  public_key = key;
  e_fog_hint = 11;
  e_memo = none;
  masked_amount = value;
}

-- Block 5 pays 9 to account 1, and block 6 spends its txo 100; there is no block 7.
abbrev pub ledger : Ledger
ledger = record {
  num_blocks = 7;
  get_block_contents = λ b.
      if b == 5
      then found (record { outputs = output_of 103 9 ∷ []; key_images = [] })
      else if b == 6
      then found (record { outputs = []; key_images = 1100 ∷ [] })
      else not_found;
}

abbrev pub payload : OutputTxo
payload = record {
  tx_out = output_of 200 10;
  recipient_public_address = 5;
  confirmation_number = 6;
  amount = record { value = 10; token_id = 0 };
  shared_secret = none;
}

abbrev pub unsigned_proposal : UnsignedTxProposal
unsigned_proposal = record {
  tx_prefix = record { fee = 1; fee_token_id = 0; tombstone_block = 20 };
  unsigned_input_txos =
      record {
        tx_out = output_of 101 50;
        subaddress_index = 0;
        amount = record { value = 50; token_id = 0 };
      }
      ∷ [];
  payload_txos = payload ∷ [];
  change_txos = [];
}

abbrev pub proposal : TxProposal
proposal = record {
  tx = record { prefix = unsigned_proposal.tx_prefix; encoded = 77 };
  input_txos =
      record {
        tx_out = output_of 101 50;
        subaddress_index = 0;
        key_image = 1101;
        amount = record { value = 50; token_id = 0 };
      }
      ∷ [];
  payload_txos = payload ∷ [];
  change_txos = [];
}
