-- ===== src/Tests/ServiceExamples.antt =====
-- Requests to the transaction service, and each theorem on them at one input.
use full_service.Prelude.{◌≡◌, ◌⊎◌, ◌++◌, refl, true, false, none, some, List, [], ◌∷◌, arith}
use full_service.Prelude.Tests.{◌==◌, if◌then◌else◌}
use full_service.Prelude.Int.{pos}
use full_service.Prelude.Lists.{All}
use full_service.Prelude.Result.{ok, err, is_ok, ◌>>=◌}
use full_service.Db.Schema.{RowId, Account, AssignedSubaddress}
use full_service.Db.Error.{account_not_found}
use full_service.Db.Tables.{Db}
use full_service.Db.Query.{find_account, find_txo}
use full_service.Builder.{null_subaddress, new, add_recipient}
use full_service.Service.Parse.{parse_u64, parse_digits}
use full_service.Service.Sign.{
  Signers, database, transaction_builder, default_fee_not_found_for_token,
}
use full_service.Service.Transaction.{
  Network, Limits, AmountJson, BuildRequest, add_recipients, build_transaction, prepare,
  validate_number_inputs, validate_number_outputs,
}
use full_service.Service.Submit.{ServiceState, submit_transaction, build_and_sign_transaction}
use full_service.Service.Safety.{
  Accepted, submit_transaction-no_account, submit_transaction-Accepted,
}
use full_service.Service.Atomic.{build_and_sign_transaction-IsAtomic}
use full_service.Service.Guards.{outlays_of, add_recipients_lem}
use full_service.Service.Txos.{transaction_service, split_txo, digits, to_string}
use full_service.Service.Split.{split_txo-null_subaddress}
use full_service.Accounts.Subaddresses.{get_for_account_by_index}
use full_service.Tests.Wallet.{crypto, wallet, account_of, txo_of, proposal}
use full_service.Tests.BuildExamples.{crates, outputs}

-- Two peers; the second is connected, and accepts each transaction at block 9.
abbrev pub network : Network
network = record {
  is_offline = false;
  fee_for_token = some (λ t. if t == 0 then some 1 else none);
  block_version = some 3;
  responder_ids = 80 ∷ 81 ∷ [];
  has_connection = λ r. r == 81;
  propose_tx = λ r tx. some 9;
}

abbrev limits : Limits
limits = record { max_inputs = 16; max_outputs = 16; default_fee = (1, 0) }

abbrev pub service : ServiceState
service = record { db = wallet; submit_node_offset = 3; proposed = [] }

missing : is_ok (find_account 9 service.db) ≡ false
unfolding find_account
missing = refl

submit_transaction-no_account_example :
    submit_transaction crypto network proposal none (some 9) service ≡ (
      err (database (account_not_found 9)),
      record service { submit_node_offset = 4; proposed = (81, proposal.tx) ∷ [] },
    )
submit_transaction-no_account_example =
    submit_transaction-no_account crypto network proposal service none 9 81 9 refl refl refl refl
      refl missing

submit_transaction-Accepted_example :
    ((submit_transaction crypto network proposal (some "rent") (some 1) service).1.db ≡ wallet)
    ⊎ Accepted crypto network proposal service
        (submit_transaction crypto network proposal (some "rent") (some 1) service).1
submit_transaction-Accepted_example =
    submit_transaction-Accepted crypto network proposal (some "rent") (some 1) service

abbrev signers : Signers
signers = record { local_ring_signer = λ k p. none; hardware_wallet = λ u k. none }

abbrev two_recipients : List (RowId × AmountJson)
two_recipients =
    (5, record { value = "10"; token_id = "0" }) ∷ (6, record { value = "7"; token_id = "1" }) ∷ []

abbrev request : BuildRequest
request = record {
  account_id_hex = 1;
  addresses_and_amounts = two_recipients;
  input_txo_ids = none;
  fee_value = none;
  fee_token_id = none;
  tombstone_block = some "20";
  max_spendable_value = none;
  memo = λ b. b;
  block_version = none;
  spend_subaddress = none;
}

-- The fee token is 1, that of the last recipient, and the network has no fee for it.
refused_result :
    build_and_sign_transaction crypto network signers crates outputs limits [] request service
    ≡ some (err default_fee_not_found_for_token, service)
unfolding build_and_sign_transaction build_transaction prepare validate_number_inputs
    validate_number_outputs find_account add_recipients new add_recipient parse_u64 parse_digits
    full_service.Prelude.State.◌>>=◌
refused_result = refl

build_and_sign_transaction-IsAtomic_example : service ≡ service
build_and_sign_transaction-IsAtomic_example =
    build_and_sign_transaction-IsAtomic crypto network signers crates outputs limits [] request
      service service default_fee_not_found_for_token refused_result

abbrev strict_account : Account
strict_account = record (account_of 1 (pos 5)) { require_spend_subaddress = true }

abbrev strict_wallet : Db
strict_wallet = record wallet { accounts = strict_account ∷ [] }

found : find_account 1 strict_wallet ≡ ok strict_account
unfolding find_account
found = refl

abbrev split_target : AssignedSubaddress
split_target = record {
  public_address_b58 = 70;
  account_id = 1;
  subaddress_index = pos 0;
  comment = "";
  spend_public_key = 7;
}

txo_there : find_txo 101 strict_wallet ≡ ok (txo_of 101 50)
unfolding find_txo
txo_there = refl

target_there : get_for_account_by_index 1 (pos 0) strict_wallet ≡ ok split_target
unfolding get_for_account_by_index
target_there = refl

split_txo-null_subaddress_example :
    split_txo crypto signers crates outputs network limits []
      (λ b. b)
      101
      ("20" ∷ "30" ∷ [])
      none
      none
      none
      none
      strict_wallet
    ≡ some (err (transaction_service (transaction_builder null_subaddress)))
split_txo-null_subaddress_example =
    split_txo-null_subaddress crypto signers crates outputs network limits [] (λ b. b) 101
      ("20" ∷ "30" ∷ []) none none none none strict_wallet (txo_of 101 50) 1 strict_account
      split_target (omega arith) (omega arith) txo_there refl target_there found refl

-- The digits of a token.
to_string_result : to_string (pos 8192) ≡ "8192"
unfolding to_string digits
to_string_result = refl

-- Two recipients in token 1.
abbrev one_token : List (RowId × AmountJson)
one_token =
    (5, record { value = "10"; token_id = "1" }) ∷ (6, record { value = "7"; token_id = "1" }) ∷ []

tokens_parsed : All (λ p. parse_u64 p.1.token_id ≡ some 1) one_token
unfolding parse_u64 parse_digits
tokens_parsed = (refl, (refl, tt))

add_recipients_lem_example :
    add_recipients crypto crates outputs network limits one_token 0 (new 1) ≡ (
      outlays_of crypto crates outputs network limits one_token >>= λ os.
      ok (1, record (new 1) { outlays = (new 1).outlays ++ os }))
add_recipients_lem_example =
    add_recipients_lem crypto crates outputs network limits one_token 0 1 (new 1) tokens_parsed

-- In two tokens, the last one is that of the fee.
recipients_result :
    add_recipients crypto crates outputs network limits two_recipients 0 (new 1)
    ≡ ok (
      1,
      record (new 1) {
        outlays =
            record { recipient = 5; value = 10; token_id = 0 }
            ∷ record { recipient = 6; value = 7; token_id = 1 }
            ∷ [];
      },
    )
unfolding add_recipients new add_recipient parse_u64 parse_digits
recipients_result = refl
