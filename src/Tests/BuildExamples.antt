-- ===== src/Tests/BuildExamples.antt =====
-- A transaction that is built from the small wallet, the loop that samples its rings, the value map of a
-- log, and each theorem on them at one input.
use full_service.Prelude.{
  ℕ, ◌+◌, ◌-◌, ◌%◌, ◌≡◌, ◌≢◌, refl, false, none, some, List, [], ◌∷◌, map, arith,
}
use full_service.Prelude.Tests.{◌==◌}
use full_service.Prelude.Int.{negsuc, u64_mod, as_i64, as_u64}
use full_service.Prelude.Lists.{All, length, is_empty, range_from}
use full_service.Prelude.Result.{ok}
use full_service.Db.Schema.{AssignedSubaddress}
use full_service.Db.Tables.{Db}
use full_service.Db.Query.{find_account}
use full_service.Txos.Write.{view_private_key}
use full_service.Logs.Proposal.{UnsignedTxProposal}
use full_service.Logs.Reads.{get_associated_txos, value_map, value_of_token}
use full_service.Logs.Values.{token_sum, value_map_lem}
use full_service.Accounts.Subaddresses.{change_subaddress, get_for_account_by_index}
use full_service.Builder.{
  change_amount, total_value_per_token, input_value_per_token, fee_or_default,
}
use full_service.Builder.Change.{fee_in}
use full_service.Builder.Conservation.{txo_amount, outlay_amount, amount_sum}
use full_service.Builder.Rings.{TxOutLedger, Ring, sample, take_ring, take_rings, get_rings}
use full_service.Builder.Sampling.{sample_ends}
use full_service.Builder.RingLaws.{IsRing, get_rings-IsRing}
use full_service.Builder.Build.{
  TxCrates, view_account_key, fog_uris, get_fog_resolver, tx_out_of, index_of, indices_of,
  add_input, add_inputs, add_outputs, change_recipient, add_change, set_up, inputs_and_proofs,
  assemble, build,
}
use full_service.Builder.Built.{build-balanced}
use full_service.Tests.Wallet.{crypto, plain_wallet, wallet, output_of, log_of}
use full_service.Tests.BuilderExamples.{builder}

-- A ledger of ten outputs; the output with index `i` has the public key `i + 100`.
abbrev pub outputs : TxOutLedger
outputs = record {
  num_blocks = some 12;
  num_txos = some 10;
  get_tx_out_index_by_public_key = λ b. some (b - 100);
  get_tx_out_by_index = λ i. some (output_of (i + 100) 9);
  get_tx_out_index_by_hash = λ b. some (b - 100);
  get_tx_out_proof_of_memberships = λ is. some is;
}

abbrev pub crates : TxCrates
crates = record {
  ring_size = 2;
  max_block_version = 3;
  tx_out_hash = λ t. t.public_key;
  same_tx_out = λ t u. t.public_key == u.public_key;
  b58_decode_public_address = λ b. some b;
  fog_report_url = λ a. none;
  fog_uri = λ s. none;
  fog_resolver = λ us. some 0;
  reserved_subaddresses = λ b. b;
  reserved_from_subaddress_index = λ b i. b + i;
  reserved_change_subaddress = λ b. b;
  empty_memo_builder = 0;
  new_with_box = λ v fee resolver memo. some 0;
  set_tombstone_block = λ t b. b;
  input_credentials = λ ring proofs real i view. some real;
  add_input = λ credentials b. b + 1;
  add_output = λ a receiver b.
      some (record { tx_out = output_of 200 a.value; confirmation = 6; shared_secret = 8 }, b + 1);
  add_change_output = λ a reserved b.
      some (record { tx_out = output_of 201 a.value; confirmation = 6; shared_secret = 8 }, b + 1);
  build_unsigned = λ b. some (record { fee = 1; fee_token_id = 0; tombstone_block = 20 });
}

sample_ends_example : (r : List ℕ) × (sample (range_from 0 10) 4 (1 ∷ 2 ∷ []) [] ≡ some r)
sample_ends_example = sample_ends 10 4 (1 ∷ 2 ∷ []) (omega arith)

-- An index that is excluded or drawn twice is passed over; what is left after the last ring is full is
-- not drawn.
abbrev draws : List ℕ
draws = 1 ∷ 3 ∷ 3 ∷ 4 ∷ 0 ∷ 2 ∷ 9 ∷ 8 ∷ []

abbrev rings : List Ring
rings =
    ((output_of 109 9, 9) ∷ (output_of 100 9, 0) ∷ [])
    ∷ ((output_of 104 9, 4) ∷ (output_of 103 9, 3) ∷ [])
    ∷ []

rings_result : get_rings outputs draws 2 2 (1 ∷ 2 ∷ []) ≡ some (ok rings)
unfolding get_rings sample take_rings take_ring
rings_result = refl

get_rings-IsRing_example : (length rings ≡ 2) × All (IsRing outputs (1 ∷ 2 ∷ []) 2) rings
get_rings-IsRing_example = get_rings-IsRing outputs (1 ∷ 2 ∷ []) draws 2 2 rings rings_result

abbrev change_entry : AssignedSubaddress
change_entry = record {
  public_address_b58 = 71;
  account_id = 1;
  subaddress_index = negsuc 1;
  comment = "Change";
  spend_public_key = 8;
}

abbrev pub with_change : Db
with_change = record plain_wallet {
  assigned_subaddresses = change_entry ∷ plain_wallet.assigned_subaddresses;
}

abbrev unbuilt : UnsignedTxProposal
unbuilt = record {
  tx_prefix = record { fee = 1; fee_token_id = 0; tombstone_block = 20 };
  unsigned_input_txos =
      record {
        tx_out = output_of 101 9;
        subaddress_index = 0;
        amount = record { value = 50; token_id = 0 };
      }
      ∷ record {
        tx_out = output_of 102 9;
        subaddress_index = 0;
        amount = record { value = 20; token_id = 0 };
      }
      ∷ [];
  payload_txos =
      record {
        tx_out = output_of 200 10;
        recipient_public_address = 5;
        confirmation_number = 6;
        amount = record { value = 10; token_id = 0 };
        shared_secret = some 8;
      }
      ∷ record {
        tx_out = output_of 200 5;
        recipient_public_address = 6;
        confirmation_number = 6;
        amount = record { value = 5; token_id = 1 };
        shared_secret = some 8;
      }
      ∷ [];
  change_txos =
      record {
        tx_out = output_of 201 59;
        recipient_public_address = 11;
        confirmation_number = 6;
        amount = record { value = 59; token_id = 0 };
        shared_secret = some 8;
      }
      ∷ [];
}

build_result :
    build crypto crates outputs draws (1, 0) (λ b. b) with_change builder ≡ some (ok unbuilt)
unfolding build set_up find_account view_account_key view_private_key get_fog_resolver
    change_subaddress get_for_account_by_index fog_uris inputs_and_proofs indices_of index_of
    tx_out_of get_rings sample take_rings take_ring assemble add_inputs add_input add_outputs
    add_change change_amount change_recipient total_value_per_token input_value_per_token as_i64
    as_u64
build_result = refl

build-balanced_example :
    (builder.tombstone ≢ 0)
    × (is_empty builder.inputs ≡ false)
    × (is_empty builder.outlays ≡ false)
    × (map (λ t. t.amount) unbuilt.unsigned_input_txos ≡ map txo_amount builder.inputs)
    × (map (λ o. o.amount) unbuilt.payload_txos ≡ map outlay_amount builder.outlays)
    × All
        (λ o.
          amount_sum o.amount.token_id (map (λ t. t.amount) unbuilt.unsigned_input_txos)
          ≡ amount_sum o.amount.token_id (map (λ p. p.amount) unbuilt.payload_txos)
            + fee_in o.amount.token_id (fee_or_default (1, 0) builder)
            + o.amount.value)
        unbuilt.change_txos
build-balanced_example =
    build-balanced crypto crates outputs (λ is proofs h. ground arith) (1, 0) builder draws (λ b. b)
      with_change unbuilt build_result

-- Log 41 pays two outputs of the wallet to others.
abbrev paying : Db
paying = record wallet {
  transaction_output_txos =
      record {
        transaction_log_id = 41;
        txo_id = 101;
        recipient_public_address_b58 = 5;
        is_change = false;
      }
      ∷ record {
        transaction_log_id = 41;
        txo_id = 102;
        recipient_public_address_b58 = 5;
        is_change = false;
      }
      ∷ [];
}

value_map_lem_example :
    value_of_token 0 (value_map (log_of 41 none false) paying)
    ≡ token_sum 0 (get_associated_txos (log_of 41 none false) paying).outputs % u64_mod
value_map_lem_example = value_map_lem (log_of 41 none false) paying 0

value_map_result : value_of_token 0 (value_map (log_of 41 none false) paying) ≡ 70
unfolding value_map get_associated_txos as_u64
value_map_result = refl
