-- ===== src/Tests/BuilderExamples.antt =====
-- Runs of the transaction builder, and each theorem on it at one input.
use full_service.Prelude.{◌+◌, ◌≡◌, refl, none, [], ◌∷◌, map}
use full_service.Prelude.Int.{pos, as_i64, as_u64}
use full_service.Prelude.Lists.{All}
use full_service.Prelude.Order.{sort_by, insert_by}
use full_service.Prelude.Result.{ok}
use full_service.Db.Tables.{Db}
use full_service.Db.Query.{resolve_subaddress, input_rows}
use full_service.External.{Amount}
use full_service.Txos.Spendable.{
  list_spendable, select_spendable_txos_for_value, select_loop, select_from, grab,
}
use full_service.Builder.{
  WalletTransactionBuilder, build_change, change_amount, change_amounts, total_value_per_token,
  input_value_per_token, fee_or_default,
}
use full_service.Builder.Totals.{input_sum, outlay_sum}
use full_service.Builder.Change.{fee_in, build_change_conserves}
use full_service.Builder.Select.{
  select_txos, select_inputs, select_for_token, spend_subaddress, outlay_value_sum_map,
  select_txos-last,
}
use full_service.Tests.Wallet.{crypto, plain_wallet, txo_of}

-- 10 of token 0 and 5 of token 1, and the default fee.
abbrev pub builder : WalletTransactionBuilder
builder = record {
  account_id_hex = 1;
  inputs = txo_of 101 50 ∷ txo_of 102 20 ∷ [];
  outlays =
      record { recipient = 5; value = 10; token_id = 0 }
      ∷ record { recipient = 6; value = 5; token_id = 1 }
      ∷ [];
  tombstone = 20;
  fee = none;
  block_version = none;
  subaddress_index_to_spend_from = none;
}

-- There is no input of token 1, and the change is found all the same.
change_result : build_change (1, 0) builder ≡ ok (record { value = 59; token_id = 0 } ∷ [])
unfolding build_change change_amount change_amounts total_value_per_token input_value_per_token
    as_u64
change_result = refl

build_change_conserves_example :
    All
      (λ (c : Amount).
        input_sum c.token_id builder.inputs
        ≡ outlay_sum c.token_id builder.outlays
          + fee_in c.token_id (fee_or_default (1, 0) builder)
          + c.value)
      (record { value = 59; token_id = 0 } ∷ [])
    × (map (λ (c : Amount). c.token_id) (record { value = 59; token_id = 0 } ∷ [])
        ≡ map (λ p. p.0) (input_value_per_token [] builder.inputs))
build_change_conserves_example =
    build_change_conserves (1, 0) builder (record { value = 59; token_id = 0 } ∷ []) change_result

-- The wallet with a txo of token 1.
abbrev two_token_wallet : Db
two_token_wallet = record plain_wallet {
  txos = txo_of 101 50 ∷ record (txo_of 104 8) { token_id = pos 1 } ∷ [];
}

abbrev selected : WalletTransactionBuilder
selected = record builder { inputs = record (txo_of 104 8) { token_id = pos 1 } ∷ [] }

-- The inputs of token 0 are lost.
select_result : select_txos crypto 16 (1, 0) none two_token_wallet builder ≡ ok selected
unfolding select_txos select_inputs select_for_token spend_subaddress total_value_per_token
    list_spendable resolve_subaddress input_rows as_i64 as_u64 sort_by insert_by
    select_spendable_txos_for_value grab select_loop select_from
select_result = refl

sums_result : outlay_value_sum_map crypto 16 (1, 0) builder ≡ (0, 11) ∷ (1, 5) ∷ []
unfolding total_value_per_token
sums_result = refl

select_txos-last_example :
    select_for_token crypto 16 (1, 0) none builder two_token_wallet (1, 5) ≡ ok selected.inputs
select_txos-last_example =
    select_txos-last crypto 16 (1, 0) none two_token_wallet builder selected (0, 11) ((1, 5) ∷ [])
      sums_result select_result
