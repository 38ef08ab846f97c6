-- ===== src/Logs/Values.antt =====
-- The values that `value_map` sums.
use full_service.Prelude.{ℕ, ◌+◌, ◌%◌, ◌≡◌, refl, ◌∙◌, List, [], ◌∷◌, arith}
use full_service.Prelude.Tests.{◌==◌, if◌then◌else◌}
use full_service.Prelude.Int.{as_u64, u64_mod}
use full_service.Db.Schema.{RowId, Txo, TransactionLog}
use full_service.Db.Tables.{Db}
use full_service.Txos.Spendable.{value_of}
use full_service.Logs.Reads.{
  ValueMap, add_value, value_of_token, value_map_of, value_map, get_associated_txos,
}

abbrev pub token_sum : ℕ → List (Txo × RowId) → ℕ
token_sum k [] = 0
token_sum k (o ∷ os) = (if as_u64 o.0.token_id == k then value_of o.0 else 0) + token_sum k os

value_of_token-add_value :
    (k j v : ℕ) (m : ValueMap)
    → value_of_token k (add_value j v m)
      ≡ (if j == k then (value_of_token k m + v) % u64_mod else value_of_token k m)
value_of_token-add_value k j v [] = ground arith
value_of_token-add_value k j v ((i, w) ∷ m) = ground (arith, value_of_token-add_value k j v m)

value_of_token-value_map_of :
    (k s : ℕ) (m : ValueMap) (os : List (Txo × RowId))
    → value_of_token k m ≡ s % u64_mod
    → value_of_token k (value_map_of m os) ≡ (s + token_sum k os) % u64_mod
unfolding value_map_of
value_of_token-value_map_of k s m [] h = h ∙ omega arith
value_of_token-value_map_of k s m (o ∷ os) h =
    value_of_token-value_map_of k (s + (if as_u64 o.0.token_id == k then value_of o.0 else 0))
      (add_value (as_u64 o.0.token_id) (value_of o.0) m) os
      (ground (arith, h, value_of_token-add_value k (as_u64 o.0.token_id) (value_of o.0) m))
    ∙ omega arith

-- The value map of a log gives, for each token, the sum of the values of that token over the outputs
-- that `get_associated_txos` finds for the log, modulo 2^64.
pub value_map_lem :
    (l : TransactionLog) (db : Db) (k : ℕ)
    → value_of_token k (value_map l db) ≡ token_sum k (get_associated_txos l db).outputs % u64_mod
unfolding value_map
value_map_lem l db k =
    value_of_token-value_map_of k 0 [] (get_associated_txos l db).outputs refl ∙ omega arith
