-- ===== src/Builder/Rings.antt =====
-- `get_rings` of full-service/src/service/transaction_builder.rs: the mixins of a transaction. The ledger
-- is a parameter, and so are the random numbers that are drawn, as a list.
use full_service.Prelude.{ℕ, zero, suc, ◌-◌, ◌*◌, Bool, ◌||◌, Option, none, some, List, [], ◌∷◌}
use full_service.Prelude.Tests.{◌==◌, ltb, if◌then◌else◌}
use full_service.Prelude.Lists.{any, length}
use full_service.Prelude.Result.{ok, err, ok_or, ◌>>=◌}
use full_service.Db.Schema.{Bytes}
use full_service.External.{TxOut}
use full_service.Builder.{
  BuilderResult, ledger_db, insufficient_tx_outs, invalid_argument, panicked,
}

-- What the builder asks of `LedgerDB`; `none` is an error of the ledger database.
pub record TxOutLedger : Type 0 where
  pub num_blocks : Option ℕ
  pub num_txos : Option ℕ
  pub get_tx_out_index_by_public_key : Bytes → Option ℕ
  pub get_tx_out_by_index : ℕ → Option TxOut
  pub get_tx_out_index_by_hash : Bytes → Option ℕ
  pub get_tx_out_proof_of_memberships : List ℕ → Option (List Bytes)

-- A ring: outputs of the ledger, each with its proof of membership.
abbrev pub Ring : Type 0
Ring = List (TxOut × Bytes)

abbrev pub elem : ℕ → List ℕ → Bool
elem i xs = any (λ x. x == i) xs

-- The loop that samples indices: one draw in each round, from `0..num_txos`. An index that is excluded or
-- in the set is passed over. `none` is a loop that goes on after the last draw. The order of a
-- `HashSet` is arbitrary; here the last index stands first.
unfoldable pub sample :
    (draws : List ℕ) (num_requested : ℕ) (excluded sampled : List ℕ) → Option (List ℕ)
sample [] requested excluded sampled = if ltb (length sampled) requested then none else some sampled
sample (index ∷ draws) requested excluded sampled =
    let rest =
      sample draws requested excluded
        (if elem index excluded || elem index sampled then sampled else index ∷ sampled) in
    if ltb (length sampled) requested then rest else some sampled

-- `Iterator::zip`
abbrev pub zip {ℓ} : {A B : Type ℓ} → List A → List B → List (A × B)
zip [] ys = []
zip (x ∷ xs) [] = []
zip (x ∷ xs) (y ∷ ys) = (x, y) ∷ zip xs ys

module _ (ledger : TxOutLedger) where
  -- `for _ in 0..RING_SIZE`, with what the iterator has left.
  unfoldable pub take_ring : (n : ℕ) → List (ℕ × Bytes) → BuilderResult (Ring × List (ℕ × Bytes))
  take_ring zero left = ok ([], left)
  take_ring (suc n) [] = err panicked
  take_ring (suc n) ((index, proof) ∷ left) = do
    tx_out ← ok_or ledger_db (ledger.get_tx_out_by_index index)
    ring ← take_ring n left
    ok ((tx_out, proof) ∷ ring.0, ring.1)

  -- `for _ in 0..num_rings`
  unfoldable pub take_rings : (n ring_size : ℕ) → List (ℕ × Bytes) → BuilderResult (List Ring)
  unfolding take_ring
  take_rings zero size left = ok []
  take_rings (suc n) size left = do
    ring ← take_ring size left
    rings ← take_rings n size ring.1
    ok (ring.0 ∷ rings)

  -- The rings of the sampled indices; `none` is a sampling loop that goes on after the last draw.
  abbrev pub rings_of :
      (ring_size num_rings : ℕ) → Option (List ℕ) → Option (BuilderResult (List Ring))
  rings_of size n none = none
  rings_of size n (some indices) = some (
      ok_or ledger_db (ledger.get_tx_out_proof_of_memberships indices) >>= λ proofs.
      take_rings n size (zip indices proofs))

  abbrev pub get_rings_among :
      (draws : List ℕ) (ring_size num_rings : ℕ) (excluded : List ℕ) (num_txos : Option ℕ)
      → Option (BuilderResult (List Ring))
  get_rings_among draws size n excluded none = some (err ledger_db)
  get_rings_among draws size n excluded (some num_txos) =
      if ltb num_txos (length excluded)
      then some (err invalid_argument)
      else if ltb (num_txos - length excluded) (size * n)
      then some (err insufficient_tx_outs)
      else rings_of size n (sample draws (size * n) excluded [])

  unfoldable pub get_rings :
      (draws : List ℕ) (ring_size num_rings : ℕ) (excluded_tx_out_indices : List ℕ)
      → Option (BuilderResult (List Ring))
  unfolding sample take_rings
  get_rings draws size n excluded = get_rings_among draws size n excluded ledger.num_txos
