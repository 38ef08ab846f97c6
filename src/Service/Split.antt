-- ===== src/Service/Split.antt =====
-- A txo that is split, for an account that requires a spend subaddress.
use Prim.Native.String.{String}
use full_service.Prelude.{ℕ, ◌-◌, ◌≤◌, ◌≡◌, refl, ap, true, Option, some, List, [], ◌∷◌, map, arith}
use full_service.Prelude.Tests.{unwrap_or}
use full_service.Prelude.Int.{ℤ, pos}
use full_service.Prelude.Lists.{length}
use full_service.Prelude.Result.{ok, err}
use full_service.Db.Schema.{RowId, Bytes, Account, Txo, AssignedSubaddress}
use full_service.Db.Tables.{Db}
use full_service.Db.Query.{find_account, find_txo}
use full_service.External.{Crypto}
use full_service.Accounts.Subaddresses.{get_for_account_by_index}
use full_service.Builder.{null_subaddress}
use full_service.Builder.Rings.{TxOutLedger}
use full_service.Builder.Build.{TxCrates}
use full_service.Service.Sign.{Signers, transaction_builder}
use full_service.Service.Transaction.{Network, Limits, AmountJson}
use full_service.Service.Guards.{build_transaction-null_subaddress}
use full_service.Service.Txos.{
  transaction_service, split_request, request_of, split_txo, sign_split, to_string,
}

length-map_values : {A B : Type 0} (f : A → B) (xs : List A) → length (map f xs) ≡ length xs
length-map_values f [] = refl
length-map_values f (x ∷ xs) = ground (arith, length-map_values f xs)

module _ (c : Crypto) (signers : Signers) (crates : TxCrates) (ledger : TxOutLedger)
    (network : Network) (limits : Limits) where
  -- A txo of an account that requires a spend subaddress cannot be split: with at least one input
  -- allowed, output values within the limit, and the subaddress to split into in the wallet, `split_txo`
  -- fails with `NullSubaddress`, since it never passes a spend subaddress on.
  pub split_txo-null_subaddress :
      (draws : List ℕ) (rth : Bytes → Bytes) (i : RowId) (values : List String) (index : Option ℤ)
      (fee token tombstone : Option String) (db : Db) (txo : Txo) (a : RowId) (account : Account)
      (address : AssignedSubaddress)
      → 1 ≤ limits.max_inputs
      → length values ≤ limits.max_outputs - 1
      → find_txo i db ≡ ok txo
      → txo.account_id ≡ some a
      → get_for_account_by_index a (unwrap_or (pos 0) index) db ≡ ok address
      → find_account a db ≡ ok account
      → account.require_spend_subaddress ≡ true
      → split_txo c signers crates ledger network limits draws rth i values index fee token
          tombstone db
        ≡ some (err (transaction_service (transaction_builder null_subaddress)))
  unfolding split_txo split_request
  split_txo-null_subaddress draws rth i values index fee token tombstone db txo a account address hi
        ho ht ha hs hf required =
      rw ht (
        rw ha (
          rw hs (
            ap (λ r. sign_split c signers crates ledger network limits a db r)
              (build_transaction-null_subaddress c crates ledger network limits draws
                (request_of rth i values fee token tombstone txo a address) db account hi
                (let n =
                    length-map_values {B = RowId × AmountJson}
                      (λ (v : String). (
                        address.public_address_b58,
                        record { value = v; token_id = to_string txo.token_id },
                      ))
                      values in
                  omega arith)
                hf required refl))))
