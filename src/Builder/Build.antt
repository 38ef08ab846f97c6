-- ===== src/Builder/Build.antt =====
-- `build` and `get_fog_resolver` of full-service/src/service/transaction_builder.rs, and
-- `view_account_key` of full-service/src/db/account.rs. The MobileCoin transaction builder, with its
-- random numbers, is a parameter; it is passed on as a value.
use Prim.Native.String.{String}
use full_service.Prelude.{ℕ, suc, Bool, ◌&&◌, Option, none, some, List, [], ◌∷◌, map, reverse}
use full_service.Prelude.Tests.{◌==◌, if◌then◌else◌, unwrap_or}
use full_service.Prelude.Int.{ℤ, as_u64}
use full_service.Prelude.Lists.{is_empty, length}
use full_service.Prelude.Result.{ok, err, ok_or, map_err, ◌>>=◌}
use full_service.Db.Schema.{RowId, Bytes, Account, Txo, AssignedSubaddress}
use full_service.Db.Error.{prost_decode, b58_decode}
use full_service.Db.Tables.{Db, DbResult}
use full_service.Db.Query.{find_account}
use full_service.External.{Crypto, TxOut, Amount}
use full_service.Txos.Spendable.{value_of}
use full_service.Txos.Write.{OutputTxo, map_option, view_private_key}
use full_service.Accounts.Subaddresses.{change_subaddress}
use full_service.Logs.Proposal.{TxPrefix, UnsignedInputTxo, UnsignedTxProposal}
use full_service.Builder.{
  BuilderResult, WalletTransactionBuilder, Outlay, TokenMap, total_value_per_token,
  input_value_per_token, change_amount, fee_or_default, wallet_db, ledger_db, tx_builder,
  fog_pubkey_resolver, uri_parse, tombstone_not_set, no_inputs, no_recipient, ring_size_mismatch,
  rings_and_proofs_empty, cannot_use_orphaned_txo_as_input,
}
use full_service.Builder.Select.{account_key, public_address}
use full_service.Builder.Rings.{TxOutLedger, Ring, zip, get_rings}

-- `TxOutContext`
pub record TxOutContext : Type 0 where
  pub tx_out : TxOut
  pub confirmation : Bytes
  pub shared_secret : Bytes

-- `TransactionBuilder`, `InputCredentials`, `ReservedSubaddresses`, `FogUri` and `PublicAddress` of
-- the MobileCoin crates, and the factory of fog resolvers; `none` is an error.
pub record TxCrates : Type 0 where
  pub ring_size : ℕ
  pub max_block_version : ℕ
  pub tx_out_hash : TxOut → Bytes
  pub same_tx_out : TxOut → TxOut → Bool
  pub b58_decode_public_address : RowId → Option Bytes
  pub fog_report_url : Bytes → Option String
  pub fog_uri : String → Option Bytes
  pub fog_resolver : List Bytes → Option Bytes
  pub reserved_subaddresses : (view_account_key : Bytes) → Bytes
  pub reserved_from_subaddress_index : (account_key : Bytes) → ℕ → Bytes
  pub reserved_change_subaddress : Bytes → Bytes
  pub empty_memo_builder : Bytes
  pub new_with_box :
      (block_version : ℕ) (fee : Amount) (fog_resolver memo_builder : Bytes) → Option Bytes
  pub set_tombstone_block : ℕ → Bytes → Bytes
  pub input_credentials :
      (ring : List TxOut) (proofs : List Bytes) (real_index subaddress_index : ℕ)
      (view_private_key : Bytes)
      → Option Bytes
  pub add_input : (credentials : Bytes) → Bytes → Bytes
  pub add_output : Amount → (receiver : Bytes) → Bytes → Option (TxOutContext × Bytes)
  pub add_change_output : Amount → (reserved : Bytes) → Bytes → Option (TxOutContext × Bytes)
  pub build_unsigned : Bytes → Option TxPrefix

unfoldable pub view_account_key : Crypto → Account → DbResult Bytes
view_account_key c a =
    if a.view_only
    then ok_or prost_decode (c.decode_view_account_key a.account_key)
    else ok_or prost_decode
        (map_option c.view_account_key_from (c.decode_account_key a.account_key))

-- Where the real input stands in its ring, and the ring with it.
abbrev pub replace_first {ℓ} : {A : Type ℓ} → A → List A → List A
replace_first a [] = a ∷ []
replace_first a (x ∷ xs) = a ∷ xs

abbrev pub placed_at :
    Option ℕ → TxOut → (proof : Bytes) → List TxOut → List Bytes → List TxOut × List Bytes × ℕ
placed_at (some i) t proof ring proofs = (ring, proofs, i)
placed_at none t proof ring proofs = (replace_first t ring, replace_first proof proofs, 0)

abbrev pub pop : List Ring → BuilderResult (Ring × List Ring)
pop [] = err rings_and_proofs_empty
pop (r ∷ rs) = ok (r, rs)

abbrev pub output_txo : TxOutContext → Bytes → Amount → OutputTxo
output_txo context recipient amount = record {
  tx_out = context.tx_out;
  recipient_public_address = recipient;
  confirmation_number = context.confirmation;
  amount = amount;
  shared_secret = some context.shared_secret;
}

-- The account's part of a transaction: what `build` reads of the database.
pub record Setup : Type 0 where
  pub account : Account
  pub view_private : Bytes
  pub reserved_subaddresses : Bytes
  pub builder : Bytes

module _ (c : Crypto) (crates : TxCrates) (ledger : TxOutLedger) where
  -- `AssignedSubaddress::public_address`
  abbrev pub public_address_of : AssignedSubaddress → DbResult Bytes
  public_address_of s = ok_or b58_decode (crates.b58_decode_public_address s.public_address_b58)

  -- `filter_map(|x| extract_fog_uri(x).transpose()).collect()`
  unfoldable pub fog_uris : (addresses : List Bytes) → BuilderResult (List Bytes)
  fog_uris [] = ok []
  fog_uris (a ∷ r) = elim (crates.fog_report_url a) [
    | none ↦ fog_uris r
    | some url ↦ (ok_or uri_parse (crates.fog_uri url) >>= λ u. fog_uris r >>= λ us. ok (u ∷ us))
  ]

  unfoldable pub get_fog_resolver : WalletTransactionBuilder → Db → BuilderResult Bytes
  unfolding find_account change_subaddress fog_uris
  get_fog_resolver b db = do
    account ← map_err wallet_db (find_account b.account_id_hex db)
    change ← map_err wallet_db (change_subaddress c account db)
    address ← map_err wallet_db (public_address_of change)
    uris ← fog_uris (address ∷ map (λ o. o.recipient) b.outlays)
    ok_or fog_pubkey_resolver (crates.fog_resolver uris)

  -- The output of the ledger with the public key of a txo.
  unfoldable pub tx_out_of : Txo → BuilderResult TxOut
  tx_out_of t = do
    public ← ok_or ledger_db (c.decode t.public_key)
    index ← ok_or ledger_db (ledger.get_tx_out_index_by_public_key public)
    ok_or ledger_db (ledger.get_tx_out_by_index index)

  unfoldable pub index_of : Txo → BuilderResult ℕ
  unfolding tx_out_of
  index_of t =
      tx_out_of t >>= λ o. ok_or ledger_db (ledger.get_tx_out_index_by_hash (crates.tx_out_hash o))

  unfoldable pub indices_of : List Txo → BuilderResult (List ℕ)
  unfolding index_of
  indices_of [] = ok []
  indices_of (t ∷ ts) = index_of t >>= λ i. indices_of ts >>= λ is. ok (i ∷ is)

  -- `ring.iter().position(…)`
  abbrev pub position : TxOut → List TxOut → Option ℕ
  position t [] = none
  position t (x ∷ xs) = if crates.same_tx_out x t then some 0 else map_option suc (position t xs)

  -- One round of the loop over the inputs, with the ring that was popped.
  unfoldable pub add_input :
      (view_private_key : Bytes) (subaddress_index : ℤ)
      → TxOut
      → Txo
      → (proof : Bytes) → Ring
      → (builder : Bytes) → BuilderResult (UnsignedInputTxo × Bytes)
  add_input view i t utxo proof pairs builder =
      let ring = map (λ p. p.0) pairs in
      let proofs = map (λ p. p.1) pairs in
      let placed = placed_at (position t ring) t proof ring proofs in
      if (length ring == length proofs) && (length placed.0 == length placed.1)
      then (ok_or tx_builder (crates.input_credentials placed.0 placed.1 placed.2 (as_u64 i) view)
          >>= λ credentials. ok (
            record {
              tx_out = t;
              subaddress_index = as_u64 i;
              amount = record { value = value_of utxo; token_id = as_u64 utxo.token_id };
            },
            crates.add_input credentials builder,
          ))
      else err ring_size_mismatch

  -- The loop over the inputs; the rings stand with the last one first, as `pop` takes them.
  unfoldable pub add_inputs :
      (view_private_key : Bytes)
      → List (Txo × Bytes)
      → List Ring
      → (builder : Bytes) → BuilderResult (List UnsignedInputTxo × Bytes)
  unfolding tx_out_of add_input
  add_inputs view [] rings builder = ok ([], builder)
  add_inputs view ((utxo, proof) ∷ rest) rings builder = do
    i ← ok_or (cannot_use_orphaned_txo_as_input utxo.id) utxo.subaddress_index
    t ← tx_out_of utxo
    popped ← pop rings
    added ← add_input view i t utxo proof popped.0 builder
    others ← add_inputs view rest popped.1 added.1
    ok (added.0 ∷ others.0, others.1)

  -- The loop over the outlays.
  unfoldable pub add_outputs :
      List Outlay → (builder : Bytes) → BuilderResult (List OutputTxo × Bytes)
  add_outputs [] builder = ok ([], builder)
  add_outputs (o ∷ os) builder =
      let amount : Amount = record { value = o.value; token_id = o.token_id } in
      ok_or tx_builder (crates.add_output amount o.recipient builder) >>= λ added.
      add_outputs os added.1 >>= λ others.
      ok (output_txo added.0 o.recipient amount ∷ others.0, others.1)

  -- The recipient of the change, and the reserved subaddresses that the output is made with.
  unfoldable pub change_recipient :
      Account
      → (reserved_subaddresses : Bytes) → (subaddress_index_to_spend_from : Option ℕ)
      → BuilderResult (Bytes × Bytes)
  unfolding public_address account_key
  change_recipient account reserved none = ok (crates.reserved_change_subaddress reserved, reserved)
  change_recipient account reserved (some i) = do
    address ← map_err wallet_db (public_address c account i)
    key ← map_err wallet_db (account_key c account)
    ok (address, crates.reserved_from_subaddress_index key i)

  -- The loop over the tokens of the inputs.
  unfoldable pub add_change :
      Account
      → (reserved_subaddresses : Bytes) → (subaddress_index_to_spend_from : Option ℕ)
      → (totals : TokenMap) → TokenMap
      → (builder : Bytes) → BuilderResult (List OutputTxo × Bytes)
  unfolding change_amount change_recipient
  add_change account reserved i totals [] builder = ok ([], builder)
  add_change account reserved i totals (p ∷ m) builder = do
    amount ← change_amount totals p
    recipient ← change_recipient account reserved i
    added ← ok_or tx_builder (crates.add_change_output amount recipient.1 builder)
    others ← add_change account reserved i totals m added.1
    ok (output_txo added.0 recipient.0 amount ∷ others.0, others.1)

  -- `match account.account_key()`
  abbrev pub memo_builder : (memo : Bytes → Bytes) → DbResult Bytes → Bytes
  memo_builder memo (ok key) = memo key
  memo_builder memo (err e) = crates.empty_memo_builder

  -- `build` up to the tombstone block. `memo` makes the memo builder from an account key.
  unfoldable pub set_up :
      (default_fee : ℕ × ℕ) (memo : Bytes → Bytes)
      → Db
      → WalletTransactionBuilder
      → BuilderResult Setup
  unfolding find_account view_account_key view_private_key get_fog_resolver
  set_up default memo db b = do
    account ← map_err wallet_db (find_account b.account_id_hex db)
    view_key ← map_err wallet_db (view_account_key c account)
    view ← map_err wallet_db (view_private_key c account)
    resolver ← get_fog_resolver b db
    let fee = fee_or_default default b
    builder ← ok_or tx_builder (
        crates.new_with_box (unwrap_or crates.max_block_version b.block_version)
          (record { value = fee.0; token_id = fee.1 }) resolver
          (memo_builder memo (account_key c account)))
    ok (record {
      account = account;
      view_private = view;
      reserved_subaddresses = crates.reserved_subaddresses view_key;
      builder = crates.set_tombstone_block b.tombstone builder;
    })

  -- The inputs with their proofs of membership, and the indices that the rings leave out.
  unfoldable pub inputs_and_proofs :
      WalletTransactionBuilder → BuilderResult (List (Txo × Bytes) × List ℕ)
  unfolding indices_of
  inputs_and_proofs b = do
    indexes ← indices_of b.inputs
    proofs ← ok_or ledger_db (ledger.get_tx_out_proof_of_memberships indexes)
    excluded ← indices_of (map (λ p. p.0) (zip b.inputs proofs))
    ok (zip b.inputs proofs, excluded)

  -- `build` once the rings are there.
  unfoldable pub assemble :
      (default_fee : ℕ × ℕ)
      → WalletTransactionBuilder
      → Setup
      → List (Txo × Bytes)
      → List Ring
      → BuilderResult UnsignedTxProposal
  unfolding add_inputs add_outputs add_change total_value_per_token input_value_per_token
  assemble default b setup pairs rings =
      if length rings == length pairs
      then if is_empty b.outlays
        then err no_recipient
        else (let fee = fee_or_default default b in
            let totals = total_value_per_token ((fee.1, fee.0) ∷ []) b.outlays in
            add_inputs setup.view_private pairs (reverse rings) setup.builder >>= λ inputs.
            add_outputs b.outlays inputs.1 >>= λ outputs.
            add_change setup.account setup.reserved_subaddresses b.subaddress_index_to_spend_from
              totals (input_value_per_token [] (map (λ p. p.0) pairs)) outputs.1
            >>= λ change. ok_or tx_builder (crates.build_unsigned change.1) >>= λ prefix.
                ok (record {
                  tx_prefix = prefix;
                  unsigned_input_txos = inputs.0;
                  payload_txos = outputs.0;
                  change_txos = change.0;
                }))
      else err ring_size_mismatch

  abbrev pub with_rings :
      (List Ring → BuilderResult UnsignedTxProposal)
      → Option (BuilderResult (List Ring))
      → Option (BuilderResult UnsignedTxProposal)
  with_rings f none = none
  with_rings f (some rings) = some (rings >>= f)

  -- `build` from the proofs on; `none` is a sampling of rings that goes on after the last draw.
  abbrev pub build_from :
      (draws : List ℕ) (default_fee : ℕ × ℕ)
      → WalletTransactionBuilder
      → BuilderResult (Setup × List (Txo × Bytes) × List ℕ)
      → Option (BuilderResult UnsignedTxProposal)
  build_from draws default b (err e) = some (err e)
  build_from draws default b (ok (setup, pairs, excluded)) =
      with_rings (assemble default b setup pairs)
        (get_rings ledger draws crates.ring_size (length pairs) excluded)

  unfoldable pub build :
      (draws : List ℕ) (default_fee : ℕ × ℕ) (memo : Bytes → Bytes)
      → Db
      → WalletTransactionBuilder
      → Option (BuilderResult UnsignedTxProposal)
  unfolding set_up inputs_and_proofs get_rings assemble
  build draws default memo db b = build_from draws default b (
      set_up default memo db b >>= λ setup.
      if b.tombstone == 0
      then err tombstone_not_set
      else if is_empty b.inputs
      then err no_inputs
      else (inputs_and_proofs b >>= λ p. ok (setup, p.0, p.1)))
