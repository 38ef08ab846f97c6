-- ===== src/GiftCodes/Store.antt =====
-- Which gift codes are stored after a gift code was submitted or removed.
use Prim.Native.String.{String}
use full_service.Prelude.{
  ℕ, ◌≡◌, ◌≢◌, refl, sym, ap, ◌∙◌, true, not, Option, none, some, List, [], ◌∷◌, ◌++◌, arith, inl,
  inr,
}
use full_service.Prelude.Tests.{◌==◌, if◌then◌else◌, ==_iff}
use full_service.Prelude.Int.{ℤ, as_i64}
use full_service.Prelude.Lists.{filter, find?}
use full_service.Prelude.Result.{ok, err, ok_or, map_err, is_ok, is_ok→ok}
use full_service.Prelude.State.{reads, lift, ◌>>=◌}
use full_service.Prelude.Effects.{bind-ok, state-bind-pure}
use full_service.Db.Schema.{RowId, GiftCode}
use full_service.Db.Error.{gift_code_not_found}
use full_service.Db.Tables.{Db, DbAction, DbResult}
use full_service.Db.Rows.{find?-append, found_or, find?_holds}
use full_service.External.{Crypto}
use full_service.B58.{WrapperCrates, DecodedTransferPayload}
use full_service.Txos.Write.{OutputTxo}
use full_service.Logs.Proposal.{TxProposal}
use full_service.Service.Transaction.{Network}
use full_service.Service.Submit.{ServiceState, submit_transaction}
use full_service.Service.Safety.{submit_transaction-Accepted}
use full_service.Sync.Transaction.{exclusive_transaction-ok}
use full_service.GiftCodes.{get, create, delete, database}
use full_service.GiftCodes.Status.{GiftLedger, decode_transfer_payload, decoded_gift_code}
use full_service.GiftCodes.Calls.{
  first_payload, stored, submitted, submit_gift_code, remove_gift_code,
}

find?-without :
    (g h : RowId) (rows : List GiftCode)
    → find? (λ r. r.gift_code_b58 == h) (filter (λ r. not (r.gift_code_b58 == g)) rows)
      ≡ (if h == g then none else find? (λ r. r.gift_code_b58 == h) rows)
find?-without g h [] = ground arith
find?-without g h (r ∷ rows) = ground (arith, find?-without g h rows)

-- The body of the removal.
abbrev removal : (g : RowId) → DbAction (Unit {0})
removal g = reads (get g) >>= λ row. delete row

deleted :
    (g : RowId) (db : Db) (row : GiftCode)
    → get g db ≡ ok row
    → removal g db ≡ (
      ok tt,
      record db {
        gift_codes = filter (λ r. not (r.gift_code_b58 == row.gift_code_b58)) db.gift_codes;
      },
    )
unfolding delete ◌>>=◌
deleted g db row found = rw found refl

removed :
    (g : RowId) (s : ServiceState) (row : GiftCode)
    → get g s.db ≡ ok row
    → remove_gift_code g s ≡ (
      ok true,
      record s {
        db = record s.db {
          gift_codes = filter (λ r. not (r.gift_code_b58 == row.gift_code_b58)) s.db.gift_codes;
        };
      },
    )
unfolding remove_gift_code ◌>>=◌
removed g s row found =
    rw (exclusive_transaction-ok (removal g) s.db _ tt (deleted g s.db row found), ◌>>=◌) refl

code_of_found : (g : RowId) (db : Db) (row : GiftCode) → get g db ≡ ok row → row.gift_code_b58 ≡ g
unfolding get
code_of_found g db row h =
    let e : find? (λ r. r.gift_code_b58 == g) db.gift_codes ≡ some row = ground arith in
    (==_iff row.gift_code_b58 g).0 (find?_holds (λ r. r.gift_code_b58 == g) db.gift_codes row e)

get_without :
    (g h : RowId) (db : Db)
    → get h (record db { gift_codes = filter (λ r. not (r.gift_code_b58 == g)) db.gift_codes })
      ≡ (if h == g then err (gift_code_not_found h) else get h db)
unfolding get
get_without g h db = rw (find?-without g h db.gift_codes) (ground arith)

-- Removing a gift code that is stored succeeds; afterwards no row has that code, however many had it
-- before, and every other code is found as it was.
pub remove_gift_code_lem :
    (g : RowId) (s : ServiceState)
    → is_ok (get g s.db) ≡ true
    → ((remove_gift_code g s).0 ≡ ok true)
      × (get g (remove_gift_code g s).1.db ≡ err (gift_code_not_found g))
      × ((h : RowId) → h ≢ g → get h (remove_gift_code g s).1.db ≡ get h s.db)
remove_gift_code_lem g s there =
    let (row, found) = is_ok→ok (get g s.db) there in
    let gone = removed g s row found in
    let code = code_of_found g s.db row found in
    (
      ap (λ r. r.0) gone,
      ap (λ r. get g r.1.db) gone ∙ get_without row.gift_code_b58 g s.db ∙ ground arith,
      λ h other.
          ap (λ r. get h r.1.db) gone
          ∙ get_without row.gift_code_b58 h s.db
          ∙ ground (arith, other),
    )

get-created :
    (g : RowId) (row : GiftCode) (db : Db)
    → row.gift_code_b58 ≡ g
    → is_ok (get g (record db { gift_codes = db.gift_codes ++ row ∷ [] })) ≡ true
unfolding get
get-created g row db own =
    rw (find?-append (λ r. r.gift_code_b58 == g) db.gift_codes (row ∷ []))
      (by_old (find? (λ r. r.gift_code_b58 == g) db.gift_codes))
  where
    by_old :
        (o : Option GiftCode)
        → is_ok (
            ok_or
              (gift_code_not_found g)
              (found_or o (if row.gift_code_b58 == g then some row else none)))
          ≡ true
    by_old none = ground arith
    by_old (some r) = refl

created :
    (g : RowId) (value : ℤ) (db : Db) (row : GiftCode)
    → get g (record db {
      gift_codes = db.gift_codes ++ record { gift_code_b58 = g; value = value } ∷ [];
    })
      ≡ ok row
    → create g value db ≡ (
      ok row,
      record db { gift_codes = db.gift_codes ++ record { gift_code_b58 = g; value = value } ∷ [] },
    )
unfolding create ◌>>=◌
created g value db row h = rw h refl

module _ (c : Crypto) (w : WrapperCrates) (ledger : GiftLedger) (network : Network) (a g : RowId)
    (p : TxProposal) (s : ServiceState) where
  -- What is left once the gift code is stored.
  submit_after_store :
      (payload : DecodedTransferPayload) (o : OutputTxo) (row : GiftCode) (t : ServiceState)
      → decode_transfer_payload w g ≡ ok payload
      → first_payload p.payload_txos ≡ ok o
      → stored (create g (as_i64 o.amount.value)) s ≡ (ok row, t)
      → (submit_gift_code c w ledger network a g p s).1
        ≡ (submit_transaction c network p (some (ledger.comment_of payload.memo)) (some a) t).1
  unfolding submit_gift_code
  submit_after_store payload o row t d f h =
      ap (λ r. r.1)
        (bind-ok (lift (decode_transfer_payload w g)) _ s s payload (ap (λ r. (r, s)) d)
          ∙ bind-ok (lift (first_payload p.payload_txos)) _ s s o (ap (λ r. (r, s)) f)
          ∙ bind-ok (stored (create g (as_i64 o.amount.value))) _ s t row h)
      ∙ state-bind-pure (submitted c w ledger network p (ledger.comment_of payload.memo) a)
          (decoded_gift_code c w row.gift_code_b58 o.amount.value payload) t

  -- Where no peer accepts the transaction, its submission leaves the database alone.
  refused_submission :
      (comment : Option String) (t : ServiceState)
      → ((r : ℕ) → network.propose_tx r p.tx ≡ none)
      → (submit_transaction c network p comment (some a) t).1.db ≡ t.db
  refused_submission comment t refused =
      elim (submit_transaction-Accepted c network p comment (some a) t) [
        | inl same ↦ same
        | inr k ↦ absurd (cc (sym (refused k.responder) ∙ k.accepted))
      ]

  -- Where the gift code decodes and the proposal has a payload, but no peer accepts the transaction:
  -- `submit_gift_code` leaves the gift code stored all the same.
  pub submit_gift_code-keeps :
      (payload : DecodedTransferPayload) (o : OutputTxo)
      → decode_transfer_payload w g ≡ ok payload
      → first_payload p.payload_txos ≡ ok o
      → ((r : ℕ) → network.propose_tx r p.tx ≡ none)
      → is_ok (get g (submit_gift_code c w ledger network a g p s).1.db) ≡ true
  submit_gift_code-keeps payload o d f refused =
      let row : GiftCode = record { gift_code_b58 = g; value = as_i64 o.amount.value } in
      let after = record s.db { gift_codes = s.db.gift_codes ++ row ∷ [] } in
      let there = get-created g row s.db refl in
      let (found, e) = is_ok→ok (get g after) there in
      let saved =
        exclusive_transaction-ok (create g (as_i64 o.amount.value)) s.db after found
          (created g (as_i64 o.amount.value) s.db found e) in
      let t : ServiceState = record s { db = after } in
      ap (λ u. is_ok (get g u.db))
        (submit_after_store payload o found t d f (
          ap (λ (r : DbResult GiftCode × Db). (map_err database r.0, record s { db = r.1 })) saved))
      ∙ ap (λ db. is_ok (get g db))
          (refused_submission (some (ledger.comment_of payload.memo)) t refused)
      ∙ there
