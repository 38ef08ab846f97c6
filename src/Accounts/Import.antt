-- ===== src/Accounts/Import.antt =====
-- The creation and the import of an account as a whole: the account that is found afterwards, the
-- tables, and the refusal of an account that is there.
use Prim.Native.String.{String}
use full_service.Prelude.{
  ℕ, ◌≡◌, ◌⊎◌, refl, sym, ap, ◌∙◌, inl, inr, Bool, true, false, Option, none, some, List, [], ◌∷◌,
  ◌++◌, ◌<◌, map, arith,
}
use full_service.Prelude.Tests.{◌==◌, unwrap_or}
use full_service.Prelude.Int.{as_i64, as_u64, as_u64-as_i64, i64_mid}
use full_service.Prelude.Lists.{find?, range}
use full_service.Prelude.Result.{ok, err, ok_or, is_ok, ok-injective}
use full_service.Prelude.State.{◌>>=◌}
use full_service.Prelude.Effects.{Answers, Answers-reads, Answers-bind}
use full_service.Db.Schema.{RowId, Bytes, Account, AssignedSubaddress}
use full_service.Db.Error.{account_already_exists, account_not_found}
use full_service.Db.Tables.{Db}
use full_service.Db.Query.{find_account}
use full_service.Db.Rows.{find?-append}
use full_service.External.{Crypto}
use full_service.Accounts.Subaddresses.{view_account_id_of, account_id_of_address}
use full_service.Accounts.Create.{refuse_existing, new_view_only_account, import_view_only}
use full_service.Accounts.Initial.{
  with_account, with_entries, initial_view_only_entries, view_only_entry, import_view_only-Effect,
}

-- An account is found, or looking it up fails.
found_cases :
    (i : RowId) (db : Db)
    → (is_ok (find_account i db) ≡ true) ⊎ (find? (λ a. a.id == i) db.accounts ≡ none)
unfolding find_account
found_cases i db = by_row (find? (λ a. a.id == i) db.accounts)
  where
    by_row : (o : Option Account) → (is_ok (ok_or (account_not_found i) o) ≡ true) ⊎ (o ≡ none)
    by_row none = inr refl
    by_row (some a) = inl refl

-- A new account is found by its id.
find_account-with_account :
    (a : Account) (db : Db)
    → find? (λ b. b.id == a.id) db.accounts ≡ none
    → find_account a.id (with_account a db) ≡ ok a
unfolding find_account
find_account-with_account a db e =
    rw (find?-append (λ b. b.id == a.id) db.accounts (a ∷ [])) (rw e (ground arith))

refuse_existing_found :
    (i : RowId) (db : Db)
    → is_ok (find_account i db) ≡ true
    → refuse_existing i db ≡ (err (account_already_exists i), db)
unfolding refuse_existing
refuse_existing_found i db h = rw h refl

module _ (c : Crypto) (key : Bytes) (first next : Option ℕ) (require : Bool) (db : Db) where
  module _ (name : Option String) (import : ℕ) (managed : Bool) where
    import_view_only-existing :
        is_ok (find_account (view_account_id_of c key) db) ≡ true
        → import_view_only c key name import first next managed require db
          ≡ (err (account_already_exists (view_account_id_of c key)), db)
    unfolding import_view_only ◌>>=◌
    import_view_only-existing h = rw (refuse_existing_found _ db h) refl

    import_view_only-Answers :
        Answers
          (find_account (view_account_id_of c key))
          (import_view_only c key name import first next managed require)
    unfolding import_view_only
    import_view_only-Answers = search (Answers-bind, Answers-reads) depth 12

    pub import_view_only_made :
        (a : Account) (after : Db)
        → import_view_only c key name import first next managed require db ≡ (ok a, after)
        → (a ≡ new_view_only_account c key name import first false managed require)
          × (after
              ≡ with_entries (initial_view_only_entries c key next) (
                  with_account
                    (new_view_only_account c key name import first false managed require)
                    db))
    unfolding find_account
    import_view_only_made a after h =
        let done : is_ok (import_view_only c key name import first next managed require db).0
            ≡ true =
          ap (λ r. is_ok r.0) h in
        let e =
          sym (ap (λ r. r.1) h)
          ∙ (import_view_only-Effect c key name import first next managed require).at db done in
        let made = new_view_only_account c key name import first false managed require in
        let new : find_account made.id (with_account made db) ≡ ok made =
          elim (found_cases (view_account_id_of c key) db) [
            | inl there ↦ cc (ap (λ r. is_ok r.0) (sym (import_view_only-existing there)) ∙ done)
            | inr none_there ↦ find_account-with_account made db none_there
          ] in
        (
          ok-injective (
              sym (import_view_only-Answers.at db after a h)
              ∙ ap (find_account (view_account_id_of c key)) e
              ∙ new),
          e,
        )

-- The account that an import of a view account key asks for.
pub record IsViewOnlyAccount (c : Crypto) (key : Bytes) (name : Option String) (import : ℕ)
    (first : Option ℕ) (managed require : Bool) (a : Account) : Type 0 where
  pub id : a.id ≡ c.digest32 (c.view_subaddress key c.default_subaddress_index)
  pub account_key : a.account_key ≡ c.encode_view_account_key key
  pub no_entropy : a.entropy ≡ none
  pub first_block : a.first_block_index ≡ as_i64 (unwrap_or 0 first)
  pub unsynced : a.next_block_index ≡ a.first_block_index
  pub import_block : a.import_block_index ≡ some (as_i64 import)
  pub named : a.name ≡ unwrap_or "" name
  pub no_fog : a.fog_enabled ≡ false
  pub view_only : a.view_only ≡ true
  pub managed_by : a.managed_by_hardware_wallet ≡ managed
  pub not_resyncing : a.resyncing ≡ false
  pub requires : a.require_spend_subaddress ≡ require

-- The entry of a view-only account for the subaddress with index `i`.
pub record IsEntry (c : Crypto) (key : Bytes) (a : RowId) (i : ℕ) (comment : String)
    (e : AssignedSubaddress) : Type 0 where
  pub of_account : e.account_id ≡ a
  pub at_index : e.subaddress_index ≡ as_i64 i
  pub commented : e.comment ≡ comment
  pub address :
      e.public_address_b58 ≡ unwrap_or 0 (c.b58_encode_public_address (c.view_subaddress key i))
  pub spend_key : e.spend_public_key ≡ c.to_bytes (c.spend_public_key (c.view_subaddress key i))

-- Entries one after the other, at the given indices and with the given comments.
abbrev pub AreEntries :
    Crypto → (key : Bytes) → RowId → List (ℕ × String) → List AssignedSubaddress → Type 0
AreEntries c key a [] [] = Unit
AreEntries c key a [] (e ∷ es) = ⊥
AreEntries c key a (i ∷ is) [] = ⊥
AreEntries c key a (i ∷ is) (e ∷ es) = IsEntry c key a i.0 i.1 e × AreEntries c key a is es

-- The tables after an import: a row of accounts and entries behind those that were there.
pub record IsImported (c : Crypto) (key : Bytes) (next : ℕ) (a : Account) (db after : Db)
    : Type 0 where
  pub accounts : after.accounts ≡ db.accounts ++ a ∷ []
  pub entries : List AssignedSubaddress
  pub assigned : after.assigned_subaddresses ≡ db.assigned_subaddresses ++ entries
  pub at_indices :
      AreEntries c key a.id
        ((c.default_subaddress_index, "Main")
          ∷ (1, "Legacy Change")
          ∷ (c.change_subaddress_index, "Change")
          ∷ map (λ i. (i, "")) (range 2 next))
        entries
  pub elsewhere :
      after
      ≡ record db { accounts = after.accounts; assigned_subaddresses = after.assigned_subaddresses }

module _ (c : Crypto) (key : Bytes) where
  is_entry :
      (i : ℕ) (comment : String)
      → IsEntry c key (view_account_id_of c key) i comment (view_only_entry c key i comment)
  is_entry i comment = record {
    of_account = refl;
    at_index = refl;
    commented = refl;
    address = refl;
    spend_key = refl;
  }

  AreEntries-map :
      (is : List ℕ)
      → AreEntries c key
          (view_account_id_of c key)
          (map (λ i. (i, "")) is)
          (map (λ i. view_only_entry c key i "") is)
  AreEntries-map [] = tt
  AreEntries-map (i ∷ is) = (is_entry i "", AreEntries-map is)

-- A view-only import that returns, with a next subaddress index below 2^63: it answers with an account
-- that has the key's id, the key, the name and the settings that were asked for, no entropy and no fog, the first
-- block that was given (0 without one), and that block as the next one to sync. It adds that account
-- and its subaddresses behind the rows that were there: main, legacy change, change, and those from
-- index 2 up to the next index (2 without one), each with its address and spend key. No other table changes.
pub import_view_only_lem :
    (c : Crypto) (key : Bytes) (first next : Option ℕ) (require : Bool) (db : Db)
    (name : Option String) (import : ℕ) (managed : Bool) (a : Account) (after : Db)
    → unwrap_or 2 next < i64_mid
    → import_view_only c key name import first next managed require db ≡ (ok a, after)
    → IsViewOnlyAccount c key name import first managed require a
      × IsImported c key (unwrap_or 2 next) a db after
unfolding view_account_id_of account_id_of_address
import_view_only_lem c key first next require db name import managed a after small h =
    let (made, tables) =
      import_view_only_made c key first next require db name import managed a after h in
    let given : as_u64 (as_i64 (unwrap_or 2 next)) ≡ unwrap_or 2 next =
      as_u64-as_i64 (unwrap_or 2 next) (omega arith) in
    rw made (
      rw tables (
        record {
          id = refl;
          account_key = refl;
          no_entropy = refl;
          first_block = refl;
          unsynced = refl;
          import_block = refl;
          named = refl;
          no_fog = refl;
          view_only = refl;
          managed_by = refl;
          not_resyncing = refl;
          requires = refl;
        },
        record {
          accounts = refl;
          entries = initial_view_only_entries c key next;
          assigned = refl;
          at_indices = (
            is_entry c key c.default_subaddress_index "Main",
            (
              is_entry c key 1 "Legacy Change",
              (
                is_entry c key c.change_subaddress_index "Change",
                rw given (AreEntries-map c key (range 2 (unwrap_or 2 next))),
              ),
            ),
          );
          elsewhere = refl;
        },
      ))
