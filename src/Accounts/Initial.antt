-- ===== src/Accounts/Initial.antt =====
-- What the creation and the import of an account leave in the tables.
use Prim.Native.String.{String}
use mathlib.Core.List.{append_assoc, append-nil}
use full_service.Prelude.{
  ℕ, ◌≡◌, sym, ap, ◌∙◌, Bool, true, false, Option, List, [], ◌∷◌, ◌++◌, map, arith,
}
use full_service.Prelude.Tests.{if◌then◌else◌, unwrap_or}
use full_service.Prelude.Int.{ℤ}
use full_service.Prelude.Lists.{range}
use full_service.Prelude.State.{for_each}
use full_service.Prelude.Effects.{
  Effect, Effect-pure, Effect-reads, Effect-bind, Effect-ok_or, Effect-for_each, folded,
}
use full_service.Db.Schema.{RowId, Bytes, Account, AssignedSubaddress}
use full_service.Db.Tables.{Db, insert_account, insert_assigned_subaddress}
use full_service.External.{Crypto}
use full_service.Accounts.Subaddresses.{
  account_id_of, view_account_id_of, entry_of, insert_entry, create_for_view_only_account,
}
use full_service.Accounts.Subaddresses
use full_service.Accounts.Create.{
  default_next_subaddress_index, legacy_change_subaddress_index, end_of_subaddresses, discard,
  refuse_existing, new_account, new_view_only_account, create_legacy_subaddresses, create,
  import_view_only,
}

abbrev pub with_account : Account → Db → Db
with_account a db = record db { accounts = db.accounts ++ a ∷ [] }

abbrev pub with_entries : List AssignedSubaddress → Db → Db
with_entries es db = record db { assigned_subaddresses = db.assigned_subaddresses ++ es }

refuse_existing-Effect : (i : RowId) → Effect (λ db. db) (refuse_existing i)
unfolding refuse_existing
refuse_existing-Effect i = record { at = λ db h. ground arith }

insert_account-Effect : (a : Account) → Effect (with_account a) (insert_account a)
unfolding insert_account
insert_account-Effect a = record { at = λ db h. ground arith }

insert_assigned_subaddress-Effect :
    (e : AssignedSubaddress) → Effect (with_entries (e ∷ [])) (insert_assigned_subaddress e)
unfolding insert_assigned_subaddress
insert_assigned_subaddress-Effect e = record { at = λ db h. ground arith }

-- The effects of loops that add one entry in each round.
with_entries-folded :
    (e : ℕ → AssignedSubaddress) (is : List ℕ) (db : Db)
    → folded (λ i. with_entries (e i ∷ [])) is db ≡ with_entries (map e is) db
with_entries-folded e [] db =
    ap (λ (es : List AssignedSubaddress). record db { assigned_subaddresses = es })
      (sym (append-nil db.assigned_subaddresses))
with_entries-folded e (i ∷ is) db =
    with_entries-folded e is (with_entries (e i ∷ []) db)
    ∙ ap (λ (es : List AssignedSubaddress). record db { assigned_subaddresses = es })
        (append_assoc db.assigned_subaddresses (e i ∷ []) (map e is))

module _ (c : Crypto) where
  -- The entry for an address that is written in base 58.
  abbrev pub entry_at :
      (account_id : RowId) (address : Bytes) (index : ℕ) (comment : String) → AssignedSubaddress
  entry_at a address i comment =
      entry_of c a address i comment (unwrap_or 0 (c.b58_encode_public_address address))

  insert_entry-Effect :
      (a : RowId) (address : Bytes) (i : ℕ) (comment : String)
      → Effect
          (with_entries (entry_at a address i comment ∷ []))
          (insert_entry c a address i comment)
  insert_entry-Effect a address i comment =
      Effect-ok_or (c.b58_encode_public_address address) _ _ _ λ b58 e. rw e (
        Effect-bind _ _ (insert_assigned_subaddress-Effect (entry_of c a address i comment b58))
          (λ _. Effect-pure b58))

  -- The entry of an account, and of a view-only account, at an index.
  abbrev pub entry : (account_key : Bytes) (index : ℕ) (comment : String) → AssignedSubaddress
  entry key i comment = entry_at (account_id_of c key) (c.subaddress key i) i comment

  abbrev pub view_only_entry :
      (view_account_key : Bytes) (index : ℕ) (comment : String) → AssignedSubaddress
  view_only_entry key i comment =
      entry_at (view_account_id_of c key) (c.view_subaddress key i) i comment

  pub create-Effect :
      (key : Bytes) (i : ℕ) (comment : String)
      → Effect (with_entries (entry key i comment ∷ [])) (Subaddresses.create c key i comment)
  unfolding Subaddresses.create
  create-Effect key i comment = insert_entry-Effect _ _ i comment

  pub create_for_view_only_account-Effect :
      (key : Bytes) (i : ℕ) (comment : String)
      → Effect
          (with_entries (view_only_entry key i comment ∷ []))
          (create_for_view_only_account c key i comment)
  unfolding create_for_view_only_account
  create_for_view_only_account-Effect key i comment = insert_entry-Effect _ _ i comment

  -- The subaddresses that an import of a view-only account assigns.
  abbrev pub initial_view_only_entries :
      (view_account_key : Bytes) (next : Option ℕ) → List AssignedSubaddress
  initial_view_only_entries key next =
      view_only_entry key c.default_subaddress_index "Main"
      ∷ view_only_entry key legacy_change_subaddress_index "Legacy Change"
      ∷ view_only_entry key c.change_subaddress_index "Change"
      ∷ map (λ i. view_only_entry key i "")
          (range default_next_subaddress_index (end_of_subaddresses next))

  -- The subaddresses that are assigned with an account that has its keys.
  abbrev pub initial_entries :
      (account_key : Bytes) (next : Option ℕ) (fog_enabled : Bool) → List AssignedSubaddress
  initial_entries key next fog =
      entry key c.default_subaddress_index "Main"
      ∷ entry key c.change_subaddress_index "Change"
      ∷ (if fog
          then []
          else entry key legacy_change_subaddress_index "Legacy Change"
            ∷ map (λ i. entry key i "")
                (range default_next_subaddress_index (end_of_subaddresses next)))

  view_only_range-Effect :
      (key : Bytes) (is : List ℕ)
      → Effect
          (with_entries (map (λ i. view_only_entry key i "") is))
          (for_each is (λ i. discard (create_for_view_only_account c key i "")))
  view_only_range-Effect key is = record {
    at = λ db h.
        (Effect-for_each (λ i. with_entries (view_only_entry key i "" ∷ [])) _
            (λ i.
              Effect-bind _ _ (create_for_view_only_account-Effect key i "") (λ _. Effect-pure tt))
            is).at
          db h
        ∙ with_entries-folded (λ i. view_only_entry key i "") is db;
  }

  pub import_view_only-Effect :
      (key : Bytes) (name : Option String) (import : ℕ) (first next : Option ℕ)
      (managed require : Bool)
      → Effect
          (λ db.
            with_entries (initial_view_only_entries key next) (
              with_account
                (new_view_only_account c key name import first false managed require)
                db))
          (import_view_only c key name import first next managed require)
  unfolding import_view_only
  import_view_only-Effect key name import first next managed require = record {
    at = λ db h.
        (Effect-bind _ _ (refuse_existing-Effect _) λ _.
            Effect-bind _ _ (insert_account-Effect _) λ _.
              Effect-bind _ _ (create_for_view_only_account-Effect key _ _) λ _.
                Effect-bind _ _ (create_for_view_only_account-Effect key _ _) λ _.
                  Effect-bind _ _ (create_for_view_only_account-Effect key _ _)
                    λ _. Effect-bind _ _ (view_only_range-Effect key _) λ _. Effect-reads _).at
          db h
        ∙ simp (append_assoc);
  }

  range-Effect :
      (key : Bytes) (is : List ℕ)
      → Effect
          (with_entries (map (λ i. entry key i "") is))
          (for_each is (λ i. discard (Subaddresses.create c key i "")))
  range-Effect key is = record {
    at = λ db h.
        (Effect-for_each (λ i. with_entries (entry key i "" ∷ [])) _
            (λ i. Effect-bind _ _ (create-Effect key i "") (λ _. Effect-pure tt)) is).at
          db h
        ∙ with_entries-folded (λ i. entry key i "") is db;
  }

  module _ (entropy : Bytes) (version : ℤ) (key : Bytes) (first import next : Option ℕ)
      (name : String) where
    pub create_account-Effect :
        (fog require : Bool)
        → Effect
            (λ db.
              with_entries
                (initial_entries key next fog)
                (with_account (new_account c entropy version key first import name fog require) db))
            (create c entropy version key first import next name fog require)
    unfolding create create_legacy_subaddresses
    create_account-Effect true require = record {
      at = λ db h.
          (Effect-bind _ _ (refuse_existing-Effect _) λ _.
              Effect-bind _ _ (insert_account-Effect _) λ _.
                Effect-bind _ _ (create-Effect key _ _) λ _.
                  Effect-bind _ _ (create-Effect key _ _)
                    λ _. Effect-bind _ _ (Effect-pure tt) λ _. Effect-pure _).at
            db h
          ∙ simp append_assoc;
    }
    create_account-Effect false require = record {
      at = λ db h.
          (Effect-bind _ _ (refuse_existing-Effect _) λ _.
              Effect-bind _ _ (insert_account-Effect _) λ _.
                Effect-bind _ _ (create-Effect key _ _) λ _.
                  Effect-bind _ _ (create-Effect key _ _) λ _.
                    Effect-bind _ _
                      (Effect-bind _ _ (create-Effect key _ _) (λ _. range-Effect key _))
                      λ _. Effect-pure _).at
            db h
          ∙ simp append_assoc;
    }
