-- ===== src/Txos/Others.antt =====
-- `create_received` writes one row of the txos table.
use full_service.Prelude.{
  ℕ, ◌≡◌, refl, ap, ◌∙◌, false, Option, none, some, List, [], ◌∷◌, ◌++◌, arith, inl, inr,
}
use full_service.Prelude.Int.{ℤ}
use full_service.Prelude.Tests.{◌==◌, Bool-cases}
use full_service.Prelude.Lists.{find?}
use full_service.Prelude.Result.{ok, err, ok_or}
use full_service.Prelude.Keeps.{Keeps, Keeps-pure, Keeps-bind, Keeps-reads, Keeps-lift}
use full_service.Db.Schema.{RowId, Bytes, Txo}
use full_service.Db.Error.{txo_not_found}
use full_service.Db.Tables.{Db, DbResult, has_account, has_txo, update, insert_txo}
use full_service.Db.Query.{find_txo}
use full_service.Db.Rows.{find?-update, find?-append, find?_holds, update_found, found_or}
use full_service.External.{Crypto, TxOut, Amount}
use full_service.Txos.Receive.{memo_txos}
use full_service.Txos.Write.{update_as_received, store_received, create_received}

-- An update of one row leaves the others.
update_other :
    (i j : RowId) (f : Txo → Txo) (ts : List Txo)
    → ((t : Txo) → (f t).id ≡ t.id)
    → (i == j) ≡ false
    → find? (λ t. t.id == j) (update (λ t. t.id == i) f ts) ≡ find? (λ t. t.id == j) ts
update_other i j f ts same d =
    find?-update (λ t. t.id == j) (λ t. t.id == i) f (λ t. ap (λ k. k == j) (same t)) ts
    ∙ unchanged (find? (λ t. t.id == j) ts) refl
  where
    unchanged :
        (o : Option Txo) → find? (λ t. t.id == j) ts ≡ o → update_found (λ t. t.id == i) f o ≡ o
    unchanged none e = refl
    unchanged (some t) e =
        let at_j = find?_holds (λ t. t.id == j) ts t e in
        let not_i : (t.id == i) ≡ false = ground arith in rw not_i refl

-- A new row leaves the others.
append_other :
    (j : RowId) (u : Txo) (ts : List Txo)
    → (u.id == j) ≡ false
    → find? (λ t. t.id == j) (ts ++ u ∷ []) ≡ find? (λ t. t.id == j) ts
append_other j u ts d =
    find?-append (λ t. t.id == j) ts (u ∷ []) ∙ alone (find? (λ t. t.id == j) ts)
  where
    alone : (o : Option Txo) → found_or o (find? (λ t. t.id == j) (u ∷ [])) ≡ o
    alone none = rw d refl
    alone (some t) = refl

module _ (j : RowId) (before : Option Txo) where
  -- The row with the id `j`.
  pub record SameRow (db : Db) : Type 0 where
    pub row : find? (λ t. t.id == j) db.txos ≡ before

  module _ (c : Crypto) (txo : TxOut) (different : (c.txo_id txo == j) ≡ false) where
    stored-SameRow :
        (sub : Option ℕ) (image : Option Bytes) (amount : Amount) (block : ℕ) (a : RowId)
        (secret : Bytes) (memo : Option ℤ) (db : Db) (r : DbResult Txo)
        → find_txo (c.txo_id txo) db ≡ r
        → SameRow db
        → SameRow (store_received c txo sub image amount block a secret memo r db).1
    unfolding find_txo update_as_received insert_txo
    stored-SameRow sub image amount block a secret memo db (ok found) e h =
        let at_id = find?_holds (λ t. t.id == c.txo_id txo) db.txos found (ground arith) in
        let other : (found.id == j) ≡ false = ground arith in
        elim (Bool-cases (has_account db a)) [
          | inl k ↦
              rw k (record { row = update_other found.id j _ db.txos (λ t. refl) other ∙ h.row })
          | inr k ↦ rw k h
        ]
    stored-SameRow sub image amount block a secret memo db (err (txo_not_found i)) e h =
        elim (Bool-cases (has_txo db (c.txo_id txo))) [
          | inl k ↦ rw k h
          | inr k ↦ elim (Bool-cases (has_account db a)) [
            | inl l ↦ rw (k, l) (record { row = append_other j _ db.txos different ∙ h.row })
            | inr l ↦ rw (k, l) h
          ]
        ]
    stored-SameRow sub image amount block a secret memo db (err e') e h = h

    received-SameRow :
        (sub : Option ℕ) (image : Option Bytes) (amount : Amount) (block : ℕ) (a : RowId)
        → Keeps SameRow (create_received c txo sub image amount block a)
    unfolding create_received
    received-SameRow sub image amount block a = Keeps-bind _ _ (Keeps-reads _) λ account.
        Keeps-bind _ _ (Keeps-lift _) λ public. Keeps-bind _ _ (Keeps-lift _) λ view.
          Keeps-bind _ _
            (record { at = λ db h. stored-SameRow sub image amount block a _ _ db _ refl h })
            λ _.
              Keeps-bind _ _
                (record {
                  at = λ db h. record {
                    row = ap (find? (λ t. t.id == j)) (memo_txos c _ _ db) ∙ h.row;
                  };
                })
                λ _. Keeps-pure _

-- Whether it succeeds or fails, `create_received` leaves every txo but that of the output as it was.
pub create_received-other :
    (c : Crypto) (txo : TxOut) (sub : Option ℕ) (image : Option Bytes) (amount : Amount) (block : ℕ)
    (a : RowId) (db : Db) (j : RowId)
    → (c.txo_id txo == j) ≡ false
    → find_txo j (create_received c txo sub image amount block a db).1 ≡ find_txo j db
unfolding find_txo
create_received-other c txo sub image amount block a db j d =
    ap (ok_or (txo_not_found j))
      ((received-SameRow j _ c txo d sub image amount block a).at db (record { row = refl })).row
