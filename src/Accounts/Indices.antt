-- ===== src/Accounts/Indices.antt =====
-- The index of the next subaddress, as a maximum over the account's entries.
use full_service.Prelude.{
  ℕ, zero, suc, ◌+◌, ◌-◌, ◌%◌, ◌<◌, ◌≡◌, refl, ap, ◌∙◌, inl, inr, Bool, true, false, Option, none,
  some, List, [], ◌∷◌, ◌++◌, map, arith,
}
use full_service.Prelude.Tests.{◌==◌, if◌then◌else◌, Bool-cases}
use full_service.Prelude.Int.{ℤ, pos, negsuc, leb_ℤ, as_i64, as_u64, as_i64_small, u64_mod, i64_mid}
use full_service.Prelude.Lists.{filter, any, range_from}
use full_service.Prelude.Order.{sort_by, insert_by}
use full_service.Prelude.Result.{ok, err}
use full_service.Db.Schema.{RowId, Account, AssignedSubaddress}
use full_service.Db.Error.{diesel, DieselError}
use full_service.Db.Tables.{Db, DbResult}
use full_service.Accounts.Subaddresses.{index_desc, one_above, next_subaddress_index}

abbrev pub larger : ℤ → Option ℤ → ℤ
larger x none = x
larger x (some y) = if leb_ℤ y x then x else y

-- The largest index of a list of entries.
abbrev pub maximum : List AssignedSubaddress → Option ℤ
maximum [] = none
maximum (s ∷ r) = some (larger s.subaddress_index (maximum r))

abbrev top : List AssignedSubaddress → Option ℤ
top [] = none
top (s ∷ r) = some s.subaddress_index

top-insert_by :
    (s : AssignedSubaddress) (r : List AssignedSubaddress)
    → top (insert_by index_desc s r) ≡ some (larger s.subaddress_index (top r))
unfolding insert_by
top-insert_by s [] = refl
top-insert_by s (t ∷ r) = elim (Bool-cases (leb_ℤ t.subaddress_index s.subaddress_index)) [
  | inl e ↦ rw e refl
  | inr e ↦ rw e refl
]

top-sort_by : (xs : List AssignedSubaddress) → top (sort_by index_desc xs) ≡ maximum xs
unfolding sort_by
top-sort_by [] = refl
top-sort_by (s ∷ r) =
    top-insert_by s (sort_by index_desc r)
    ∙ ap (λ o. some (larger s.subaddress_index o)) (top-sort_by r)

abbrev pub above : Option ℤ → DbResult ℕ
above none = err (diesel DieselError.not_found)
above (some i) = ok ((as_u64 i + 1) % u64_mod)

one_above-top : (xs : List AssignedSubaddress) → one_above xs ≡ above (top xs)
one_above-top [] = refl
one_above-top (s ∷ r) = refl

abbrev pub entries_of : RowId → List AssignedSubaddress → List AssignedSubaddress
entries_of a xs = filter (λ s. s.account_id == a) xs

-- The next index is one above the largest one of the account.
pub next_subaddress_index_lem :
    (a : Account) (db : Db)
    → next_subaddress_index a db ≡ above (maximum (entries_of a.id db.assigned_subaddresses))
unfolding next_subaddress_index
next_subaddress_index_lem a db =
    one_above-top (sort_by index_desc (entries_of a.id db.assigned_subaddresses))
    ∙ ap above (top-sort_by (entries_of a.id db.assigned_subaddresses))

pub entries_of-append :
    (a : RowId) (xs ys : List AssignedSubaddress)
    → entries_of a (xs ++ ys) ≡ entries_of a xs ++ entries_of a ys
entries_of-append a [] ys = refl
entries_of-append a (x ∷ xs) ys = ground (arith, entries_of-append a xs ys)

pub entries_of-none :
    (a : RowId) (xs : List AssignedSubaddress)
    → any (λ s. s.account_id == a) xs ≡ false
    → entries_of a xs ≡ []
entries_of-none a [] h = refl
entries_of-none a (x ∷ xs) h = ground (arith, entries_of-none a xs)

pub entries_of-map :
    (a : RowId) (f : ℕ → AssignedSubaddress)
    → ((i : ℕ) → (f i).account_id ≡ a)
    → (is : List ℕ) → entries_of a (map f is) ≡ map f is
entries_of-map a f own [] = refl
entries_of-map a f own (i ∷ is) = ground (arith, own i, entries_of-map a f own is)

abbrev at_most : ℤ → Option ℤ → Bool
at_most x none = true
at_most x (some y) = leb_ℤ y x

larger_below_one : (a x : ℤ) → leb_ℤ x a ≡ true → larger x (some a) ≡ a
larger_below_one (pos a) (pos x) h = ground arith
larger_below_one (pos a) (negsuc x) h = ground arith
larger_below_one (negsuc a) (pos x) h = ground arith
larger_below_one (negsuc a) (negsuc x) h = ground arith

leb_ℤ-trans : (a b d : ℤ) → leb_ℤ a b ≡ true → leb_ℤ b d ≡ true → leb_ℤ a d ≡ true
leb_ℤ-trans (pos a) (pos b) (pos d) h k = ground arith
leb_ℤ-trans (pos a) (pos b) (negsuc d) h k = cc
leb_ℤ-trans (pos a) (negsuc b) d h k = cc
leb_ℤ-trans (negsuc a) (pos b) (pos d) h k = refl
leb_ℤ-trans (negsuc a) (pos b) (negsuc d) h k = cc
leb_ℤ-trans (negsuc a) (negsuc b) (pos d) h k = refl
leb_ℤ-trans (negsuc a) (negsuc b) (negsuc d) h k = ground arith

leb_ℤ-of_not : (a b : ℤ) → leb_ℤ a b ≡ false → leb_ℤ b a ≡ true
leb_ℤ-of_not (pos a) (pos b) h = ground arith
leb_ℤ-of_not (pos a) (negsuc b) h = refl
leb_ℤ-of_not (negsuc a) (pos b) h = cc
leb_ℤ-of_not (negsuc a) (negsuc b) h = ground arith

-- What is above the larger one is above both.
above_larger :
    (a x : ℤ) (m : Option ℤ)
    → leb_ℤ (larger x m) a ≡ true
    → (leb_ℤ x a ≡ true) × (at_most a m ≡ true)
above_larger a x none h = (h, refl)
above_larger a x (some y) h = elim (Bool-cases (leb_ℤ y x)) [
  | inl e ↦ let xa : leb_ℤ x a ≡ true = rw e at h in (xa, leb_ℤ-trans y x a e xa)
  | inr e ↦ let ya : leb_ℤ y a ≡ true = rw e at h in (leb_ℤ-trans x y a (leb_ℤ-of_not y x e) ya, ya)
]

-- An entry above all others gives the largest index.
pub maximum-append_last :
    (e : AssignedSubaddress) (xs : List AssignedSubaddress)
    → at_most e.subaddress_index (maximum xs) ≡ true
    → maximum (xs ++ e ∷ []) ≡ some e.subaddress_index
maximum-append_last e [] h = refl
maximum-append_last e (x ∷ xs) h =
    let (below, rest) = above_larger e.subaddress_index x.subaddress_index (maximum xs) h in
    ap (λ o. some (larger x.subaddress_index o)) (maximum-append_last e xs rest)
    ∙ ap some (larger_below_one e.subaddress_index x.subaddress_index below)

-- An entry one above the largest becomes the largest.
pub maximum_added :
    (a : RowId) (e : AssignedSubaddress) (xs : List AssignedSubaddress) (k : ℕ)
    → e.account_id ≡ a
    → e.subaddress_index ≡ pos (k + 1)
    → maximum (entries_of a xs) ≡ some (pos k)
    → maximum (entries_of a (xs ++ e ∷ [])) ≡ some (pos (k + 1))
maximum_added a e xs k own index largest =
    let alone : entries_of a (e ∷ []) ≡ e ∷ [] = ground arith in
    ap maximum (entries_of-append a xs (e ∷ []) ∙ ap (λ es. entries_of a xs ++ es) alone)
    ∙ maximum-append_last e (entries_of a xs)
        (ap (at_most e.subaddress_index) largest ∙ ap (λ i. leb_ℤ (pos k) i) index ∙ ground arith)
    ∙ ap some index

-- Entries at consecutive indices from `i` on.
pub maximum-range_from :
    (f : ℕ → AssignedSubaddress)
    → ((i : ℕ) → (f i).subaddress_index ≡ as_i64 i)
    → (i n : ℕ) → i + n < i64_mid
    → maximum (map f (range_from i n)) ≡ (if n == 0 then none else some (pos (i + n - 1)))
maximum-range_from f at_index i zero h = refl
maximum-range_from f at_index i (suc n) h = rw (at_index i) (
    rw (as_i64_small i (omega arith))
      (rw (maximum-range_from f at_index (i + 1) n (omega arith)) (ground arith)))
