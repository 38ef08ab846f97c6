-- ===== src/Accounts/NextIndex.antt =====
-- Which subaddress index comes next: after an import, and after the creation of a subaddress.
use Prim.Native.String.{String}
use full_service.Prelude.{
  ℕ, ◌+◌, ◌-◌, ◌<◌, ◌≡◌, refl, ap, ◌∙◌, Bool, false, Option, none, some, ◌++◌, map, arith,
}
use full_service.Prelude.Tests.{◌==◌, ltb, if◌then◌else◌}
use full_service.Prelude.Int.{ℤ, pos, negsuc, as_i64, as_u64, as_u64-as_i64, i64_mid}
use full_service.Prelude.Lists.{any, range}
use full_service.Prelude.Result.{ok}
use full_service.Db.Schema.{Bytes, Account}
use full_service.Db.Tables.{Db}
use full_service.External.{Crypto}
use full_service.Accounts.Subaddresses.{next_subaddress_index, view_account_id_of}
use full_service.Accounts.Create.{import_view_only, end_of_subaddresses}
use full_service.Accounts.Initial.{view_only_entry, initial_view_only_entries}
use full_service.Accounts.Import.{import_view_only_made}
use full_service.Accounts.Indices.{
  above, larger, maximum, entries_of, next_subaddress_index_lem, entries_of-append, entries_of-none,
  entries_of-map, maximum-range_from,
}

larger_of_initial :
    (k n : ℕ) (a b d : ℤ) (m : Option ℤ)
    → a ≡ pos 0
    → b ≡ pos 1
    → d ≡ negsuc k
    → m ≡ (if (n - 2) == 0 then none else some (pos (2 + (n - 2) - 1)))
    → larger a (some (larger b (some (larger d m)))) ≡ pos (if ltb n 2 then 1 else n - 1)
larger_of_initial k n a b d m ea eb ed em = rw ea (rw eb (rw ed (rw em (ground arith))))

above_initial :
    (n : ℕ)
    → n < i64_mid
    → above (some (pos (if ltb n 2 then 1 else n - 1))) ≡ ok (if ltb n 2 then 2 else n)
unfolding as_u64
above_initial n small = ground arith

-- The largest index of the subaddresses that an import assigns.
module _ (c : Crypto) (k : ℕ) (main : c.default_subaddress_index ≡ 0)
    (change : as_i64 c.change_subaddress_index ≡ negsuc k) (key : Bytes) (n : ℕ)
    (small : n < i64_mid) where
  initial_maximum :
      maximum (initial_view_only_entries c key (some n)) ≡ some (pos (if ltb n 2 then 1 else n - 1))
  unfolding as_i64
  initial_maximum =
      let given : as_u64 (as_i64 n) ≡ n = as_u64-as_i64 n (omega arith) in
      ap some (
        larger_of_initial k n _ _ _ _ (ap as_i64 main) refl change (
          ap (λ e. maximum (map (λ i. view_only_entry c key i "") (range 2 e))) given
          ∙ maximum-range_from (λ i. view_only_entry c key i "") (λ i. refl) 2 (n - 2)
              (omega arith)))

  initial_entries_of :
      entries_of (view_account_id_of c key) (initial_view_only_entries c key (some n))
      ≡ initial_view_only_entries c key (some n)
  initial_entries_of = ground (
    arith,
    entries_of-map (view_account_id_of c key) (λ i. view_only_entry c key i "") (λ i. refl)
        (range 2 (end_of_subaddresses (some n))),
  )

  -- With the default index 0, the change index negative as a signed column, and no subaddress of the
  -- account in the table before: an import of a view-only account with next subaddress index `n`
  -- below 2^63, if it returns, leaves an account whose next subaddress index is `n`, and 2 for a
  -- smaller `n`. The change subaddress does not count.
  pub next_subaddress_index-import_view_only :
      (name : Option String) (import : ℕ) (first : Option ℕ) (managed require : Bool)
      (db after : Db) (a : Account)
      → any (λ s. s.account_id == view_account_id_of c key) db.assigned_subaddresses ≡ false
      → import_view_only c key name import first (some n) managed require db ≡ (ok a, after)
      → next_subaddress_index a after ≡ ok (if ltb n 2 then 2 else n)
  next_subaddress_index-import_view_only name import first managed require db after a fresh h =
      let id = view_account_id_of c key in
      let (made, tables) =
        import_view_only_made c key first (some n) require db name import managed a after h in
      let own : entries_of id after.assigned_subaddresses
          ≡ initial_view_only_entries c key (some n) =
        ap (λ (d : Db). entries_of id d.assigned_subaddresses) tables
        ∙ entries_of-append id db.assigned_subaddresses (initial_view_only_entries c key (some n))
        ∙ ap (λ es. es ++ entries_of id (initial_view_only_entries c key (some n)))
            (entries_of-none id db.assigned_subaddresses fresh)
        ∙ initial_entries_of in
      next_subaddress_index_lem a after
      ∙ ap (λ (b : Account). above (maximum (entries_of b.id after.assigned_subaddresses))) made
      ∙ ap (λ es. above (maximum es)) own
      ∙ ap above initial_maximum
      ∙ above_initial n small
