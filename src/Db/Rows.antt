-- ===== src/Db/Rows.antt =====
-- Laws of the row operations that statements are made of: `find?`, `any` and `update` on a table.
use mathlib.Core.List.{Memᴰ, Mem}
use mathlib.Core.Logic.{∥∥₁_map, ∥∥₁_elim}
use full_service.Prelude.{
  ◌≡◌, refl, ap, inl, inr, Bool, true, false, Option, none, some, List, [], ◌∷◌, ◌++◌, arith, sym,
  ◌∙◌, subst,
}
use full_service.Prelude.Tests.{if◌then◌else◌, Bool-cases}
use full_service.Prelude.Lists.{All, any, find?, filter}
use full_service.Db.Tables.{update}

module _ {ℓ} {A : Type ℓ} where
  abbrev pub update_found : (A → Bool) → (A → A) → Option A → Option A
  update_found p f none = none
  update_found p f (some x) = some (if p x then f x else x)

  -- A row found after an update is the row found before it, updated.
  pub find?-update :
      (key p : A → Bool) (f : A → A)
      → ((x : A) → key (f x) ≡ key x)
      → (xs : List A) → find? key (update p f xs) ≡ update_found p f (find? key xs)
  find?-update key p f same [] = refl
  find?-update key p f same (x ∷ xs) = ground (arith, same x, find?-update key p f same xs)

  -- The row that an update is for is found as the update leaves it.
  pub find?-update_at :
      (key p : A → Bool) (f : A → A)
      → ((x : A) → key (f x) ≡ key x)
      → (xs : List A) (x : A) → find? key xs ≡ some x
      → p x ≡ true
      → find? key (update p f xs) ≡ some (f x)
  find?-update_at key p f same xs x e h =
      find?-update key p f same xs
      ∙ ap (update_found p f) e
      ∙ ap (λ b. some (if b then f x else x)) h

  abbrev pub found_or : Option A → Option A → Option A
  found_or none o = o
  found_or (some x) o = some x

  pub find?-append :
      (key : A → Bool) (xs ys : List A)
      → find? key (xs ++ ys) ≡ found_or (find? key xs) (find? key ys)
  find?-append key [] ys = refl
  find?-append key (x ∷ xs) ys = ground (arith, find?-append key xs ys)

  pub find?_holds : (key : A → Bool) (xs : List A) (y : A) → find? key xs ≡ some y → key y ≡ true
  find?_holds key [] y h = cc
  find?_holds key (x ∷ xs) y h = ground (arith, find?_holds key xs y)

  pub any-find? : (key : A → Bool) (xs : List A) (y : A) → find? key xs ≡ some y → any key xs ≡ true
  any-find? key [] y h = cc
  any-find? key (x ∷ xs) y h = ground (arith, any-find? key xs y)

  pub find?-none_of_any : (key : A → Bool) (xs : List A) → any key xs ≡ false → find? key xs ≡ none
  find?-none_of_any key [] h = refl
  find?-none_of_any key (x ∷ xs) h = ground (arith, find?-none_of_any key xs)

  pub any-none_of_find? : (key : A → Bool) (xs : List A) → find? key xs ≡ none → any key xs ≡ false
  any-none_of_find? key [] h = refl
  any-none_of_find? key (x ∷ xs) h = ground (arith, any-none_of_find? key xs)

  keep-filter :
      {x : A} (p : A → Bool) → p x ≡ true → {xs : List A} → Memᴰ x xs → Memᴰ x (filter p xs)
  keep-filter p h (Memᴰ.head {x = y} {xs = ys} e) = rw (ap p (sym e) ∙ h) (Memᴰ.head e)
  keep-filter p h (Memᴰ.tail {x = y} {xs = ys} m) = elim (Bool-cases (p y)) [
    | inl e ↦ rw e (Memᴰ.tail (keep-filter p h m))
    | inr e ↦ rw e (keep-filter p h m)
  ]

  pub mem-filter :
      {x : A} (p : A → Bool) (xs : List A) → p x ≡ true → Mem x xs → Mem x (filter p xs)
  mem-filter p xs h m = ∥∥₁_map m (keep-filter p h)

  All-memᴰ {κ} : (P : A → Type κ) {x : A} {xs : List A} → Memᴰ x xs → All P xs → P x
  All-memᴰ P (Memᴰ.head e) h = subst P (sym e) h.0
  All-memᴰ P (Memᴰ.tail m) h = All-memᴰ P m h.1

  -- What holds of every element holds of a member, if it is a proposition.
  pub All-mem {κ} :
      (P : A → Type κ) {x : A} {xs : List A} → IsProp (P x) → Mem x xs → All P xs → P x
  All-mem P prop m h = ∥∥₁_elim m prop (λ d. All-memᴰ P d h)
