-- ===== src/Prelude/Int.antt =====
-- Signed integers over the native numbers, and the casts between `u64` and `i64` by which the
-- program stores its unsigned values in signed columns.
use Prim.Native.Nat.{ℕ, ◌-◌, ◌^◌, ◌<◌}
use mathlib.Core.Path.{◌≡◌}
use mathlib.Core.Logic.{◌↔◌}
use mathlib.Core.Bool.{Bool, true, false}
use native.Mathlib.Omega.{arith}
use full_service.Prelude.Tests.{ltb, leb, ◌==◌, if◌then◌else◌}

-- `negsuc n` is -(n + 1).
pub data ℤ : Type 0 where
  pos : ℕ → ℤ
  negsuc : ℕ → ℤ

-- The order of signed integers, as a Boolean.
abbrev pub leb_ℤ : ℤ → ℤ → Bool
leb_ℤ (pos a) (pos b) = leb a b
leb_ℤ (pos a) (negsuc b) = false
leb_ℤ (negsuc a) (pos b) = true
leb_ℤ (negsuc a) (negsuc b) = leb b a

abbrev pub ltb_ℤ : ℤ → ℤ → Bool
ltb_ℤ (pos a) (pos b) = ltb a b
ltb_ℤ (pos a) (negsuc b) = false
ltb_ℤ (negsuc a) (pos b) = true
ltb_ℤ (negsuc a) (negsuc b) = ltb b a

abbrev pub eqb_ℤ : ℤ → ℤ → Bool
eqb_ℤ (pos a) (pos b) = a == b
eqb_ℤ (pos a) (negsuc b) = false
eqb_ℤ (negsuc a) (pos b) = false
eqb_ℤ (negsuc a) (negsuc b) = a == b

pub eqb_ℤ_iff : (a b : ℤ) → (eqb_ℤ a b ≡ true) ↔ (a ≡ b)
eqb_ℤ_iff (pos a) (pos b) = ground arith
eqb_ℤ_iff (pos a) (negsuc b) = ground arith
eqb_ℤ_iff (negsuc a) (pos b) = ground arith
eqb_ℤ_iff (negsuc a) (negsuc b) = ground arith

abbrev pub u64_mod : ℕ
u64_mod = 2 ^ 64

abbrev pub i64_mid : ℕ
i64_mid = 2 ^ 63

abbrev pub u64_max : ℕ
u64_max = 2 ^ 64 - 1

-- `x as i64` of a `u64`: the bits are kept, so the upper half becomes negative.
unfoldable pub as_i64 : ℕ → ℤ
as_i64 x = if ltb x i64_mid then pos x else negsuc (u64_max - x)

-- `x as u64` of an `i64`.
unfoldable pub as_u64 : ℤ → ℕ
as_u64 (pos n) = n
as_u64 (negsuc n) = u64_max - n

-- The two casts keep every `u64`, the values of 2^63 and above included.
pub as_u64-as_i64 : (x : ℕ) → x < u64_mod → as_u64 (as_i64 x) ≡ x
unfolding as_u64 as_i64
as_u64-as_i64 x h = ground arith

-- Below 2^63 the cast keeps the order that the database compares by.
pub as_i64_small : (x : ℕ) → x < i64_mid → as_i64 x ≡ pos x
unfolding as_i64
as_i64_small x h = ground arith
