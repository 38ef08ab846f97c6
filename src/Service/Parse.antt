-- ===== src/Service/Parse.antt =====
-- `str::parse::<u64>` on the texts of a request.
use Prim.Native.String.{String}
use Prim.Native.Char.{code}
use full_service.Prelude.{ℕ, ◌+◌, ◌-◌, ◌*◌, Bool, ◌&&◌, Option, none, some, List, [], ◌∷◌}
use full_service.Prelude.Tests.{◌==◌, leb, if◌then◌else◌}
use full_service.Prelude.Int.{u64_max}

-- The code points of a text.
abbrev pub codes : String → List ℕ
codes String.[] = []
codes (String.◌∷◌ c s) = code c ∷ codes s

abbrev pub is_digit : ℕ → Bool
is_digit c = leb b'0' c && leb c b'9'

-- The digits, with the value so far; a value above `u64::MAX` is an error.
unfoldable pub parse_digits : (value : ℕ) → List ℕ → Option ℕ
parse_digits n [] = some n
parse_digits n (d ∷ ds) =
    let rest = parse_digits (n * 10 + (d - b'0')) ds in
    if is_digit d && leb (n * 10 + (d - b'0')) u64_max then rest else none

-- One `+` may stand in front; there is at least one digit.
abbrev pub parse_codes : List ℕ → Option ℕ
parse_codes [] = none
parse_codes (d ∷ []) = if d == b'+' then none else parse_digits 0 (d ∷ [])
parse_codes (d ∷ e ∷ ds) =
    if d == b'+' then parse_digits 0 (e ∷ ds) else parse_digits 0 (d ∷ e ∷ ds)

unfoldable pub parse_u64 : String → Option ℕ
unfolding parse_digits
parse_u64 s = parse_codes (codes s)
