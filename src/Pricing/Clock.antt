-- ===== src/Pricing/Clock.antt =====
-- apps/server/src/modules/sessions/pricing.ts: `parseClock`, over the code points of a clock text.
-- `none` is NaN. Texts come from `time` columns, so signs and leading spaces do not occur.
use Prim.Native.Char.{code}
use gaming_cafe_management.Prelude.{
  ℕ, ◌+◌, ◌-◌, ◌*◌, Bool, ◌&&◌, List, [], ◌∷◌, Option, none, some, String, leb, ◌==◌, if◌then◌else◌,
}

abbrev pub codes : String → List ℕ
codes String.[] = []
codes (String.◌∷◌ c s) = code c ∷ codes s

abbrev is_digit : ℕ → Bool
is_digit c = leb b'0' c && leb c b'9'

-- The digits at the front of a text, read in base 10 on top of `acc`.
read_digits : ℕ → List ℕ → ℕ
read_digits acc [] = acc
read_digits acc (c ∷ cs) =
    let rest = read_digits (acc * 10 + (c - b'0')) cs in if is_digit c then rest else acc

-- `Number.parseInt(text, 10)`.
unfoldable pub parse_int : List ℕ → Option ℕ
unfolding read_digits
parse_int [] = none
parse_int (c ∷ cs) = if is_digit c then some (read_digits 0 (c ∷ cs)) else none

-- `value.split(":")[0]`.
before_colon : List ℕ → List ℕ
before_colon [] = []
before_colon (c ∷ cs) = if c == b':' then [] else c ∷ before_colon cs

-- What follows the first colon, if there is one.
after_colon : List ℕ → Option (List ℕ)
after_colon [] = none
after_colon (c ∷ cs) = if c == b':' then some cs else after_colon cs

-- `Number.parseInt(m ?? "0", 10)` for the second part of the split.
parse_minutes : Option (List ℕ) → Option ℕ
unfolding parse_int before_colon
parse_minutes none = some 0
parse_minutes (some cs) = parse_int (before_colon cs)

-- Sums with NaN are NaN.
abbrev clock_sum : Option ℕ → Option ℕ → Option ℕ
clock_sum (some h) (some m) = some (h * 60 + m)
clock_sum _ _ = none

unfoldable pub parse_clock : String → Option ℕ
unfolding parse_int before_colon after_colon parse_minutes
parse_clock value =
    clock_sum (parse_int (before_colon (codes value))) (parse_minutes (after_colon (codes value)))
