-- ===== src/Client/Text.antt =====
-- What the client uses of C++ strings, as lists of bytes: `find` and `substr` at a slash, `std::stoi`.
pub mod Decimal
use librefw.Base.{
  ℕ, zero, suc, ◌+◌, ◌-◌, ◌*◌, ◌%◌, ◌^◌, Bool, true, false, ◌&&◌, ◌||◌, Option, none, some, List,
  [], ◌∷◌, ltb, leb, ◌==◌, if◌then◌else◌,
}
use librefw.Base.Int.{ℤ, pos, minus, negsuc}

abbrev pub Text : Type 0
Text = List ℕ

abbrev pub slash : ℕ
slash = 47

-- `line.substr(0, line.find('/'))`: the whole line if there is no slash.
unfoldable pub before_slash : Text → Text
before_slash [] = []
before_slash (c ∷ cs) = let rest = before_slash cs in if c == slash then [] else c ∷ rest

-- What stands after the first slash, if there is one.
unfoldable pub find_slash : Text → Option Text
find_slash [] = none
find_slash (c ∷ cs) = let rest = find_slash cs in if c == slash then some cs else rest

-- `line.substr(line.find('/') + 1)`: without a slash `npos + 1` is 0, and this is the whole line.
unfoldable pub after_slash : Text → Text
after_slash line = elim (find_slash line) [ none ↦ line | some rest ↦ rest ]

abbrev pub is_space : ℕ → Bool
is_space c = c == 32 || (leb 9 c && leb c 13)

abbrev pub is_digit : ℕ → Bool
is_digit c = leb 48 c && leb c 57

unfoldable pub skip_space : Text → Text
skip_space [] = []
skip_space (c ∷ cs) = let rest = skip_space cs in if is_space c then rest else c ∷ cs

-- The digits at the front, after `n`
unfoldable pub digits_from : ℕ → Text → ℕ
digits_from n [] = n
digits_from n (c ∷ cs) =
    let rest = digits_from (10 * n + (c - 48)) cs in if is_digit c then rest else n

-- The number at the front; `none` if there is no digit.
unfoldable pub digits : Text → Option ℕ
digits [] = none
digits (c ∷ cs) = if is_digit c then some (digits_from 0 (c ∷ cs)) else none

abbrev pub int_max : ℕ
int_max = 2 ^ 31 - 1

-- The number after the sign; `none` if it is no `int`.
abbrev pub signed : (negative : Bool) → Option ℕ → Option ℤ
signed negative none = none
signed false (some n) = if leb n int_max then some (pos n) else none
signed true (some n) = if leb n (int_max + 1) then some (minus n) else none

-- `none` is the exception.
unfoldable pub stoi_at : Text → Option ℤ
stoi_at [] = none
stoi_at (c ∷ cs) =
    if c == 45
    then signed true (digits cs)
    else if c == 43
    then signed false (digits cs)
    else signed false (digits (c ∷ cs))

unfoldable pub stoi : Text → Option ℤ
stoi s = stoi_at (skip_space s)

-- The conversions to `unsigned short` and then to `uint8_t`
abbrev pub to_u16 : ℤ → ℕ
to_u16 (pos n) = n % 2 ^ 16
to_u16 (negsuc n) = 2 ^ 16 - 1 - n % 2 ^ 16
