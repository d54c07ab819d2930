-- ===== src/Config/Numbers.antt =====
-- get_optional<int> and get_optional<unsigned int> of src/common/config.cpp: the number at the start
-- of the text.
use veloc.Base.{
  ℕ, ◌+◌, ◌-◌, ◌*◌, ◌%◌, ◌^◌, Bool, true, false, ◌&&◌, Option, none, some, [], ◌∷◌, leb, ltb, ◌==◌,
  if◌then◌else◌,
}
use veloc.Base.Int.{ℤ, pos, negsuc}
use veloc.Base.Bytes.{Bytes}
use veloc.Queue.{is_empty}
use veloc.Config.{Source, text, skip_spaces}

abbrev is_digit : ℕ → Bool
is_digit c = leb b'0' c && leb c b'9'

-- The number that the digits at the start of a text stand for, behind those that were read.
unfoldable pub digits : ℕ → Bytes → ℕ
digits n [] = n
digits n (c ∷ cs) = let rest = digits (n * 10 + (c - b'0')) cs in if is_digit c then rest else n

abbrev starts : Bytes → Bool
starts [] = false
starts (c ∷ cs) = is_digit c

-- The sign, and the digits behind it; `none` if there is no digit.
unfoldable pub signed : Bytes → Option (Bool × ℕ)
unfolding digits
signed [] = none
signed (c ∷ cs) =
    if c == b'-'
    then (if starts cs then some (true, digits 0 cs) else none)
    else if c == b'+'
    then (if starts cs then some (false, digits 0 cs) else none)
    else if is_digit c
    then some (false, digits 0 (c ∷ cs))
    else none

-- ss >> value fails for a number that an int does not hold.
unfoldable pub as_int : Option (Bool × ℕ) → Option ℤ
as_int none = none
as_int (some (true, n)) =
    if ltb (2 ^ 31) n then none else some (if n == 0 then pos 0 else negsuc (n - 1))
as_int (some (false, n)) = if ltb n (2 ^ 31) then some (pos n) else none

-- For an unsigned int a sign is taken modulo 2^32.
unfoldable pub as_unsigned : Option (Bool × ℕ) → Option ℕ
as_unsigned none = none
as_unsigned (some (minus, n)) =
    if ltb n (2 ^ 32) then some (if minus then (2 ^ 32 - n) % 2 ^ 32 else n) else none

unfoldable pub get_int : Source → Bytes → Option ℤ
unfolding as_int signed
get_int s param =
    let ret = text s param in if is_empty ret then none else as_int (signed (skip_spaces ret))

unfoldable pub get_unsigned : Source → Bytes → Option ℕ
unfolding as_unsigned signed
get_unsigned s param =
    let ret = text s param in if is_empty ret then none else as_unsigned (signed (skip_spaces ret))
