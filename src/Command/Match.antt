-- ===== src/Command/Match.antt =====
-- command_t::regex and command_t::match of src/common/command.cpp: the file name pattern
-- cname + "-([0-9]+|ec|agg)-([0-9]+).*". The name goes into the pattern as it is written, so that
-- a dot in it stands for any byte but a line end; the other bytes of a valid name stand for
-- themselves. The pattern is for names that `validate_name` accepts.
pub mod RoundTrip
pub mod Collision
use veloc.Base.{
  ℕ, ◌≡◌, refl, Bool, true, not, ◌&&◌, ◌||◌, Option, none, some, [], ◌∷◌, ◌==◌, if◌then◌else◌,
}
use veloc.Base.Int.{ℤ, pos, negsuc}
use veloc.Base.Bytes.{Bytes, codes}
use veloc.Command.Decimal.{take_digits, stoi}

-- What the second group of the pattern captured.
pub data Captured : Type 0 where
  number : Bytes → Captured
  ec agg : Captured

pub data MatchResult : Type 0 where
  no_match : MatchResult
  matched : ℤ → ℤ → MatchResult
  -- std::stoi throws std::out_of_range, which `match` lets through
  out_of_range : MatchResult

infixl 5 ◌>>=◌
abbrev pub ◌>>=◌ {ℓ κ} : {A : Type ℓ} {B : Type κ} → Option A → (A → Option B) → Option B
none >>= f = none
some a >>= f = f a

-- `.` of the pattern
abbrev pub is_any : ℕ → Bool
is_any c = not (c == 10 || c == 13)

abbrev pub char_matches : ℕ → ℕ → Bool
char_matches p c = if p == b'.' then is_any c else p == c

-- The part of the pattern that is the name; what is left of the text is returned.
pub match_name : Bytes → Bytes → Option Bytes
match_name [] s = some s
match_name (p ∷ ps) [] = none
match_name (p ∷ ps) (c ∷ s) = if char_matches p c then match_name ps s else none

match_dash : Bytes → Option Bytes
match_dash [] = none
match_dash (c ∷ s) = if c == b'-' then some s else none

-- [0-9]+
match_digits : Bytes × Bytes → Option (Bytes × Bytes)
match_digits ([], s) = none
match_digits (c ∷ d, s) = some (c ∷ d, s)

match_literal : Bytes → Option (Captured × Bytes)
match_literal (a ∷ b ∷ c ∷ s) =
    if a == b'e' && b == b'c'
    then some (ec, c ∷ s)
    else if a == b'a' && b == b'g' && c == b'g'
    then some (agg, s)
    else none
match_literal (a ∷ b ∷ []) = if a == b'e' && b == b'c' then some (ec, []) else none
match_literal _ = none

-- ([0-9]+|ec|agg)
match_id : Bytes → Option (Captured × Bytes)
unfolding match_digits match_literal take_digits
match_id s = elim (match_digits (take_digits s)) [
  | some (d, r) ↦ some (number d, r)
  | none ↦ match_literal s
]

-- .*
unfoldable pub match_rest : Bytes → Bool
match_rest [] = true
match_rest (c ∷ s) = is_any c && match_rest s

-- What follows the second group: -([0-9]+).*
match_version : Captured → Bytes → Option (Captured × Bytes)
unfolding match_dash match_digits match_rest take_digits
match_version id s = do
  s ← match_dash s
  (v, s) ← match_digits (take_digits s)
  if match_rest s then some (id, v) else none

-- The two groups, if the whole text matches.
unfoldable pub regex_match : Bytes → Bytes → Option (Captured × Bytes)
unfolding match_name match_dash match_id match_version
regex_match cname str = do
  s ← match_name cname str
  s ← match_dash s
  (id, s) ← match_id s
  match_version id s

with_version : ℤ → Option ℤ → MatchResult
with_version id none = out_of_range
with_version id (some v) = matched id v

convert : Captured → Bytes → MatchResult
unfolding with_version stoi
convert ec v = with_version (negsuc 0) (stoi v)
convert agg v = with_version (negsuc 1) (stoi v)
convert (number d) v = elim (stoi d) [ none ↦ out_of_range | some id ↦ with_version id (stoi v) ]

unfoldable pub match : Bytes → Bytes → MatchResult
unfolding regex_match convert
match str cname = elim (regex_match cname str) [ none ↦ no_match | some (id, v) ↦ convert id v ]
