-- ===== src/Command/Name.antt =====
-- validate_name of src/lib/client.cpp: the names that a client accepts for a checkpoint.
use veloc.Base.{ℕ, ◌≡◌, ◌≢◌, Bool, true, false, ◌&&◌, ◌||◌, [], ◌∷◌, arith, leb, ◌==◌, All}
use veloc.Base.Bytes.{Bytes}

-- The class [a-zA-Z0-9_\.].
unfoldable pub is_name_char : ℕ → Bool
is_name_char c =
    (leb b'a' c && leb c b'z')
    || (leb b'A' c && leb c b'Z')
    || (leb b'0' c && leb c b'9')
    || c == b'_'
    || c == b'.'

all_name_chars : Bytes → Bool
all_name_chars [] = true
all_name_chars (c ∷ s) = is_name_char c && all_name_chars s

-- One or more characters of the class.
unfoldable pub validate_name : Bytes → Bool
unfolding is_name_char all_name_chars
validate_name [] = false
validate_name (c ∷ s) = is_name_char c && all_name_chars s

-- What the other modules use of a valid name: it holds neither a dash, a zero nor a line end.
abbrev pub IsNameByte : ℕ → Type 0
IsNameByte c = (c ≢ b'-') × (c ≢ 0) × (c ≢ 10) × (c ≢ 13) × (c ≢ b'/')

is_name_char-IsNameByte : (c : ℕ) → is_name_char c ≡ true → IsNameByte c
unfolding is_name_char
is_name_char-IsNameByte c h = ground arith

all_name_chars-All : (s : Bytes) → all_name_chars s ≡ true → All IsNameByte s
unfolding all_name_chars
all_name_chars-All [] _ = tt
all_name_chars-All (c ∷ s) h =
    (is_name_char-IsNameByte c (ground arith), all_name_chars-All s (ground arith))

pub validate_name-All : (s : Bytes) → validate_name s ≡ true → All IsNameByte s
unfolding validate_name
validate_name-All [] h = cc
validate_name-All (c ∷ s) h =
    (is_name_char-IsNameByte c (ground arith), all_name_chars-All s (ground arith))
