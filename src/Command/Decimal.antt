-- ===== src/Command/Decimal.antt =====
-- std::to_string(int), and std::stoi on the digits that a regular expression has captured.
use veloc.Base.{
  ℕ, zero, suc, ◌+◌, ◌-◌, ◌*◌, ◌/◌, ◌%◌, ◌^◌, ◌≤◌, ◌<◌, ◌≡◌, refl, ap, Bool, true, false, ◌&&◌,
  Option, none, some, [], ◌∷◌, ◌++◌, arith, ltb, leb, if◌then◌else◌, inl, inr, Bool-cases, lt→ltb,
  ◌≢◌, All, All-append,
}
use mathlib.Core.List.{concat-ne-nil}
use veloc.Base.Int.{ℤ, pos, negsuc}
use veloc.Base.Bytes.{Bytes}

-- The decimal digits of `n`, the last one at the end; `f` bounds how many follow the first.
digits : ℕ → ℕ → Bytes
digits zero n = (b'0' + n % 10) ∷ []
digits (suc f) n = elim (ltb n 10) [
  | true ↦ (b'0' + n) ∷ []
  | false ↦ digits f (n / 10) ++ (b'0' + n % 10) ∷ []
]

unfoldable pub decimal : ℕ → Bytes
unfolding digits
decimal n = digits n n

unfoldable pub to_string : ℤ → Bytes
unfolding decimal
to_string (pos n) = decimal n
to_string (negsuc n) = b'-' ∷ decimal (suc n)

-- The class [0-9].
abbrev pub is_digit : ℕ → Bool
is_digit c = leb b'0' c && leb c b'9'

-- The number that a string of digits spells.
abbrev pub value_from : ℕ → Bytes → ℕ
value_from n [] = n
value_from n (c ∷ s) = value_from (n * 10 + (c - b'0')) s

abbrev pub value : Bytes → ℕ
value = value_from 0

-- `none` is the exception std::out_of_range.
unfoldable pub stoi : Bytes → Option ℤ
stoi s = if ltb (value s) (2 ^ 31) then some (pos (value s)) else none

-- The longest prefix of digits, and what follows it.
unfoldable pub take_digits : Bytes → Bytes × Bytes
take_digits [] = ([], [])
take_digits (c ∷ s) = if is_digit c then (let (d, r) = take_digits s in (c ∷ d, r)) else ([], c ∷ s)

abbrev pub IsDigit : ℕ → Type 0
IsDigit c = is_digit c ≡ true

digits-All : (f n : ℕ) → All IsDigit (digits f n)
unfolding digits
digits-All zero n = (ground arith, tt)
digits-All (suc f) n = elim (Bool-cases (ltb n 10)) [
  | inl e ↦ rw (e, digits) (ground arith, tt)
  | inr e ↦ rw (e, digits) (All-append IsDigit _ _ (digits-All f (n / 10)) (ground arith, tt))
]

value_from-append : (n : ℕ) (s t : Bytes) → value_from n (s ++ t) ≡ value_from (value_from n s) t
value_from-append n [] t = refl
value_from-append n (c ∷ s) t = value_from-append (n * 10 + (c - b'0')) s t

value-digits : (f n : ℕ) → n ≤ f → value (digits f n) ≡ n
unfolding digits
value-digits zero n h = omega arith
value-digits (suc f) n h = elim (Bool-cases (ltb n 10)) [
  | inl e ↦ rw (e, digits) (ground arith)
  | inr e ↦
      rw (e, digits, value_from-append) (rw (value-digits f (n / 10) (ground arith)) (ground arith))
]

pub decimal-All : (n : ℕ) → All IsDigit (decimal n)
unfolding decimal
decimal-All n = digits-All n n

-- The text of a number spells it: the fuel of `decimal` is enough.
pub value-decimal : (n : ℕ) → value (decimal n) ≡ n
unfolding decimal
value-decimal n = value-digits n n (omega arith)

digits-ne-nil : (f n : ℕ) → digits f n ≢ []
unfolding digits
digits-ne-nil zero n h = cc
digits-ne-nil (suc f) n h = elim (Bool-cases (ltb n 10)) [
  | inl e ↦ let h' : (b'0' + n) ∷ [] ≡ [] = rw (e, digits) at h in cc
  | inr e ↦
      let h' : digits f (n / 10) ++ (b'0' + n % 10) ∷ [] ≡ [] = rw (e, digits) at h in
      concat-ne-nil _ _ h'
]

pub decimal-ne-nil : (n : ℕ) → decimal n ≢ []
unfolding decimal
decimal-ne-nil n = digits-ne-nil n n

-- A text begins with no digit.
abbrev pub StopsDigits : Bytes → Type 0
StopsDigits [] = Unit {0}
StopsDigits (c ∷ s) = is_digit c ≡ false

pub take_digits-append :
    (d r : Bytes) → All IsDigit d → StopsDigits r → take_digits (d ++ r) ≡ (d, r)
unfolding take_digits
take_digits-append [] [] _ _ = refl
take_digits-append [] (c ∷ r) _ h = rw h
take_digits-append (c ∷ d) r (hc, hd) h = rw (hc, take_digits-append d r hd h)

-- What is taken and what is left make up the text; all that is taken are digits.
pub take_digits_sound :
    (s : Bytes)
    → ((take_digits s).0 ++ (take_digits s).1 ≡ s)
      × All IsDigit (take_digits s).0
      × StopsDigits (take_digits s).1
unfolding take_digits
take_digits_sound [] = (refl, tt, tt)
take_digits_sound (c ∷ s) =
    let (e, a, st) = take_digits_sound s in
    elim (Bool-cases (is_digit c)) [
      | inl h ↦ rw (h, take_digits) (ap (◌∷◌ c) e, (h, a), st)
      | inr h ↦ rw (h, take_digits) (refl, tt, h)
    ]

pub stoi-decimal : (n : ℕ) → n < 2 ^ 31 → stoi (decimal n) ≡ some (pos n)
unfolding stoi
stoi-decimal n h = rw (value-decimal n, lt→ltb n (2 ^ 31) h)
