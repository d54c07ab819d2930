-- ===== src/Header/Codec.antt =====
-- The bytes of a size_t and of an int in a file, and their values.
use veloc.Base.{
  ℕ, zero, suc, ◌+◌, ◌-◌, ◌*◌, ◌/◌, ◌%◌, ◌^◌, ◌<◌, ◌≡◌, refl, ap, [], ◌∷◌, arith, ltb,
  if◌then◌else◌, length,
}
use native.Mathlib.Nat.{pow-suc}
use veloc.Base.Int.{ℤ, pos, negsuc, pos_part, neg_part, IsInt}
use veloc.Base.Bytes.{Bytes}

-- The lowest `w` bytes of a number, the lowest first.
unfoldable pub le_bytes : ℕ → ℕ → Bytes
le_bytes zero n = []
le_bytes (suc w) n = n % 256 ∷ le_bytes w (n / 256)

unfoldable pub le_value : Bytes → ℕ
le_value [] = 0
le_value (b ∷ bs) = b + 256 * le_value bs

-- An int as its 32 bits in two's complement.
abbrev pub int_bits : ℤ → ℕ
int_bits a = (pos_part a + 2 ^ 32 - neg_part a) % 2 ^ 32

abbrev pub of_int_bits : ℕ → ℤ
of_int_bits n = if ltb n (2 ^ 31) then pos n else negsuc (2 ^ 32 - 1 - n)

unfoldable pub int_bytes : ℤ → Bytes
unfolding le_bytes
int_bytes a = le_bytes 4 (int_bits a)

unfoldable pub int_value : Bytes → ℤ
unfolding le_value
int_value s = of_int_bits (le_value s)

pub length-le_bytes : (w n : ℕ) → length (le_bytes w n) ≡ w
unfolding le_bytes
length-le_bytes zero n = refl
length-le_bytes (suc w) n = ap suc (length-le_bytes w (n / 256))

-- A number that fits is read back.
pub le_value-le_bytes : (w n : ℕ) → n < 256 ^ w → le_value (le_bytes w n) ≡ n
unfolding le_bytes le_value
le_value-le_bytes zero n h = omega arith
le_value-le_bytes (suc w) n h =
    omega (arith, le_value-le_bytes w (n / 256) (omega (arith, pow-suc 256 w)))

of_int_bits-int_bits : (a : ℤ) → IsInt a → of_int_bits (int_bits a) ≡ a
of_int_bits-int_bits (pos n) h = ground arith
of_int_bits-int_bits (negsuc n) h = ground arith

pub int_value-int_bytes : (a : ℤ) → IsInt a → int_value (int_bytes a) ≡ a
unfolding int_bytes int_value
int_value-int_bytes a h =
    rw (le_value-le_bytes 4 (int_bits a) (omega arith)) (of_int_bits-int_bits a h)
