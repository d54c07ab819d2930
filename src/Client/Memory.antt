-- ===== src/Client/Memory.antt =====
-- The memory of the application, and the bytes that are copied from it and to it.
use veloc.Base.{
  ℕ, zero, suc, ◌+◌, ◌<◌, ◌≡◌, refl, ap, Bool, true, false, ◌&&◌, [], ◌∷◌, arith, ltb, leb, ◌-◌,
  Bool-cases, inl, inr, ap₂, ◌==◌, if◌then◌else◌, length,
}
use veloc.Base.Bytes.{Bytes}

-- The byte at each address.
abbrev pub Memory : Type 0
Memory = ℕ → ℕ

-- The `n` bytes from address `p` on.
unfoldable pub read_mem : Memory → ℕ → ℕ → Bytes
read_mem m p zero = []
read_mem m p (suc n) = m p ∷ read_mem m (suc p) n

unfoldable pub write_mem : ℕ → Bytes → Memory → Memory
write_mem p [] m a = m a
write_mem p (b ∷ bs) m a = let rest = write_mem (suc p) bs m a in if a == p then b else rest

-- Whether an address is one of the `n` from `p` on.
abbrev pub within : ℕ → ℕ → ℕ → Bool
within p n a = leb p a && ltb a (p + n)

pub length-read_mem : (m : Memory) (p n : ℕ) → length (read_mem m p n) ≡ n
unfolding read_mem
length-read_mem m p zero = refl
length-read_mem m p (suc n) = ap suc (length-read_mem m (suc p) n)

within-suc : (q n a : ℕ) → (a == q) ≡ false → within q (suc n) a ≡ within (suc q) n a
within-suc q n a e = ground arith

shift : (p q n a : ℕ) → within (suc q) n a ≡ true → suc p + (a - suc q) ≡ p + (a - q)
shift p q n a w = ground arith

-- A copy of `n` bytes from `p` to `q` changes these and no others.
pub write_mem-read_mem :
    (m m' : Memory) (p q n a : ℕ)
    → write_mem q (read_mem m p n) m' a ≡ (if within q n a then m (p + (a - q)) else m' a)
unfolding write_mem read_mem
write_mem-read_mem m m' p q zero a = ground arith
write_mem-read_mem m m' p q (suc n) a = elim (Bool-cases (a == q)) [
  | inl e ↦ ground arith
  | inr e ↦
      rw (e, write_mem-read_mem m m' (suc p) (suc q) n a)
        (elim (Bool-cases (within (suc q) n a)) [
          | inl w ↦ rw (w, within-suc q n a e, w, shift p q n a w) refl
          | inr w ↦ rw (w, within-suc q n a e, w) refl
        ])
]

pub read_mem-cong :
    (f g : Memory) (q p n : ℕ)
    → ((k : ℕ) → k < n → f (q + k) ≡ g (p + k))
    → read_mem f q n ≡ read_mem g p n
unfolding read_mem
read_mem-cong f g q p zero h = refl
read_mem-cong f g q p (suc n) h =
    ap₂ (λ x xs. x ∷ xs) (head) (read_mem-cong f g (suc q) (suc p) n λ k lt. tail k lt)
  where
    head : f q ≡ g p
    head =
        let h0 = h 0 (omega arith) in
        let a : q + 0 ≡ q = omega arith in let b : p + 0 ≡ p = omega arith in rw (a, b) at h0

    tail : (k : ℕ) → k < n → f (suc q + k) ≡ g (suc p + k)
    tail k lt =
        let h1 = h (suc k) (omega arith) in
        let a : q + suc k ≡ suc q + k = omega arith in
        let b : p + suc k ≡ suc p + k = omega arith in rw (a, b) at h1
