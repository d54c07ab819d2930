-- ===== src/Storage/PosixAgg/Overwrite.antt =====
-- What writes at an offset leave of a file: the range that is written is there, and the others are
-- as they were.
use veloc.Base.{
  ℕ, zero, suc, ◌+◌, ◌≤◌, ◌≡◌, refl, ap, ◌∙◌, List, [], ◌∷◌, ◌++◌, arith, length, take, drop,
  take_all, length-append, ◌⊎◌, inl, inr,
}
use veloc.Base.Bytes.{Bytes}
use veloc.FileUtil.{overwrite, zeros}

-- The bytes of a file from an offset on.
abbrev pub range : ℕ → ℕ → Bytes → Bytes
range offset size b = take size (drop offset b)

take_nil : (n : ℕ) → ◌≡◌ {A = Bytes} (take n []) []
take_nil zero = refl
take_nil (suc n) = refl

drop_nil : (n : ℕ) → ◌≡◌ {A = Bytes} (drop n []) []
drop_nil zero = refl
drop_nil (suc n) = refl

zeros_own : (n : ℕ) (part : Bytes) → range n (length part) (zeros n ++ part) ≡ part
zeros_own zero part = take_all part
zeros_own (suc n) part = zeros_own n part

-- The range that is written has what was written.
pub overwrite_own : (n : ℕ) (part b : Bytes) → range n (length part) (overwrite n part b) ≡ part
unfolding overwrite
overwrite_own n part [] = zeros_own n part
overwrite_own zero [] (x ∷ b) = refl
overwrite_own zero (a ∷ part) (x ∷ b) = ap (◌∷◌ a) (overwrite_own zero part b)
overwrite_own (suc n) part (x ∷ b) = overwrite_own n part b

-- A range that ends before the write, in a file that reaches that far.
pub overwrite_before :
    (m k n : ℕ) (part b : Bytes)
    → m + k ≤ n
    → m + k ≤ length b
    → range m k (overwrite n part b) ≡ range m k b
unfolding overwrite
overwrite_before zero zero n part b _ _ = refl
overwrite_before zero (suc k) n part [] h h' = absurd (omega (arith, h'))
overwrite_before zero (suc k) zero part (x ∷ b) h h' = absurd (omega (arith, h))
overwrite_before zero (suc k) (suc n) part (x ∷ b) h h' =
    ap (◌∷◌ x) (overwrite_before zero k n part b (omega (arith, h)) (omega (arith, h')))
overwrite_before (suc m) k n part [] h h' = absurd (omega (arith, h'))
overwrite_before (suc m) k zero part (x ∷ b) h h' = absurd (omega (arith, h))
overwrite_before (suc m) k (suc n) part (x ∷ b) h h' =
    overwrite_before m k n part b (omega (arith, h)) (omega (arith, h'))

-- A range that begins behind the write, in a file that reaches that far.
pub overwrite_after :
    (m k n : ℕ) (part b : Bytes)
    → n + length part ≤ m
    → m ≤ length b
    → range m k (overwrite n part b) ≡ range m k b
unfolding overwrite
overwrite_after m k zero [] [] h h' = refl
overwrite_after zero k (suc n) part [] h h' = absurd (omega (arith, h))
overwrite_after (suc m) k n part [] h h' = absurd (omega (arith, h'))
overwrite_after zero k zero (a ∷ part) b h h' = absurd (omega (arith, h))
overwrite_after m k zero [] (x ∷ b) h h' = refl
overwrite_after (suc m) k zero (a ∷ part) (x ∷ b) h h' =
    overwrite_after m k zero part b (omega (arith, h)) (omega (arith, h'))
overwrite_after zero k (suc n) part (x ∷ b) h h' = absurd (omega (arith, h))
overwrite_after (suc m) k (suc n) part (x ∷ b) h h' =
    overwrite_after m k n part b (omega (arith, h)) (omega (arith, h'))

length-zeros : (n : ℕ) → length (zeros n) ≡ n
length-zeros zero = refl
length-zeros (suc n) = ap suc (length-zeros n)

-- A write makes the file no shorter, and long enough for itself.
pub length-overwrite :
    (n : ℕ) (part b : Bytes)
    → (length b ≤ length (overwrite n part b)) × (n + length part ≤ length (overwrite n part b))
unfolding overwrite
length-overwrite n part [] =
    (omega arith, omega (arith, length-append (zeros n) part, length-zeros n))
length-overwrite zero [] (x ∷ b) = (omega arith, omega arith)
length-overwrite zero (a ∷ part) (x ∷ b) =
    let (h, h') = length-overwrite zero part b in (omega (arith, h), omega (arith, h'))
length-overwrite (suc n) part (x ∷ b) =
    let (h, h') = length-overwrite n part b in (omega (arith, h), omega (arith, h'))

-- The writes of the others, one after the other, each with its offset.
unfoldable pub overwrite_all : List (ℕ × Bytes) → Bytes → Bytes
overwrite_all [] b = b
overwrite_all ((n, part) ∷ ws) b = overwrite_all ws (overwrite n part b)

-- Writes that keep out of a range.
abbrev pub Apart : ℕ → ℕ → List (ℕ × Bytes) → Type 0
Apart m k [] = Unit
Apart m k ((n, part) ∷ ws) = ((m + k ≤ n) ⊎ (n + length part ≤ m)) × Apart m k ws

pub overwrite_all-Apart :
    (m k : ℕ) (ws : List (ℕ × Bytes)) (b : Bytes)
    → Apart m k ws
    → m + k ≤ length b
    → (range m k (overwrite_all ws b) ≡ range m k b) × (m + k ≤ length (overwrite_all ws b))
unfolding overwrite_all
overwrite_all-Apart m k [] b _ h = (refl, h)
overwrite_all-Apart m k ((n, part) ∷ ws) b (apart, rest) h =
    let (longer, _) = length-overwrite n part b in
    let (same, reach) =
      overwrite_all-Apart m k ws (overwrite n part b) rest (omega (arith, h, longer)) in
    (
      same ∙ elim apart [
        | inl before ↦ overwrite_before m k n part b before h
        | inr behind ↦ overwrite_after m k n part b behind (omega (arith, h))
      ],
      reach,
    )
