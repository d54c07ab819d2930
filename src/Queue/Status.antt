-- ===== src/Queue/Status.antt =====
-- What a sequence of statuses amounts to: the least of them if one is negative, and else the
-- greatest, whatever the order in which the commands complete.
use mathlib.Core.List.{Perm, Permᴰ}
use mathlib.Core.Logic.{∥∥₁_elim}
use veloc.Base.{◌≡◌, refl, ap, ◌∙◌, ◌⊎◌, inl, inr, List, [], ◌∷◌, ◌++◌, arith, All}
use veloc.Base.Int.{ℤ, pos, ◌≤ℤ◌, ◌<ℤ◌}
use veloc.Queue.{merge}

-- The status of a client after completions with these statuses.
unfoldable pub merge_all : ℤ → List ℤ → ℤ
merge_all s [] = s
merge_all s (r ∷ rs) = merge_all (merge s r) rs

pub merge_all-append :
    (s : ℤ) (rs ts : List ℤ) → merge_all s (rs ++ ts) ≡ merge_all (merge_all s rs) ts
unfolding merge_all
merge_all-append s [] ts = refl
merge_all-append s (r ∷ rs) ts = merge_all-append (merge s r) rs ts

merge_swap : (s a b : ℤ) → merge (merge s a) b ≡ merge (merge s b) a
unfolding merge
merge_swap s a b = ground arith

merge_all-permᴰ : {rs ts : List ℤ} → Permᴰ rs ts → (s : ℤ) → merge_all s rs ≡ merge_all s ts
unfolding merge_all
merge_all-permᴰ Permᴰ.nil s = refl
merge_all-permᴰ (Permᴰ.cons {l₂ = ts} e p) s =
    merge_all-permᴰ p _ ∙ ap (λ x. merge_all (merge s x) ts) e
merge_all-permᴰ (Permᴰ.swap {a' = a} {b' = b} {l = l} e f) s =
    rw (e, f) (ap (λ x. merge_all x l) (merge_swap s b a))
merge_all-permᴰ (Permᴰ.trans p q) s = merge_all-permᴰ p s ∙ merge_all-permᴰ q s

ℤ-set : IsSet ℤ
ℤ-set = hlevel

-- The order in which commands complete makes no difference to the status of their client.
pub merge_all-perm : (s : ℤ) {rs ts : List ℤ} → Perm rs ts → merge_all s rs ≡ merge_all s ts
merge_all-perm s p = ∥∥₁_elim p (ℤ-set _ _) (λ d. merge_all-permᴰ d s)

-- `r` sums up a status: it lies below it if it is negative, and else above it.
abbrev pub Sums : ℤ → ℤ → Type 0
Sums r s = ((r <ℤ pos 0) × (r ≤ℤ s)) ⊎ ((pos 0 ≤ℤ s) × (s ≤ℤ r))

abbrev pub Member : ℤ → List ℤ → Type 0
Member r [] = ⊥
Member r (s ∷ rs) = (r ≡ s) ⊎ Member r rs

Sums-merge : (r s : ℤ) → Sums (merge r s) r × Sums (merge r s) s
unfolding merge
Sums-merge r s = ground arith

Sums-refl : (r : ℤ) → Sums r r
Sums-refl r = ground arith

Sums-trans : (a b c : ℤ) → Sums a b → Sums b c → Sums a c
Sums-trans a b c h k = ground arith

merge_either : (r s : ℤ) → (merge r s ≡ r) ⊎ (merge r s ≡ s)
unfolding merge
merge_either r s = ground arith

Member-merge : (x r s : ℤ) (rs : List ℤ) → Member x (merge r s ∷ rs) → Member x (r ∷ s ∷ rs)
Member-merge x r s rs (inl e) = elim (merge_either r s) [
  | inl h ↦ inl (e ∙ h)
  | inr h ↦ inr (inl (e ∙ h))
]
Member-merge x r s rs (inr m) = inr (inr m)

-- Whatever a client's status was and whatever its commands return, the status is then one of
-- these, no more than any of them if it is negative, and at least each of them, none of which is
-- negative, if it is not.
pub merge_all_verdict :
    (s : ℤ) (rs : List ℤ) → Member (merge_all s rs) (s ∷ rs) × All (Sums (merge_all s rs)) (s ∷ rs)
unfolding merge_all
merge_all_verdict s [] = (inl refl, (Sums-refl s, tt))
merge_all_verdict s (r ∷ rs) =
    let (member, (first, rest)) = merge_all_verdict (merge s r) rs in
    let (left, right) = Sums-merge s r in
    (
      Member-merge _ s r rs member,
      (Sums-trans _ (merge s r) s first left, (Sums-trans _ (merge s r) r first right, rest)),
    )
