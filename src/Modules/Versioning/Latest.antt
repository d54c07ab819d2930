-- ===== src/Modules/Versioning/Latest.antt =====
-- What the TEST request answers: the latest version that there is, up to the given bound.
use veloc.Base.{
  ◌≡◌, refl, ap, ◌∙◌, fun_ext, Bool, true, false, not, Option, none, some, List, [], ◌∷◌, ◌++◌,
  arith, if◌then◌else◌, ◌⊎◌, inl, inr, Bool-cases, ◌↔◌,
}
use veloc.Base.Int.{ℤ, pos, ◌≤ℤ◌, ◌<ℤ◌, ltb_ℤ, ◌==ℤ◌, ==ℤ_iff, ==ℤ_refl}
use veloc.Base.IntMap.{find, find-insert, insert-IsOrdered, IsOrdered, Above, Above-IsOrdered}
use veloc.Storage.{VersionSet}
use veloc.Queue.{ignored}
use veloc.Modules.Versioning.{set_union, descending, lower_bound, first, or_ignored, latest}

abbrev pub Has : ℤ → VersionSet → Type 0
Has v vs = find v vs ≡ some tt

set_union-IsOrdered : (xs ys : VersionSet) → IsOrdered ys → IsOrdered (set_union xs ys)
unfolding set_union
set_union-IsOrdered [] ys h = h
set_union-IsOrdered ((x, _) ∷ xs) ys h = insert-IsOrdered x tt _ (set_union-IsOrdered xs ys h)

unit_some : (o : Option (Unit {0})) → (o ≡ none) ⊎ (o ≡ some tt)
unit_some none = inl refl
unit_some (some u) = inr refl

-- The union has the versions of both sets.
Has-set_union :
    (v : ℤ) (xs ys : VersionSet) → IsOrdered ys → Has v (set_union xs ys) ↔ (Has v xs ⊎ Has v ys)
unfolding set_union find
Has-set_union v [] ys h = (λ e. inr e, λ e. elim e [ inl e ↦ absurd (cc e) | inr e ↦ e ])
Has-set_union v ((x, u) ∷ xs) ys h =
    rw (find-insert v x tt (set_union xs ys) (set_union-IsOrdered xs ys h))
      (elim (Bool-cases (v ==ℤ x)) [
        | inl e ↦ rw e (λ _. inl refl, λ _. refl)
        | inr e ↦ rw e (Has-set_union v xs ys h)
      ])

-- `v` is the greatest element of the set that does not exceed the bound; a bound of 0 is none.
abbrev pub Fits : ℤ → ℤ → Type 0
Fits bound v = (bound ≡ pos 0) ⊎ (v ≤ℤ bound)

pub record IsLatest (bound : ℤ) (ph sh : VersionSet) (v : ℤ) : Type 0 where
  pub there : Has v ph ⊎ Has v sh
  pub fits : Fits bound v
  pub greatest : (w : ℤ) → Has w ph ⊎ Has w sh → Fits bound w → w ≤ℤ v

-- The first element of a list that passes a test.
abbrev pick : (ℤ → Bool) → List ℤ → Option ℤ
pick p [] = none
pick p (x ∷ xs) = if p x then some x else pick p xs

first-pick : (xs : List ℤ) → first xs ≡ pick (λ _. true) xs
unfolding first
first-pick [] = refl
first-pick (x ∷ xs) = refl

lower_bound-pick : (v : ℤ) (xs : List ℤ) → lower_bound v xs ≡ pick (λ x. not (ltb_ℤ v x)) xs
unfolding lower_bound
lower_bound-pick v [] = refl
lower_bound-pick v (x ∷ xs) = ground (arith, lower_bound-pick v xs)

abbrev or_else : Option ℤ → Option ℤ → Option ℤ
or_else none b = b
or_else (some a) b = some a

pick-append : (p : ℤ → Bool) (xs ys : List ℤ) → pick p (xs ++ ys) ≡ or_else (pick p xs) (pick p ys)
pick-append p [] ys = refl
pick-append p (x ∷ xs) ys = ground (arith, pick-append p xs ys)

-- What is picked from a set in descending order is its greatest element that passes.
abbrev Picked : (ℤ → Bool) → VersionSet → Option ℤ → Type 0
Picked p vs none = (w : ℤ) → Has w vs → p w ≡ false
Picked p vs (some v) = Has v vs × (p v ≡ true) × ((w : ℤ) → Has w vs → p w ≡ true → w ≤ℤ v)

Has-cons : (w x : ℤ) (u : Unit {0}) (vs : VersionSet) → Has w ((x, u) ∷ vs) → (w ≡ x) ⊎ Has w vs
unfolding find
Has-cons w x u vs h = ground (arith, ==ℤ_iff w x)

Has-tail : (w x : ℤ) (u : Unit {0}) (vs : VersionSet) → Has w vs → Has w ((x, u) ∷ vs)
unfolding find
Has-tail w x u vs h = ground arith

Has_above : (x w : ℤ) (vs : VersionSet) → Above x vs → Has w vs → x <ℤ w
unfolding find
Has_above x w [] a h = absurd (cc h)
Has_above x w ((y, u) ∷ vs) (lt, a) h = elim (Has-cons w y u vs h) [
  | inl e ↦ rw e lt
  | inr m ↦ omega (arith, Has_above y w vs a m)
]

Has-head : (x : ℤ) (u : Unit {0}) (vs : VersionSet) → Has x ((x, u) ∷ vs)
unfolding find
Has-head x u vs = rw (==ℤ_refl x)

Picked-head :
    (p : ℤ → Bool) (x : ℤ) (u : Unit {0}) (vs : VersionSet)
    → Picked p vs none
    → Picked p ((x, u) ∷ vs) (if p x then some x else none)
Picked-head p x u vs np = elim (Bool-cases (p x)) [
  | inl e ↦ rw e (
    Has-head x u vs,
    e,
    λ w h q. elim (Has-cons w x u vs h) [
      | inl same ↦ rw same (omega arith)
      | inr m ↦ absurd (let n = np w m in cc)
    ],
  )
  | inr e ↦ rw e (λ w h. elim (Has-cons w x u vs h) [ inl same ↦ rw same e | inr m ↦ np w m ])
]

Picked-tail :
    (p : ℤ → Bool) (x : ℤ) (u : Unit {0}) (vs : VersionSet) (v : ℤ)
    → Above x vs
    → Picked p vs (some v)
    → Picked p ((x, u) ∷ vs) (some v)
Picked-tail p x u vs v a (hv, pv, g) = (
  Has-tail v x u vs hv,
  pv,
  λ w h q. elim (Has-cons w x u vs h) [
    | inl same ↦ rw same (omega (arith, Has_above x v vs a hv))
    | inr m ↦ g w m q
  ],
)

pick-Picked : (p : ℤ → Bool) (vs : VersionSet) → IsOrdered vs → Picked p vs (pick p (descending vs))
unfolding descending find
pick-Picked p [] _ = λ w h. absurd (cc h)
pick-Picked p ((x, u) ∷ vs) o =
    rw (pick-append p (descending vs) (x ∷ []))
      (go (pick p (descending vs)) (pick-Picked p vs (Above-IsOrdered x vs o)))
  where
    go : (r : Option ℤ) → Picked p vs r → Picked p ((x, u) ∷ vs) (or_else r (pick p (x ∷ [])))
    go none h = Picked-head p x u vs h
    go (some v) h = Picked-tail p x u vs v o h

allowed : ℤ → ℤ → Bool
allowed bound x = if bound ==ℤ pos 0 then true else not (ltb_ℤ bound x)

pick-cong : (p q : ℤ → Bool) (xs : List ℤ) → ((x : ℤ) → p x ≡ q x) → pick p xs ≡ pick q xs
pick-cong p q xs h = ap (λ r. pick r xs) (fun_ext h)

latest-pick :
    (bound : ℤ) (vs : VersionSet)
    → latest bound vs ≡ or_ignored (pick (allowed bound) (descending vs))
unfolding latest allowed
latest-pick bound vs = elim (Bool-cases (bound ==ℤ pos 0)) [
  | inl e ↦ rw e (
      ap or_ignored (
        first-pick (descending vs)
        ∙ pick-cong (λ x. true) (allowed bound) (descending vs) (λ x. rw (e, allowed))))
  | inr e ↦ rw e (
      ap or_ignored (
        lower_bound-pick bound (descending vs)
        ∙ pick-cong (λ x. not (ltb_ℤ bound x)) (allowed bound) (descending vs)
            (λ x. rw (e, allowed))))
]

Fits-allowed : (bound x : ℤ) → Fits bound x → allowed bound x ≡ true
unfolding allowed
Fits-allowed bound x (inl e) = ground (arith, ==ℤ_iff bound (pos 0))
Fits-allowed bound x (inr h) = ground arith

allowed-Fits : (bound x : ℤ) → allowed bound x ≡ true → Fits bound x
unfolding allowed
allowed-Fits bound x h = ground (arith, ==ℤ_iff bound (pos 0))

-- What TEST answers for the versions on the persistent storage and those in the scratch
-- directory: the latest version of the two, among those up to the bound if one is given. It is
-- VELOC_IGNORED if there is none.
pub latest_lem :
    (bound : ℤ) (ph sh : VersionSet)
    → IsOrdered sh
    → IsLatest bound ph sh (latest bound (set_union ph sh))
      ⊎ ((latest bound (set_union ph sh) ≡ ignored)
          × ((w : ℤ) → Has w ph ⊎ Has w sh → ¬ Fits bound w))
unfolding latest
latest_lem bound ph sh os = rw (latest-pick bound (set_union ph sh)) (
    go (pick (allowed bound) (descending (set_union ph sh)))
      (pick-Picked (allowed bound) (set_union ph sh) (set_union-IsOrdered ph sh os)))
  where
    go :
        (r : Option ℤ)
        → Picked (allowed bound) (set_union ph sh) r
        → IsLatest bound ph sh (or_ignored r)
          ⊎ ((or_ignored r ≡ ignored) × ((w : ℤ) → Has w ph ⊎ Has w sh → ¬ Fits bound w))
    go none h = inr (
      refl,
      λ w there fits.
          let n = h w ((Has-set_union w ph sh os).1 there) in
          let y = Fits-allowed bound w fits in absurd (cc),
    )
    go (some v) (there, ok, g) = inl (record {
      there = (Has-set_union v ph sh os).0 there;
      fits = allowed-Fits bound v ok;
      greatest = λ w has fits. g w ((Has-set_union w ph sh os).1 has) (Fits-allowed bound w fits);
    })
