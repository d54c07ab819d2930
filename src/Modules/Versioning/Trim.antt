-- ===== src/Modules/Versioning/Trim.antt =====
-- The removal of old versions: how many are kept, which, and what becomes of a new one.
use veloc.Base.{
  ℕ, zero, suc, ◌-◌, ◌≤◌, ◌<◌, ◌≡◌, refl, ap, sym, ◌∙◌, Bool, false, none, some, [], ◌∷◌, ◌++◌,
  arith, ltb, ◌⊎◌, length, length-append, take, drop, inl, inr, Bool-cases,
}
use veloc.Base.Int.{ℤ}
use veloc.Base.IntMap.{
  find, insert, Above, Below, find_below, find_last, Above-drop, insert_last, insert_first,
}
use veloc.FileUtil.{Walk, returned, threw}
use veloc.Storage.{VersionSet}
use veloc.Modules.Versioning.{trim}

abbrev pub state_of : {S : Type 0} → Walk S → S
state_of (returned b s) = s
state_of (threw s) = s

-- What the visits of these versions make of the state.
abbrev pub visit_all : {S : Type 0} → (ℤ → S → Walk S) → VersionSet → S → S
visit_all f [] s = s
visit_all f ((v, _) ∷ vs) s = visit_all f vs (state_of (f v s))

Walk-cases :
    {S : Type 0} (w : Walk S)
    → ((s : S) × (w ≡ threw s)) ⊎ ((b : Bool) × (s : S) × (w ≡ returned b s))
Walk-cases (threw s) = inl (s, refl)
Walk-cases (returned b s) = inr (b, s, refl)

module _ {S : Type 0} (f : ℤ → S → Walk S) (max : ℕ) where
  -- A loop that no exception ends keeps the `max` highest versions, or all if there are no more,
  -- and has visited the others from the lowest on, each once.
  pub trim_exact :
      (vs : VersionSet) (s : S)
      → (trim f max vs s).escaped ≡ false
      → ((trim f max vs s).versions ≡ drop (length vs - max) vs)
        × ((trim f max vs s).state ≡ visit_all f (take (length vs - max) vs) s)
  unfolding trim
  trim_exact [] s h = let e : 0 - max ≡ 0 = omega arith in rw e (refl, refl)
  trim_exact ((v, u) ∷ vs) s h = elim (Bool-cases (ltb max (length ((v, u) ∷ vs)))) [
    | inl more ↦
        let e : length ((v, u) ∷ vs) - max ≡ suc (length vs - max) = ground arith in
        elim (Walk-cases (f v s)) [
          | inl (s', w) ↦ absurd (let h' = rw (more, trim, w) at h in cc)
          | inr (b, s', w) ↦
              let (kept, visited) = trim_exact vs s' (rw (more, trim, w) at h) in
              rw (e, more, trim, w)
                (kept, visited ∙ ap (visit_all f (take (length vs - max) vs)) (sym (ap state_of w)))
        ]
    | inr enough ↦
        let e : length ((v, u) ∷ vs) - max ≡ 0 = ground arith in rw (e, enough, trim) (refl, refl)
  ]

find-drop_last :
    (k : ℤ) (u : Unit {0}) (vs : VersionSet) (n : ℕ)
    → Below vs k
    → n ≤ length vs
    → find k (drop n (vs ++ (k, u) ∷ [])) ≡ some u
find-drop_last k u vs zero b h = find_last k u vs b
find-drop_last k u [] (suc n) b h = absurd (omega arith)
find-drop_last k u (x ∷ vs) (suc n) (_, b) h = find-drop_last k u vs n b (omega arith)

find-drop-Above : (k : ℤ) (vs : VersionSet) (n : ℕ) → Above k vs → find k (drop n vs) ≡ none
find-drop-Above k vs n h = find_below k k (drop n vs) (Above-drop k n vs h) refl

module _ {S : Type 0} (f : ℤ → S → Walk S) (max : ℕ) (positive : 0 < max) where
  -- A version above all that are recorded is recorded and stays.
  pub trim_newest :
      (v : ℤ) (vs : VersionSet) (s : S)
      → Below vs v
      → (trim f max (insert v tt vs) s).escaped ≡ false
      → find v (trim f max (insert v tt vs) s).versions ≡ some tt
  trim_newest v vs s b h =
      let (kept, _) = trim_exact f max (insert v tt vs) s h in
      rw (kept, insert_last v tt vs b)
        (find-drop_last v tt vs _ b (omega (arith, length-append vs ((v, tt) ∷ []))))

  -- A version below `max` or more that are recorded, as after a restart from an old one, is not
  -- recorded when the call ends: the checkpoint that was just taken is removed again.
  pub trim_lost :
      (v : ℤ) (vs : VersionSet) (s : S)
      → Above v vs
      → max ≤ length vs
      → (trim f max (insert v tt vs) s).escaped ≡ false
      → (find v (trim f max (insert v tt vs) s).versions ≡ none)
        × ((r : VersionSet) × ((trim f max (insert v tt vs) s).state
              ≡ visit_all f r (state_of (f v s))))
  trim_lost v vs s a many h =
      let (kept, visited) = trim_exact f max (insert v tt vs) s h in
      let e : suc (length vs) - max ≡ suc (length vs - max) = omega arith in
      rw (kept, visited, insert_first v tt vs a)
        (rw e (find-drop-Above v vs (length vs - max) a, (take (length vs - max) vs, refl)))
