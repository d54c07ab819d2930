-- ===== src/Command/Match/Collision.antt =====
-- Which files the pattern of one checkpoint name finds among those of all names.
use veloc.Base.{
  ℕ, ◌≡◌, ◌≢◌, refl, ◌∙◌, ap, ap₂, subst, sym, true, some, [], ◌∷◌, ◌++◌, arith, All, if◌then◌else◌,
  inl, inr, Option-cases, Bool-cases,
}
use veloc.Base.Int.{ℤ}
use veloc.Base.Bytes.{Bytes, codes, bytes_eq, bytes_eq_iff}
use veloc.Command.{Command, stem}
use veloc.Command.Decimal.{to_string}
use veloc.Command.Name.{IsNameByte, validate_name, validate_name-All}
use veloc.Command.Match.{
  match, no_match, matched, Captured, ◌>>=◌, match_name, match_dash, regex_match,
}
use veloc.Command.Match.RoundTrip.{IsNumbered, match-stem_self, match_name-append}

-- A name without a dot, which stands for itself in the pattern.
abbrev pub IsLiteral : Bytes → Type 0
IsLiteral = All (λ c. c ≢ b'.')

match_name_sound : (name s r : Bytes) → IsLiteral name → match_name name s ≡ some r → s ≡ name ++ r
unfolding match_name
match_name_sound [] s r _ e = ground arith
match_name_sound (p ∷ name) [] r _ e = cc
match_name_sound (p ∷ name) (c ∷ s) r (hp, h) e = ground (arith, match_name_sound name s r h)

match_dash_sound : (s r : Bytes) → match_dash s ≡ some r → s ≡ b'-' ∷ r
unfolding match_dash
match_dash_sound [] r e = cc
match_dash_sound (c ∷ s) r e = ground arith

regex_match_sound :
    (name s : Bytes) {g : Captured × Bytes}
    → IsLiteral name
    → regex_match name s ≡ some g
    → (r : Bytes) × (s ≡ name ++ b'-' ∷ r)
unfolding regex_match
regex_match_sound name s literal e = elim (Option-cases (match_name name s)) [
  | inl p ↦ absurd (cc p)
  | inr (r, p) ↦ elim (Option-cases (match_dash r)) [
    | inl q ↦ absurd (let e' = rw (p, ◌>>=◌, q, ◌>>=◌) at e in cc)
    | inr (t, q) ↦
        (t, match_name_sound name s r literal p ∙ ap (◌++◌ name) (match_dash_sound r t q))
  ]
]

-- A text splits in one way at its first dash.
split_dash :
    (m n r s : Bytes) → All IsNameByte m → All IsNameByte n → m ++ b'-' ∷ r ≡ n ++ b'-' ∷ s → m ≡ n
split_dash [] [] r s _ _ e = refl
split_dash [] (c ∷ n) r s _ hn e = ground arith
split_dash (c ∷ m) [] r s hm _ e = ground arith
split_dash (c ∷ m) (d ∷ n) r s (_, hm) (_, hn) e = ground (arith, split_dash m n r s hm hn)

stem_dash : (c : Command) → (r : Bytes) × (stem c ≡ c.name ++ b'-' ∷ r)
unfolding stem
stem_dash c = (to_string c.unique_id ++ (codes "-" ++ (to_string c.version ++ codes ".dat")), refl)

matched-injective : {a b v w : ℤ} → matched a v ≡ matched b w → (a ≡ b) × (v ≡ w)
matched-injective e = (cc, cc)

-- Two requests with accepted names, ranks and versions have the same file only if these agree.
pub stem-injective :
    (c d : Command) (i j v w : ℕ)
    → IsNumbered c i v
    → IsNumbered d j w
    → stem c ≡ stem d
    → (c.name ≡ d.name) × (c.unique_id ≡ d.unique_id) × (c.version ≡ d.version)
stem-injective c d i j v w nc nd e =
    let (r, er) = stem_dash c in
    let (s, es) = stem_dash d in
    let same : c.name ≡ d.name =
      split_dash c.name d.name r s (validate_name-All _ nc.valid) (validate_name-All _ nd.valid)
        (sym er ∙ (e ∙ es)) in
    let read : matched c.unique_id c.version ≡ matched d.unique_id d.version =
      sym (match-stem_self c i v nc) ∙ (ap₂ match e same ∙ match-stem_self d j w nd) in
    let (ranks, versions) = matched-injective read in (same, ranks, versions)

match_name_dot :
    (p q : Bytes) (x : ℕ) (rest : Bytes)
    → All IsNameByte (p ++ x ∷ q)
    → match_name (p ++ b'.' ∷ q) ((p ++ x ∷ q) ++ rest) ≡ some rest
unfolding match_name
match_name_dot [] q x rest (hx, h) = ground (arith, match_name-append q rest h)
match_name_dot (c ∷ p) q x rest (hc, h) = ground (arith, match_name_dot p q x rest h)

match-cong : (m n s : Bytes) → match_name m s ≡ match_name n s → match s m ≡ match s n
unfolding match
match-cong m n s e = rw (e, match, regex_match)

module _ (c : Command) (i v : ℕ) (n : IsNumbered c i v) where
  -- The pattern of an accepted name without a dot finds the checkpoints of that name only.
  pub match_exact :
      (cname : Bytes)
      → validate_name cname ≡ true
      → IsLiteral cname
      → match (stem c) cname
        ≡ (if bytes_eq cname c.name then matched c.unique_id c.version else no_match)
  unfolding match
  match_exact cname ok literal = elim (Bool-cases (bytes_eq cname c.name)) [
    | inl e ↦
        let same : cname ≡ c.name = (bytes_eq_iff cname c.name).0 e in
        rw e (
          subst (λ x. match (stem c) x ≡ matched c.unique_id c.version) (sym same)
            (match-stem_self c i v n))
    | inr e ↦ rw e (elim (Option-cases (regex_match cname (stem c))) [
      | inl p ↦ rw (p, match)
      | inr (g, p) ↦
          let (r, er) = stem_dash c in
          let (s, es) = regex_match_sound cname (stem c) literal p in
          let same : cname ≡ c.name =
            split_dash cname c.name s r (validate_name-All _ ok) (validate_name-All _ n.valid)
              (sym es ∙ er) in
          absurd (cc ((bytes_eq_iff cname c.name).1 same))
    ])
  ]

  -- A dot in a name stands for any other byte of a name, so the pattern also finds the files of
  -- the checkpoints that are called so.
  pub match_dot :
      (p q : Bytes) (x : ℕ)
      → c.name ≡ p ++ x ∷ q
      → match (stem c) (p ++ b'.' ∷ q) ≡ matched c.unique_id c.version
  match_dot p q x e =
      let (r, er) = stem_dash c in
      let valid = validate_name-All c.name n.valid in
      match-cong (p ++ b'.' ∷ q) c.name (stem c) (
        rw (er, match_name-append c.name (b'-' ∷ r) valid, e)
          (match_name_dot p q x _ (rw e at valid)))
      ∙ match-stem_self c i v n
