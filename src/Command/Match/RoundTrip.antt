-- ===== src/Command/Match/RoundTrip.antt =====
-- The parser of file names reads back what `stem`, `meta_filename` and `agg_filename` print.
use veloc.Base.{
  ℕ, ◌^◌, ◌<◌, ◌≡◌, ◌≢◌, refl, true, some, [], ◌∷◌, ◌++◌, arith, All, append_assoc, append-nil,
}
use veloc.Base.Int.{pos, negsuc}
use veloc.Base.Bytes.{Bytes, codes}
use veloc.Command.Decimal.{
  to_string, decimal, decimal-All, decimal-ne-nil, take_digits, take_digits-append, StopsDigits,
  stoi-decimal,
}
use veloc.Command.Name.{IsNameByte, validate_name, validate_name-All}
use veloc.Command.{Command, stem, agg_stem, id_agg, id_ec}
use veloc.Command.Match.{
  match, matched, number, ec, agg, Captured, ◌>>=◌, match_name, match_id, match_digits, match_rest,
  match_version, regex_match, convert,
}

pub match_name-append :
    (name rest : Bytes) → All IsNameByte name → match_name name (name ++ rest) ≡ some rest
unfolding match_name
match_name-append [] rest _ = refl
match_name-append (p ∷ name) rest (hp, h) = ground (arith, match_name-append name rest h)

match_digits_pos : (d r : Bytes) → d ≢ [] → match_digits (d, r) ≡ some (d, r)
unfolding match_digits
match_digits_pos [] r h = absurd (h refl)
match_digits_pos (c ∷ d) r h = refl

take_digits-decimal :
    (n : ℕ) (r : Bytes)
    → StopsDigits r
    → match_digits (take_digits (decimal n ++ r)) ≡ some (decimal n, r)
take_digits-decimal n r h =
    rw (take_digits-append (decimal n) r (decimal-All n) h)
      (match_digits_pos (decimal n) r (decimal-ne-nil n))

match_id-decimal :
    (n : ℕ) (r : Bytes) → match_id (decimal n ++ b'-' ∷ r) ≡ some (number (decimal n), b'-' ∷ r)
unfolding match_id
match_id-decimal n r = rw (take_digits-decimal n (b'-' ∷ r) refl, match_id)

-- What may follow the version: it begins with no digit and has no line end.
abbrev pub IsTail : Bytes → Type 0
IsTail t = StopsDigits t × (match_rest t ≡ true)

match_version-decimal :
    (id : Captured) (v : ℕ) (tail : Bytes)
    → IsTail tail
    → match_version id (b'-' ∷ (decimal v ++ tail)) ≡ some (id, decimal v)
unfolding match_version
match_version-decimal id v tail (stops, rest) =
    rw (take_digits-decimal v tail stops, ◌>>=◌) (rw rest refl)

module _ (name : Bytes) (valid : All IsNameByte name) (v : ℕ) (tail : Bytes) (t : IsTail tail) where
  regex_match-number :
      (i : ℕ)
      → regex_match name (name ++ b'-' ∷ (decimal i ++ b'-' ∷ (decimal v ++ tail)))
        ≡ some (number (decimal i), decimal v)
  unfolding regex_match
  regex_match-number i =
      rw (match_name-append name _ valid, ◌>>=◌)
        (rw (match_id-decimal i (decimal v ++ tail), ◌>>=◌) (match_version-decimal _ v tail t))

  regex_match-ec :
      regex_match name (name ++ (codes "-ec-" ++ (decimal v ++ tail))) ≡ some (ec, decimal v)
  unfolding regex_match take_digits
  regex_match-ec = rw (match_name-append name _ valid, ◌>>=◌) (match_version-decimal _ v tail t)

  regex_match-agg :
      regex_match name (name ++ (codes "-agg-" ++ (decimal v ++ tail))) ≡ some (agg, decimal v)
  unfolding regex_match take_digits
  regex_match-agg = rw (match_name-append name _ valid, ◌>>=◌) (match_version-decimal _ v tail t)

  module _ (small : v < 2 ^ 31) where
    pub match-number :
        (i : ℕ)
        → i < 2 ^ 31
        → match (name ++ b'-' ∷ (decimal i ++ b'-' ∷ (decimal v ++ tail))) name
          ≡ matched (pos i) (pos v)
    unfolding match
    match-number i h =
        rw (regex_match-number i, match)
          (rw (stoi-decimal i h, convert) (rw (stoi-decimal v small) refl))

    pub match-ec :
        match (name ++ (codes "-ec-" ++ (decimal v ++ tail))) name ≡ matched (negsuc 0) (pos v)
    unfolding match
    match-ec = rw (regex_match-ec, match) (rw (stoi-decimal v small) refl)

    pub match-agg :
        match (name ++ (codes "-agg-" ++ (decimal v ++ tail))) name ≡ matched (negsuc 1) (pos v)
    unfolding match
    match-agg = rw (regex_match-agg, match) (rw (stoi-decimal v small) refl)

-- Names that a client accepts, with a rank and a version that are not negative ints.
pub record IsNumbered (c : Command) (i v : ℕ) : Type 0 where
  pub valid : validate_name c.name ≡ true
  pub rank : c.unique_id ≡ pos i
  pub version : c.version ≡ pos v
  pub rank_small : i < 2 ^ 31
  pub version_small : v < 2 ^ 31

module _ (c : Command) (i v : ℕ) (n : IsNumbered c i v) where
  stem-append :
      (suffix : Bytes)
      → stem c ++ suffix
        ≡ c.name ++ b'-' ∷ (decimal i ++ b'-' ∷ (decimal v ++ (codes ".dat" ++ suffix)))
  unfolding stem to_string
  stem-append suffix = rw (n.rank, n.version) (simp append_assoc)

  -- A file that is called like a checkpoint, whatever suffix without a line end is put behind it
  -- (the checksum's for one), is read as the checkpoint's rank and version.
  pub match-stem :
      (suffix : Bytes)
      → match_rest suffix ≡ true
      → match (stem c ++ suffix) c.name ≡ matched c.unique_id c.version
  match-stem suffix h =
      rw (stem-append suffix, n.rank, n.version)
        (match-number c.name (validate_name-All c.name n.valid) v (codes ".dat" ++ suffix)
          (refl, unfold match_rest in h) n.version_small i n.rank_small)

  pub match-stem_self : match (stem c) c.name ≡ matched c.unique_id c.version
  match-stem_self = rw append-nil at (match-stem [] (unfold match_rest in refl))

  -- The aggregated file of a version, and the redundancy files that the EC module puts beside the
  -- checkpoints, are read as the special ids ID_AGG and ID_EC with that version.
  pub match-shared :
      (suffix : Bytes)
      → match_rest suffix ≡ true
      → StopsDigits suffix
      → (match (agg_stem c) c.name ≡ matched id_agg c.version)
        × (match (c.name ++ (codes "-ec-" ++ (to_string c.version ++ suffix))) c.name
            ≡ matched id_ec c.version)
  unfolding to_string
  match-shared suffix h stops = rw n.version (
    match-agg c.name (validate_name-All c.name n.valid) v (codes ".dat")
        (refl, unfold match_rest in refl) n.version_small,
    match-ec c.name (validate_name-All c.name n.valid) v suffix (stops, h) n.version_small,
  )
