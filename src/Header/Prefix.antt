-- ===== src/Header/Prefix.antt =====
-- When read_header accepts a file: what its size is then, and that no accepted file is cut short.
use veloc.Base.{
  ℕ, zero, suc, ◌+◌, ◌-◌, ◌*◌, ◌^◌, ◌<◌, ◌≤◌, ◌≡◌, ◌≢◌, refl, ap, sym, ◌∙◌, true, false, none, some,
  List, [], ◌∷◌, ◌++◌, arith, ltb→lt, ltb, ◌==◌, ==_iff, length, length-append, length-drop, take,
  drop, inl, inr, Bool-cases, Option-cases,
}
use mathlib.Core.Option.{some-injective}
use veloc.Base.Bytes.{Bytes}
use veloc.Header.{
  Header, Scan, Outcome, failed, scanned, ◌>>=◌, read, read_region, read_regions, read_header,
  read_count, finish, rounds,
}
use veloc.Header.Codec.{le_value}

-- A size of 0 is how read_header reports that it refuses a file.
abbrev pub IsAccepted : Bytes → Type 0
IsAccepted file = (read_header (some file)).size ≢ 0

take_append_le :
    {A : Type 0} (n : ℕ) (s t : List A)
    → n ≤ length s
    → (take n (s ++ t) ≡ take n s) × (drop n (s ++ t) ≡ drop n s ++ t)
take_append_le zero s t h = (refl, refl)
take_append_le (suc n) [] t h = absurd (omega arith)
take_append_le (suc n) (x ∷ s) t h =
    let (p, q) = take_append_le n s t (omega arith) in (ap (◌∷◌ x) p, q)

read-append_tail :
    (n : ℕ) (s t : Bytes) {g : Bytes × Bytes}
    → read n s ≡ some g
    → (read n (s ++ t) ≡ some (g.0, g.1 ++ t)) × (length s ≡ n + length g.1)
unfolding read
read-append_tail n s t {g} h =
    ground (arith, take_append_le n s t, length-append s t, length-drop n s)

abbrev extend : Scan → Bytes → Scan
extend s t = record s { rest = s.rest ++ t }

read_region-extend :
    (s u : Scan) (t : Bytes)
    → read_region s ≡ some u
    → (read_region (extend s t) ≡ some (extend u t)) × (length s.rest ≡ 12 + length u.rest)
unfolding read_region
read_region-extend s u t h = elim (Option-cases (read 4 s.rest)) [
  | inl e ↦ absurd (let h' = rw (e, ◌>>=◌) at h in cc)
  | inr ((id, r), e) ↦ elim (Option-cases (read 8 r)) [
    | inl e' ↦ absurd (let h' = rw (e, ◌>>=◌, e', ◌>>=◌) at h in cc)
    | inr ((size, r'), e') ↦
        let (p, lp) = read-append_tail 4 s.rest t e in
        let (q, lq) = read-append_tail 8 r t e' in
        let read_to = some-injective _ _ (rw (e, ◌>>=◌, e', ◌>>=◌) at h) in
        (
          rw (p, ◌>>=◌) (rw (q, ◌>>=◌) (ap (λ v. some (extend v t)) read_to)),
          omega (arith, ap (λ (v : Scan). length v.rest) read_to),
        )
  ]
]

read_regions-extend :
    (n : ℕ) (s u : Scan) (t : Bytes)
    → read_regions n s ≡ scanned u
    → (read_regions n (extend s t) ≡ scanned (extend u t))
      × (length s.rest ≡ 12 * n + length u.rest)
unfolding read_regions
read_regions-extend zero s u t h =
    let same : s ≡ u = ground arith in
    (ap (λ v. scanned (extend v t)) same, omega (arith, ap (λ (v : Scan). length v.rest) same))
read_regions-extend (suc n) s u t h = elim (Option-cases (read_region s)) [
  | inl e ↦ absurd (let h' = rw (e, read_regions) at h in cc)
  | inr (v, e) ↦
      let (p, lp) = read_region-extend s v t e in
      let (q, lq) = read_regions-extend n v u t (rw (e, read_regions) at h) in
      (rw (p, read_regions) q, omega arith)
]

nonzero : (n : ℕ) → (n == 0) ≡ false → n ≢ 0
nonzero n e z = ground arith

-- What makes read_header accept a file.
abbrev pub start : Bytes → Scan
start r = record { rest = r; info = []; expected = 0 }

record Accepts (file : Bytes) : Type 0 where
  count : Bytes
  body : Bytes
  last : Scan
  counted : read 8 file ≡ some (count, body)
  few : ltb (le_value count) (2 ^ 32) ≡ true
  entries : read_regions (le_value count) (start body) ≡ scanned last
  sizes : length last.rest ≡ last.expected
  header :
      read_header (some file) ≡ record { size = length file - length last.rest; info = last.info }

finish-cases :
    (file : Bytes) (o : Outcome)
    → (finish file o).size ≢ 0
    → (s : Scan) × (o ≡ scanned s)
      × (length s.rest ≡ s.expected)
      × (finish file o ≡ record { size = length file - length s.rest; info = s.info })
unfolding finish
finish-cases file (failed m) h = absurd (h refl)
finish-cases file (scanned s) h = (s, refl, ground arith, ground arith)

-- A loop of more rounds than the file has bytes runs out of it.
rounds_few :
    (n : ℕ) (file r : Bytes) (s : Scan)
    → length r ≤ length file
    → read_regions (rounds n file) (start r) ≡ scanned s
    → ltb n (2 ^ 32) ≡ true
rounds_few n file r s le h = elim (Bool-cases (ltb n (2 ^ 32))) [
  | inl e ↦ e
  | inr e ↦
      let (_, len) = read_regions-extend (suc (length file)) (start r) s [] (rw e at h) in
      absurd (omega arith)
]

header_counted :
    (file : Bytes) {count r : Bytes}
    → read 8 file ≡ some (count, r)
    → read_header (some file) ≡ finish file (read_regions (rounds (le_value count) file) (start r))
unfolding read_header
header_counted file e = rw (e, read_count)

header_uncounted : (file : Bytes) → read 8 file ≡ none → (read_header (some file)).size ≡ 0
unfolding read_header
header_uncounted file e = rw (e, read_count)

accept_inversion : (file : Bytes) → IsAccepted file → Accepts file
accept_inversion file h = elim (Option-cases (read 8 file)) [
  | inl e ↦ absurd (h (header_uncounted file e))
  | inr ((count, r), e) ↦
      let eq = header_counted file e in
      let (s, scan, sizes, res) =
        finish-cases file (read_regions (rounds (le_value count) file) (start r))
          (λ z. h (ap (λ (x : Header). x.size) eq ∙ z)) in
      let (_, len) = read-append_tail 8 file [] e in
      let few = rounds_few (le_value count) file r s (omega arith) scan in
      record {
        count = count;
        body = r;
        last = s;
        counted = e;
        few = few;
        entries = rw few at scan;
        sizes = sizes;
        header = eq ∙ res;
      }
]

read_parts : (n : ℕ) (s : Bytes) {g : Bytes × Bytes} → read n s ≡ some g → g ≡ (take n s, drop n s)
unfolding read
read_parts n s h = ground arith

scanned-injective : (s u : Scan) → scanned s ≡ scanned u → s ≡ u
scanned-injective s u e = ground arith

length-eq-zero : (t : Bytes) → length t ≡ 0 → t ≡ []
length-eq-zero [] e = refl
length-eq-zero (b ∷ t) e = absurd (omega arith)

-- An accepted file has 8 bytes for the count, 12 for each of the regions that it counts, and as
-- many bytes of data as the regions' sizes make up; the header's size is what comes before these.
pub accepted_layout :
    (file : Bytes)
    → IsAccepted file
    → (n : ℕ) × (n < 2 ^ 32)
      × ((read_header (some file)).size ≡ 8 + 12 * n)
      × ((s : Scan) × (read_regions n (start (drop 8 file)) ≡ scanned s)
          × ((read_header (some file)).info ≡ s.info)
          × (length file ≡ 8 + 12 * n + s.expected))
accepted_layout file h =
    let a = accept_inversion file h in
    let body = ap (λ (g : Bytes × Bytes). g.1) (read_parts 8 file a.counted) in
    let (_, len) = read-append_tail 8 file [] a.counted in
    let (_, used) = read_regions-extend (le_value a.count) (start a.body) a.last [] a.entries in
    (
      le_value a.count,
      ltb→lt _ _ a.few,
      omega (arith, ap (λ (x : Header). x.size) a.header),
      (a.last, rw (← body) a.entries, ap (λ (x : Header). x.info) a.header, omega (arith, a.sizes)),
    )

accepted_prefix : (file t : Bytes) → IsAccepted file → IsAccepted (file ++ t) → t ≡ []
accepted_prefix file t h k =
    let a = accept_inversion file h in
    let b = accept_inversion (file ++ t) k in
    let (p, _) = read-append_tail 8 file t a.counted in
    let same = some-injective _ _ (sym p ∙ b.counted) in
    let (q, _) = read_regions-extend (le_value a.count) (start a.body) a.last t a.entries in
    let last : extend a.last t ≡ b.last = scanned-injective _ _ (
      sym q
      ∙ (ap (λ (g : Bytes × Bytes). read_regions (le_value g.0) (start g.1)) same ∙ b.entries)) in
    length-eq-zero t (
      omega (
        arith,
        length-append a.last.rest t,
        ap (λ (v : Scan). length v.rest) last,
        ap (λ (v : Scan). v.expected) last,
        a.sizes,
        b.sizes,
      ))

-- Of two files of which one is a proper prefix of the other, at most one is accepted: what an
-- accepted file becomes when something is appended is refused, with a header size of 0.
pub accepted-append :
    (file t : Bytes) → IsAccepted file → t ≢ [] → (read_header (some (file ++ t))).size ≡ 0
accepted-append file t h more = elim (Bool-cases ((read_header (some (file ++ t))).size == 0)) [
  | inl e ↦ (==_iff _ 0).0 e
  | inr e ↦ absurd (more (accepted_prefix file t h (nonzero _ e)))
]
