-- ===== src/Inspect/Laws.antt =====
-- What the tool prints of a checkpoint that the client library has written.
use veloc.Base.{
  drop-append, ℕ, zero, suc, ◌+◌, ◌*◌, ◌^◌, ◌<◌, ◌≤◌, ◌≡◌, refl, ap, ap₂, sym, ◌∙◌, false, some, [],
  ◌∷◌, ◌++◌, ltb, leb, le→leb, ◌==◌, if◌then◌else◌, if_true, if_false, arith, inl, inr, Bool-cases,
  length, length-append, append_assoc, take, drop,
}
use mathlib.Core.Option.{some-injective}
use veloc.Base.Int.{ℤ, ◌==ℤ◌}
use veloc.Base.Bytes.{Bytes}
use veloc.Base.IntMap.{find}
use veloc.Header.{read, write_header}
use veloc.Header.RoundTrip.{total, length-write_header}
use veloc.Client.Memory.{Memory, read_mem, length-read_mem}
use veloc.Client.State.{Region, raw, object, Regions}
use veloc.Client.Copy.{IsRaw, sizes, region_data}
use veloc.Client.RoundTrip.{IsStorable, image, image-header}
use veloc.Inspect.{
  Args, failed, listed, extracted, total_size, seek, output, extract_from, extract_region, inspect,
}

abbrev pointer_of : Region → ℕ
pointer_of (raw ptr size) = ptr
pointer_of (object s d) = 0

abbrev size_of : Region → ℕ
size_of (raw ptr size) = size
size_of (object s d) = 0

-- Where the bytes of a region are.
record Located (id : ℤ) (m : Memory) (rs : Regions) (ptr n start : ℕ) : Type 0 where
  pub before : Bytes
  pub behind : Bytes
  pub parts : region_data m rs ≡ before ++ (read_mem m ptr n ++ behind)
  pub found : seek id (sizes rs) start ≡ some (start + length before, n)

locate :
    (id : ℤ) (m : Memory) (rs : Regions) (ptr n start : ℕ)
    → IsRaw rs
    → find id rs ≡ some (raw ptr n)
    → start + total (sizes rs) < 2 ^ 64
    → Located id m rs ptr n start
unfolding find seek
locate id m [] ptr n start _ e _ = cc
locate id m ((j, object s d) ∷ rs) ptr n start h e _ = absurd (cc h)
locate id m ((j, raw q k) ∷ rs) ptr n start (_, h) e fits = elim (Bool-cases (id ==ℤ j)) [
  | inl p ↦
      let same = some-injective _ _ (rw p at e) in
      let q_is : q ≡ ptr = ap pointer_of same in
      let k_is : k ≡ n = ap size_of same in
      record {
        before = [];
        behind = region_data m rs;
        parts = rw (q_is, k_is) refl;
        found = rw p (ap some (ap₂ (λ a b. (a, b)) (omega arith) k_is));
      }
  | inr p ↦
      let next = start + k in
      let rest = locate id m rs ptr n (start + k) h (rw p at e) (omega (arith, fits)) in
      record {
        before = read_mem m q k ++ rest.before;
        behind = rest.behind;
        parts =
            ap (λ b. read_mem m q k ++ b) rest.parts
            ∙ sym (append_assoc (read_mem m q k) rest.before (read_mem m ptr n ++ rest.behind));
        found =
            if_false (id ==ℤ j) _ _ p
            ∙ (ap (seek id (sizes rs)) (omega (arith, fits))
                ∙ (rest.found
                    ∙ ap (λ x. some (x, n))
                        (omega (
                          arith,
                          length-append (read_mem m q k) rest.before,
                          length-read_mem m q k,
                        ))));
      }
]

take_within : (k : ℕ) (xs ys : Bytes) → k ≤ length xs → take k (xs ++ ys) ≡ take k xs
take_within zero xs ys _ = refl
take_within (suc k) [] ys h = absurd (omega (arith, h))
take_within (suc k) (x ∷ xs) ys h = ap (◌∷◌ x) (take_within k xs ys (omega (arith, h)))

output-read :
    (k : ℕ) (xs ys : Bytes) → k ≤ length xs → output (read k (xs ++ ys)) ≡ extracted (take k xs)
unfolding read output
output-read k xs ys h =
    ap output
      (if_true (leb k (length (xs ++ ys))) _ _ (le→leb k _ (omega (arith, h, length-append xs ys))))
    ∙ ap extracted (take_within k xs ys h)

drop_to : (n : ℕ) (xs ys zs : Bytes) → n ≡ length xs + length ys → drop n (xs ++ (ys ++ zs)) ≡ zs
drop_to n xs ys zs e =
    ap (λ i. drop i (xs ++ (ys ++ zs))) (e ∙ sym (length-append xs ys))
    ∙ (ap (drop (length (xs ++ ys))) (sym (append_assoc xs ys zs)) ∙ drop-append (xs ++ ys) zs)

wanted_within : (k n : ℕ) → k ≤ n → (if k == 0 then n else k) ≤ n
wanted_within k n h = ground arith

not_less : (k n : ℕ) → k ≤ n → ltb n k ≡ false
not_less k n h = ground arith

not_zero : (n : ℕ) → ((8 + n) == 0) ≡ false
not_zero n = ground arith

-- Of a checkpoint that the client library has written, of regions of raw memory that fit in a file,
-- the tool extracts what was in the memory of the region that is asked for: all of it, or as many
-- bytes from its start as are asked for.
pub extract_written :
    (m : Memory) (rs : Regions) (a : Args) (ptr n : ℕ)
    → IsStorable rs
    → 8 + 12 * length (sizes rs) + total (sizes rs) < 2 ^ 64
    → find a.id rs ≡ some (raw ptr n)
    → a.header ≡ false
    → a.size ≤ n
    → inspect (some (image m rs)) a
      ≡ extracted (take (if a.size == 0 then n else a.size) (read_mem m ptr n))
unfolding inspect extract_region extract_from
extract_written m rs a ptr n storable fits there plain enough =
    let start = 8 + 12 * length (sizes rs) in
    let loc = locate a.id m rs ptr n start storable.raws there fits in
    let k = if a.size == 0 then n else a.size in
    let bytes = read_mem m ptr n in
    let placed : drop (start + length loc.before) (image m rs) ≡ bytes ++ loc.behind =
      ap (λ d. drop (start + length loc.before) (write_header (sizes rs) ++ d)) loc.parts
      ∙ drop_to (start + length loc.before) (write_header (sizes rs)) loc.before
          (bytes ++ loc.behind) (omega (arith, length-write_header (sizes rs))) in
    ap
      (λ h.
        if h.size == 0
        then failed
        else if a.header
        then listed h.info (total_size h.info 0)
        else extract_region (some (image m rs)) a h)
      (image-header m rs storable)
    ∙ (if_false (start == 0) _ _ (not_zero (12 * length (sizes rs)))
        ∙ (if_false a.header _ _ plain
            ∙ (ap (extract_from (image m rs) a.size) loc.found
                ∙ (if_false (ltb n a.size) _ _ (not_less a.size n enough)
                    ∙ (ap (λ file. output (read k file)) placed
                        ∙ output-read k bytes loc.behind (
                            omega
                              (arith, wanted_within a.size n enough, length-read_mem m ptr n)))))))
