-- ===== src/FileUtil/Transfer.antt =====
-- file_transfer_loop of src/common/file_util.cpp, in the variant with copy_file_range, over the
-- answers of the system: however it cuts the copy into pieces, the whole range arrives.
use veloc.Base.{
  ℕ, zero, suc, ◌+◌, ◌-◌, ◌<◌, ◌≡◌, refl, ◌∙◌, Bool, true, false, Option, none, some, List, [], ◌∷◌,
  ◌==◌, if◌then◌else◌, arith, All, Bool-cases, inl, inr,
}
use veloc.Base.Int.{ℤ, pos, negsuc, ◌==ℤ◌, pos_part}
use veloc.Client.Memory.{Memory, read_mem, write_mem, within, write_mem-read_mem}

-- A file is the byte at each offset. `none` is a call that the system has not answered yet.
unfoldable pub file_transfer_loop : List ℤ → Memory → ℕ → ℕ → ℕ → Memory → Option (Bool × Memory)
file_transfer_loop [] source soff doff remaining dest =
    if remaining == 0 then some (true, dest) else none
file_transfer_loop (transferred ∷ answers) source soff doff remaining dest =
    let n = pos_part transferred in
    let next =
      file_transfer_loop answers source (soff + n) (doff + n) (remaining - n)
        (write_mem doff (read_mem source soff n) dest) in
    if remaining == 0
    then some (true, dest)
    else if transferred ==ℤ negsuc 0
    then some (false, dest)
    else next

abbrev pub sum : List ℕ → ℕ
sum [] = 0
sum (n ∷ ns) = n + sum ns

abbrev pub chunks : List ℕ → List ℤ
chunks [] = []
chunks (n ∷ ns) = pos n ∷ chunks ns

abbrev pub zero_answers : ℕ → List ℤ
zero_answers zero = []
zero_answers (suc n) = pos 0 ∷ zero_answers n

-- The destination behind a copy of `n` bytes.
abbrev pub copied : Memory → ℕ → ℕ → ℕ → Memory → Memory
copied source soff doff n dest a = if within doff n a then source (soff + (a - doff)) else dest a

in_second :
    (soff doff n k a : ℕ)
    → within (doff + n) k a ≡ true
    → (within doff (n + k) a ≡ true) × (soff + n + (a - (doff + n)) ≡ soff + (a - doff))
in_second soff doff n k a h = ground arith

in_first : (doff n k a : ℕ) → within doff n a ≡ true → within doff (n + k) a ≡ true
in_first doff n k a h = ground arith

outside :
    (doff n k a : ℕ)
    → within (doff + n) k a ≡ false
    → within doff n a ≡ false
    → within doff (n + k) a ≡ false
outside doff n k a h e = ground arith

not_failed : (n : ℕ) → (pos n ==ℤ negsuc 0) ≡ false
unfolding ◌==ℤ◌
not_failed n = ground arith

join :
    (source dest dest' : Memory) (soff doff n k a : ℕ)
    → (dest' a ≡ copied source soff doff n dest a)
    → copied source (soff + n) (doff + n) k dest' a ≡ copied source soff doff (n + k) dest a
join source dest dest' soff doff n k a h = elim (Bool-cases (within (doff + n) k a)) [
  | inl later ↦
      let (whole, offset) = in_second soff doff n k a later in rw (later, whole, offset) refl
  | inr not_later ↦ elim (Bool-cases (within doff n a)) [
    | inl first ↦ rw (not_later, in_first doff n k a first) (h ∙ rw first refl)
    | inr out ↦ rw (not_later, outside doff n k a not_later out) (h ∙ rw out refl)
  ]
]

-- A copy that the system cuts into pieces, none of them empty, returns true and has put the whole
-- range in its place; no other byte of the destination changes.
pub transfer_whole :
    (ns : List ℕ) (source : Memory) (soff doff : ℕ) (dest : Memory)
    → All (λ n. 0 < n) ns
    → (dest' : Memory) × (file_transfer_loop (chunks ns) source soff doff (sum ns) dest
        ≡ some (true, dest'))
      × ((a : ℕ) → dest' a ≡ copied source soff doff (sum ns) dest a)
unfolding file_transfer_loop
transfer_whole [] source soff doff dest _ = (dest, refl, λ a. ground arith)
transfer_whole (n ∷ ns) source soff doff dest (p, h) =
    let (dest', run, all) =
      transfer_whole ns source (soff + n) (doff + n) (write_mem doff (read_mem source soff n) dest)
        h in
    let busy : (n + sum ns == 0) ≡ false = ground arith in
    let left : n + sum ns - n ≡ sum ns = omega arith in
    (
      dest',
      rw (busy, left, not_failed n) run,
      λ a.
          all a
          ∙ join source dest (write_mem doff (read_mem source soff n) dest) soff doff n (sum ns) a
              (write_mem-read_mem source dest soff doff n a),
    )

-- If the system answers that there is nothing to copy, as at the end of a source that was cut short,
-- the loop goes on: however often that is, it does not end.
pub transfer_stalls :
    (n : ℕ) (source : Memory) (soff doff remaining : ℕ) (dest : Memory)
    → 0 < remaining
    → file_transfer_loop (zero_answers n) source soff doff remaining dest ≡ none
unfolding file_transfer_loop write_mem read_mem
transfer_stalls zero source soff doff remaining dest h =
    let busy : (remaining == 0) ≡ false = ground arith in rw busy refl
transfer_stalls (suc n) source soff doff remaining dest h =
    let busy : (remaining == 0) ≡ false = ground arith in
    let a : soff + 0 ≡ soff = omega arith in
    let b : doff + 0 ≡ doff = omega arith in
    let c : remaining - 0 ≡ remaining = omega arith in
    rw (busy, not_failed 0, a, b, c) (transfer_stalls n source soff doff remaining dest h)
