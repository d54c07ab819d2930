-- ===== src/FileUtil/ReadWrite.antt =====
-- file_transfer_loop of src/common/file_util.cpp in the variant with pread and pwrite, over the answers
-- of the system to both, and how it is the variant with copy_file_range.
use veloc.Base.{
  ℕ, ◌+◌, ◌-◌, ◌≡◌, refl, ap, ◌∙◌, Bool, true, false, not, Option, none, some, List, [], ◌∷◌, ◌==◌,
  if◌then◌else◌,
}
use veloc.Base.Int.{ℤ, negsuc, ◌==ℤ◌, ==ℤ_refl, pos_part}
use veloc.Client.Memory.{Memory, read_mem, write_mem}
use veloc.FileUtil.Transfer.{file_transfer_loop}

-- What a pread returned, and the pwrite behind it, which is not made if the pread failed.
abbrev pub Answers : Type 0
Answers = List (ℤ × ℤ)

unfoldable pub read_write_loop : Answers → Memory → ℕ → ℕ → ℕ → Memory → Option (Bool × Memory)
read_write_loop [] source soff doff remaining dest =
    if remaining == 0 then some (true, dest) else none
read_write_loop ((transferred, written) ∷ answers) source soff doff remaining dest =
    let n = pos_part transferred in
    let put = write_mem doff (read_mem source soff (pos_part written)) dest in
    let next = read_write_loop answers source (soff + n) (doff + n) (remaining - n) put in
    if remaining == 0
    then some (true, dest)
    else if transferred ==ℤ negsuc 0
    then some (false, dest)
    else if not (written ==ℤ transferred)
    then some (false, put)
    else next

-- Each pwrite wrote what was read.
abbrev pub whole : List ℤ → Answers
whole [] = []
whole (n ∷ ns) = (n, n) ∷ whole ns

-- As long as every pwrite writes all that was read, the loop over pread and pwrite ends as the one over
-- copy_file_range does when that copies as much at a time: with the same result, and with the same
-- bytes in the destination, an early end and a failure included.
pub read_write_loop-direct :
    (answers : List ℤ) (source : Memory) (soff doff remaining : ℕ) (dest : Memory)
    → read_write_loop (whole answers) source soff doff remaining dest
      ≡ file_transfer_loop answers source soff doff remaining dest
unfolding read_write_loop file_transfer_loop
read_write_loop-direct [] source soff doff remaining dest = refl
read_write_loop-direct (n ∷ answers) source soff doff remaining dest =
    let k = pos_part n in
    let put = write_mem doff (read_mem source soff k) dest in
    let same = read_write_loop-direct answers source (soff + k) (doff + k) (remaining - k) put in
    ap
      (λ b.
        if remaining == 0
        then some (true, dest)
        else if n ==ℤ negsuc 0
        then some (false, dest)
        else if not b
        then some (false, put)
        else read_write_loop (whole answers) source (soff + k) (doff + k) (remaining - k) put)
      (==ℤ_refl n)
    ∙ ap
        (λ r.
          if remaining == 0
          then some (true, dest)
          else if n ==ℤ negsuc 0
          then some (false, dest)
          else r)
        same
