-- ===== src/FileUtil/Tests.antt =====
-- The copy loop and the directory walk at concrete inputs.
use veloc.Base.{ℕ, ◌≡◌, refl, true, false, none, some, List, [], ◌∷◌, arith}
use veloc.Base.Int.{ℤ, pos, negsuc, ◌==ℤ◌}
use veloc.Base.Bytes.{codes}
use veloc.Client.Memory.{Memory}
use veloc.Command.Match.{match}
use veloc.FileSystem.Disk.{disk}
use veloc.FileUtil.{parse_dir, returned}
use veloc.FileUtil.Transfer.{file_transfer_loop, copied, transfer_whole, transfer_stalls}

-- The versions of "wave" in a directory with a file of another name.
abbrev collect : ℤ → List ℤ → List ℤ
collect v vs = v ∷ vs

two_versions :
    parse_dir disk
      ((codes "wave-3-1.dat", []) ∷ (codes "waves-3-9.dat", []) ∷ (codes "wave-3-2.dat", []) ∷ [])
      (codes "/s")
      (codes "wave")
      (λ f id v vs. collect v vs)
      []
    ≡ returned true (pos 2 ∷ pos 1 ∷ [])
unfolding parse_dir match
two_versions = refl

abbrev source : Memory
source a = a

failed_copy : file_transfer_loop (negsuc 0 ∷ []) source 0 0 3 source ≡ some (false, source)
unfolding file_transfer_loop ◌==ℤ◌
failed_copy = refl

transfer_whole_example :
    (dest' : Memory) × (file_transfer_loop (pos 2 ∷ pos 3 ∷ []) source 10 100 5 (λ a. 0)
      ≡ some (true, dest'))
    × ((a : ℕ) → dest' a ≡ copied source 10 100 5 (λ a. 0) a)
transfer_whole_example =
    transfer_whole (2 ∷ 3 ∷ []) source 10 100 (λ a. 0) (omega arith, (omega arith, tt))

transfer_stalls_example : file_transfer_loop (pos 0 ∷ pos 0 ∷ []) source 10 100 5 (λ a. 0) ≡ none
transfer_stalls_example = transfer_stalls 2 source 10 100 5 (λ a. 0) (omega arith)
