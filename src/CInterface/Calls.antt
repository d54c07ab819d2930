-- ===== src/CInterface/Calls.antt =====
-- All calls of the C interface in one type, with what each of them comes to.
use veloc.Base.{ℕ, Bool, Option, List, []}
use veloc.Base.Int.{ℤ, pos}
use veloc.Base.Bytes.{Bytes}
use veloc.FileSystem.{FileSystem}
use veloc.Client.State.{Config, Client, Backend, Outcome, default_mem_group}
use veloc.CInterface.{
  World, Result, then_return, region_protect, region_unprotect, region_clear, init, begin,
  checkpoint_selective, end, wait, is_finished, test, route, clean_up, begin_restart,
  recover_selective, size, end_restart, whole_restart, whole_checkpoint, finalize,
}

-- The two initializations differ in the constructor that they call. A call with a group is also the
-- one without, whose group is the default.
pub data Call (F : FileSystem) : Type 0 where
  inits : (F.State → Outcome (Client F × F.State)) → Call F
  protects : ℤ → ℕ → ℕ → ℕ → Bytes → Call F
  unprotects : ℤ → Bytes → Call F
  clears : Bytes → Call F
  begins : Bytes → ℤ → Call F
  selects : ℤ → List ℤ → Call F
  ends waits asks : Call F
  tests : Bytes → ℤ → Call F
  routes : Option Bytes → Bytes → Call F
  cleans : Bytes → Call F
  restart_begins : Bytes → ℤ → Call F
  recovers : ℤ → List ℤ → Call F
  sizes : ℤ → Call F
  restart_ends : Call F
  restarts checkpoints : Bytes → ℤ → Call F
  finalizes : Bool → Call F

-- VELOC_Mem_protect, VELOC_Mem_unprotect, VELOC_Mem_clear, VELOC_Checkpoint_mem and
-- VELOC_Recover_mem
abbrev pub mem_protect : {F : FileSystem} → ℤ → ℕ → ℕ → ℕ → Call F
mem_protect id ptr count base_size = protects id ptr count base_size default_mem_group

abbrev pub mem_unprotect : {F : FileSystem} → ℤ → Call F
mem_unprotect id = unprotects id default_mem_group

abbrev pub mem_clear : {F : FileSystem} → Call F
mem_clear = clears default_mem_group

abbrev pub checkpoint_mem : {F : FileSystem} → Call F
checkpoint_mem = selects (pos 0) []

abbrev pub recover_mem : {F : FileSystem} → Call F
recover_mem = recovers (pos 0) []

module _ {F : FileSystem} (B : Backend F) (cfg : Config) where
  unfoldable pub run : Call F → World F → Result F
  unfolding then_return
  run (inits construct) w = init B cfg construct w
  run (protects id ptr count base_size name) w = region_protect id ptr count base_size name w
  run (unprotects id name) w = region_unprotect id name w
  run (clears name) w = region_clear name w
  run (begins name version) w = begin B cfg name version w
  run (selects mode ids) w = checkpoint_selective B cfg mode ids w
  run ends w = end B cfg w
  run waits w = wait B cfg w
  run asks w = is_finished B cfg w
  run (tests name version) w = test B cfg name version w
  run (routes cwd original) w =
      then_return (route B cfg cwd original w) (λ (r : Bytes × ℤ × World F). (r.1, r.2))
  run (cleans name) w = clean_up B cfg name w
  run (restart_begins name version) w = begin_restart B cfg name version w
  run (recovers mode ids) w = recover_selective B cfg mode ids w
  run (sizes id) w = size B cfg id w
  run restart_ends w = end_restart B cfg w
  run (restarts name version) w = whole_restart B cfg name version w
  run (checkpoints name version) w = whole_checkpoint B cfg name version w
  run (finalizes drain) w = finalize B cfg drain w
