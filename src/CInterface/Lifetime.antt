-- ===== src/CInterface/Lifetime.antt =====
-- What the calls of the C interface come to before the library is initialized and after it has been
-- finalized.
use veloc.Base.{subst, ◌≡◌, refl, Bool, true, false}
use veloc.Base.Int.{ℤ}
use veloc.FileSystem.{FileSystem}
use veloc.Queue.{success, failure}
use veloc.Client.State.{Config, Client, Backend, Outcome, returns, undefined}
use veloc.CInterface.{
  absent, alive, deleted, World, Result, call, get_client, caught, init, then_return,
  region_protect, region_unprotect, region_clear, begin, checkpoint_selective, end, wait,
  is_finished, test, route, clean_up, begin_restart, recover_selective, size, end_restart,
  whole_restart, whole_checkpoint, finalize,
}
use veloc.CInterface.Calls.{
  Call, inits, protects, unprotects, clears, begins, selects, ends, waits, asks, tests, routes,
  cleans, restart_begins, recovers, sizes, restart_ends, restarts, checkpoints, finalizes, run,
}

-- The calls that look at the pointer before they use it.
abbrev pub is_guarded : {F : FileSystem} → Call F → Bool
is_guarded (inits construct) = false
is_guarded (routes cwd original) = false
is_guarded _ = true

abbrev pub is_init : {F : FileSystem} → Call F → Bool
is_init (inits construct) = true
is_init _ = false

module _ {F : FileSystem} (B : Backend F) (cfg : Config) where
  absent_lem :
      (w : World F) (f : Client F → Result F) → w.handle ≡ absent → call w f ≡ returns (failure, w)
  unfolding call
  absent_lem w f e = rw e refl

  deleted_lem : (w : World F) (f : Client F → Result F) → w.handle ≡ deleted → call w f ≡ undefined
  unfolding call
  deleted_lem w f e = rw e refl

  -- Before the library is initialized every call but that of VELOC_Route_file, which takes the pointer
  -- as it is, returns VELOC_FAILURE and changes nothing.
  pub uninitialized :
      (k : Call F) (w : World F)
      → w.handle ≡ absent
      → is_guarded k ≡ true
      → run B cfg k w ≡ returns (failure, w)
  unfolding run region_protect region_unprotect region_clear begin checkpoint_selective end wait
      is_finished test clean_up begin_restart recover_selective size end_restart whole_restart
      whole_checkpoint finalize
  uninitialized (inits construct) w e h = cc
  uninitialized (routes cwd original) w e h = cc
  uninitialized (finalizes drain) w e _ = rw e refl
  uninitialized (protects id ptr count base_size name) w e _ = absent_lem w _ e
  uninitialized (unprotects id name) w e _ = absent_lem w _ e
  uninitialized (clears name) w e _ = absent_lem w _ e
  uninitialized (begins name version) w e _ = absent_lem w _ e
  uninitialized (selects mode ids) w e _ = absent_lem w _ e
  uninitialized ends w e _ = absent_lem w _ e
  uninitialized waits w e _ = absent_lem w _ e
  uninitialized asks w e _ = absent_lem w _ e
  uninitialized (tests name version) w e _ = absent_lem w _ e
  uninitialized (cleans name) w e _ = absent_lem w _ e
  uninitialized (restart_begins name version) w e _ = absent_lem w _ e
  uninitialized (recovers mode ids) w e _ = absent_lem w _ e
  uninitialized (sizes id) w e _ = absent_lem w _ e
  uninitialized restart_ends w e _ = absent_lem w _ e
  uninitialized (restarts name version) w e _ = absent_lem w _ e
  uninitialized (checkpoints name version) w e _ = absent_lem w _ e

  abbrev Ended : Result F → Type 0
  Ended (returns (status, w)) = w.handle ≡ deleted
  Ended _ = Unit

  finalize_ends :
      (drain : Bool) (w : World F) (c : Client F)
      → w.handle ≡ alive c
      → Ended (finalize B cfg drain w)
  unfolding finalize wait call then_return
  finalize_ends true w c e = rw e refl
  finalize_ends false w c e = rw e refl

  pub deleted_undefined :
      (k : Call F) (w : World F)
      → w.handle ≡ deleted
      → is_init k ≡ false
      → run B cfg k w ≡ undefined
  unfolding run region_protect region_unprotect region_clear begin checkpoint_selective end wait
      is_finished test clean_up begin_restart recover_selective size end_restart whole_restart
      whole_checkpoint finalize route then_return
  deleted_undefined (inits construct) w e h = cc
  deleted_undefined (routes cwd original) w e _ = rw e refl
  deleted_undefined (finalizes drain) w e _ = rw e refl
  deleted_undefined (protects id ptr count base_size name) w e _ = deleted_lem w _ e
  deleted_undefined (unprotects id name) w e _ = deleted_lem w _ e
  deleted_undefined (clears name) w e _ = deleted_lem w _ e
  deleted_undefined (begins name version) w e _ = deleted_lem w _ e
  deleted_undefined (selects mode ids) w e _ = deleted_lem w _ e
  deleted_undefined ends w e _ = deleted_lem w _ e
  deleted_undefined waits w e _ = deleted_lem w _ e
  deleted_undefined asks w e _ = deleted_lem w _ e
  deleted_undefined (tests name version) w e _ = deleted_lem w _ e
  deleted_undefined (cleans name) w e _ = deleted_lem w _ e
  deleted_undefined (restart_begins name version) w e _ = deleted_lem w _ e
  deleted_undefined (recovers mode ids) w e _ = deleted_lem w _ e
  deleted_undefined (sizes id) w e _ = deleted_lem w _ e
  deleted_undefined restart_ends w e _ = deleted_lem w _ e
  deleted_undefined (restarts name version) w e _ = deleted_lem w _ e
  deleted_undefined (checkpoints name version) w e _ = deleted_lem w _ e

  init_again :
      (construct : F.State → Outcome (Client F × F.State)) (w : World F)
      → w.handle ≡ deleted
      → run B cfg (inits construct) w ≡ returns (success, w)
  unfolding run init get_client caught
  init_again construct w e = rw e refl

  -- Once a client has been finalized, another initialization returns VELOC_SUCCESS but makes no new
  -- client, and every other call uses the one that has been deleted, which is undefined.
  pub finalized :
      (drain : Bool) (w w' : World F) (c : Client F) (status : ℤ)
      (construct : F.State → Outcome (Client F × F.State))
      → w.handle ≡ alive c
      → run B cfg (finalizes drain) w ≡ returns (status, w')
      → (run B cfg (inits construct) w' ≡ returns (success, w'))
        × ((k : Call F) → is_init k ≡ false → run B cfg k w' ≡ undefined)
  unfolding run
  finalized drain w w' c status construct e done =
      let gone : w'.handle ≡ deleted = subst Ended done (finalize_ends drain w c e) in
      (init_again construct w' gone, λ k h. deleted_undefined k w' gone h)
