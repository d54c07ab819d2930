-- ===== src/CInterface.antt =====
-- The C interface of src/lib/veloc.cpp: the calls that go through the one pointer to a client, and the
-- two that set and delete it.
pub mod Calls
pub mod Lifetime
mod Tests
use veloc.Base.{
  ℕ, ◌%◌, ◌^◌, Bool, true, false, Option, none, some, List, [], ◌∷◌, ◌++◌, ◌==◌, if◌then◌else◌,
}
use veloc.Base.Int.{ℤ, pos, negsuc, ◌==ℤ◌}
use veloc.Base.Bytes.{Bytes}
use veloc.Base.IntMap.{insert}
use veloc.Header.Codec.{of_int_bits}
use veloc.Queue.{success, failure}
use veloc.FileSystem.{FileSystem}
use veloc.FileUtil.{Walk, returned, threw}
use veloc.Client.Memory.{Memory}
use veloc.Client.State.{
  Config, Client, Backend, Outcome, returns, throws, exits, undefined, default_mem_group,
  mem_protect, mem_unprotect, mem_clear,
}
use veloc.Client.Checkpoint.{
  Select, Ids, checkpoint_begin, checkpoint_mem, checkpoint_end, checkpoint_wait,
  checkpoint_finished, checkpoint, route_file,
}
use veloc.Client.Restart.{restart_test, restart_begin, recover_mem, recover_size, restart, cleanup}

-- veloc_client: NULL, a client, or the address of one that has been deleted.
pub data Handle (F : FileSystem) : Type 0 where
  absent : Handle F
  alive : Client F → Handle F
  deleted : Handle F

pub record World (F : FileSystem) : Type 0 where
  pub handle : Handle F
  pub memory : Memory
  pub files : F.State

abbrev pub Result : FileSystem → Type 0
Result F = Outcome (ℤ × World F)

abbrev pub status_of : Bool → ℤ
status_of true = success
status_of false = failure

-- The modes of the selective calls, of which every other number acts as the first.
abbrev pub select_of : ℤ → Select
select_of mode =
    if mode ==ℤ pos 1 then Select.only else if mode ==ℤ pos 2 then Select.rest else Select.all

-- The loop that makes a set of an array of ids.
unfoldable pub id_set : List ℤ → Ids → Ids
id_set [] ids = ids
id_set (id ∷ rest) ids = id_set rest (insert id tt ids)

unfoldable pub then_return : {A B : Type 0} → Outcome A → (A → B) → Outcome B
then_return (returns a) f = returns (f a)
then_return throws f = throws
then_return exits f = exits
then_return undefined f = undefined

module _ {F : FileSystem} where
  -- The macros BOOL_CALL, VOID_CALL and INT_CALL, around a call that is given the client.
  unfoldable pub call : World F → (Client F → Result F) → Result F
  call w f = elim w.handle [ absent ↦ returns (failure, w) | alive c ↦ f c | deleted ↦ undefined ]

  -- What a call leaves of the client, and of the files or the memory if it changes these.
  abbrev with_client : World F → Client F → World F
  with_client w c = record w { handle = alive c }

  abbrev keeps_files : World F → Bool × Client F × F.State → ℤ × World F
  keeps_files w (b, c, fs) = (status_of b, record w { handle = alive c; files = fs })

  abbrev keeps_memory : World F → Bool × Client F × Memory → ℤ × World F
  keeps_memory w (b, c, m) = (status_of b, record w { handle = alive c; memory = m })

  unfoldable pub region_protect : ℤ → ℕ → ℕ → ℕ → Bytes → World F → Result F
  unfolding call
  region_protect id ptr count base_size name w = call w λ c.
      let (b, c') = mem_protect id ptr count base_size name c in
      returns (status_of b, with_client w c')

  unfoldable pub region_unprotect : ℤ → Bytes → World F → Result F
  unfolding call
  region_unprotect id name w =
      call w λ c. let (b, c') = mem_unprotect id name c in returns (status_of b, with_client w c')

  unfoldable pub region_clear : Bytes → World F → Result F
  unfolding call
  region_clear name w = call w λ c. returns (success, with_client w (mem_clear name c))

module _ {F : FileSystem} (B : Backend F) (cfg : Config) where
  -- veloc::get_client, with what the constructor of the client comes to.
  unfoldable pub get_client : (F.State → Outcome (Client F × F.State)) → World F → Outcome (World F)
  unfolding then_return
  get_client construct w = elim w.handle [
    | absent ↦
        then_return (construct w.files)
          (λ (r : Client F × F.State). record w { handle = alive r.0; files = r.1 })
    | _ ↦ returns w
  ]

  caught : World F → Outcome (World F) → Result F
  caught w (returns w') = returns (success, w')
  caught w throws = returns (failure, w)
  caught w exits = exits
  caught w undefined = undefined

  -- VELOC_Init and VELOC_Init_single
  unfoldable pub init : (F.State → Outcome (Client F × F.State)) → World F → Result F
  unfolding caught get_client
  init construct w = caught w (get_client construct w)

  unfoldable pub begin : Bytes → ℤ → World F → Result F
  unfolding call then_return
  begin name version w = call w λ c.
      then_return (checkpoint_begin cfg name version c)
        (λ (r : Bool × Client F). (status_of r.0, with_client w r.1))

  unfoldable pub checkpoint_selective : ℤ → List ℤ → World F → Result F
  unfolding call then_return
  checkpoint_selective mode ids w = call w λ c.
      then_return (checkpoint_mem cfg (select_of mode) (id_set ids []) w.memory c w.files)
        (keeps_files w)

  unfoldable pub end : World F → Result F
  unfolding call
  end w = call w λ c. returns (keeps_files w (checkpoint_end B cfg c w.files))

  unfoldable pub wait : World F → Result F
  unfolding call
  wait w = call w λ c.
      let (b, fs) = checkpoint_wait B cfg c w.files in
      returns (status_of b, record w { files = fs })

  unfoldable pub is_finished : World F → Result F
  unfolding call
  is_finished w = call w λ c. returns (status_of (checkpoint_finished B cfg c w.files), w)

  unfoldable pub test : Bytes → ℤ → World F → Result F
  unfolding call then_return
  test name version w = call w λ c.
      then_return (restart_test B cfg name version (negsuc 0) w.files)
        (λ (r : ℤ × F.State). (r.0, record w { files = r.1 }))

  -- routed[0] != 0, where a zero is put behind the path
  abbrev first_is_set : Bytes → Bool
  first_is_set [] = false
  first_is_set (b ∷ bs) = if b == 0 then false else true

  -- VELOC_Route_file does not look at the pointer. The path, and the result.
  unfoldable pub route : Option Bytes → Bytes → World F → Outcome (Bytes × ℤ × World F)
  unfolding then_return
  route cwd original w = elim w.handle [
    | alive c ↦
        then_return (route_file cfg cwd original c)
          (λ (r : Bytes × Client F). (r.0, status_of (first_is_set r.0), with_client w r.1))
    | _ ↦ undefined
  ]

  cleaned : World F → Walk F.State → Result F
  cleaned w (returned b fs) = returns (status_of b, record w { files = fs })
  cleaned w (threw fs) = throws

  unfoldable pub clean_up : Bytes → World F → Result F
  unfolding call cleaned
  clean_up name w = call w λ c. cleaned w (cleanup F cfg name w.files)

  unfoldable pub begin_restart : Bytes → ℤ → World F → Result F
  unfolding call then_return
  begin_restart name version w =
      call w
        λ c. then_return (restart_begin B cfg name version (negsuc 0) c w.files) (keeps_files w)

  unfoldable pub recover_selective : ℤ → List ℤ → World F → Result F
  unfolding call then_return
  recover_selective mode ids w = call w λ c.
      then_return (recover_mem cfg (select_of mode) (id_set ids []) w.memory c w.files)
        (keeps_memory w)

  -- The size_t of the client becomes an int.
  unfoldable pub size : ℤ → World F → Result F
  unfolding call
  size id w = call w λ c.
      let (n, c') = recover_size cfg id c w.files in
      returns (of_int_bits (n % 2 ^ 32), with_client w c')

  -- restart_end of the client returns true.
  unfoldable pub end_restart : World F → Result F
  unfolding call
  end_restart w = call w λ c. returns (success, w)

  unfoldable pub whole_restart : Bytes → ℤ → World F → Result F
  unfolding call then_return
  whole_restart name version w = call w λ c.
      then_return (restart B cfg name version (negsuc 0) w.memory c w.files)
        (λ (r : Bool × Client F × Memory × F.State).
          (status_of r.0, record { handle = alive r.1; memory = r.2; files = r.3 }))

  unfoldable pub whole_checkpoint : Bytes → ℤ → World F → Result F
  unfolding call then_return
  whole_checkpoint name version w =
      call w λ c. then_return (checkpoint B cfg name version w.memory c w.files) (keeps_files w)

  -- The client's destructor only waits for the others and frees what MPI gave.
  abbrev delete_client : World F → World F
  delete_client w = record w { handle = deleted }

  unfoldable pub finalize : Bool → World F → Result F
  unfolding wait then_return
  finalize drain w = elim w.handle [
    | absent ↦ returns (failure, w)
    | alive c ↦
        if drain
        then then_return (wait w) (λ (r : ℤ × World F). (r.0, delete_client r.1))
        else returns (success, delete_client w)
    | deleted ↦ undefined
  ]
