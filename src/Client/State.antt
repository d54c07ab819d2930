-- ===== src/Client/State.antt =====
-- The state of client_impl_t, the regions that it protects, and the calls that only change these.
use veloc.Base.{ℕ, ◌*◌, ◌%◌, ◌^◌, Bool, true, false, Option, none, some, List, [], if◌then◌else◌}
use veloc.Base.Int.{ℤ, pos, ltb_ℤ}
use veloc.Base.Bytes.{Bytes, bytes_eq, codes}
use veloc.Base.IntMap.{IntMap, find, assign, erase}
use veloc.Command.{Command}
use veloc.Queue.{is_empty}
use veloc.FileSystem.{FileSystem}
use veloc.Client.Memory.{Memory}

-- serializer_t and deserializer_t are functions of the application. A serializer gives the bytes that
-- it writes to the stream; a deserializer takes what is left of the stream and gives what it leaves
-- of it, or `none` where it returns false or the stream raises its exception.
abbrev pub Serializer : Type 0
Serializer = Memory → Bytes

abbrev pub Deserializer : Type 0
Deserializer = Memory → Bytes → Option Bytes × Memory

-- region_t. A pointer of 0 is NULL: its region has no functions, and calling them raises
-- std::bad_function_call.
pub data Region : Type 0 where
  raw : ℕ → ℕ → Region
  object : Serializer → Deserializer → Region

-- regions_t
abbrev pub Regions : Type 0
Regions = IntMap Region

-- regions_map_t, in which a group that is missing is empty.
abbrev pub RegionsMap : Type 0
RegionsMap = Bytes → Regions

abbrev pub set_group : Bytes → Regions → RegionsMap → RegionsMap
set_group name r groups n = if bytes_eq n name then r else groups n

abbrev pub default_mem_group : Bytes
default_mem_group = codes "default"

-- What the calls of MPI on the communicator of the application return to this rank:
-- MPI_Allreduce by MPI_MAX and by MPI_LOR, MPI_Exscan by MPI_SUM, which leaves the first rank's
-- offset as it is, and MPI_Gather on rank 0.
pub record Comm : Type 0 where
  pub allreduce_max : ℤ → ℤ
  pub allreduce_lor : ℤ → ℤ
  pub exscan : ℤ → ℤ → ℤ
  pub gather : ℤ → List ℤ
  pub no_ranks : ℕ

-- A client of one process, or one of many with the value of `aggregated`.
pub data Mode : Type 0 where
  single : Mode
  parallel : Comm → Bool → Mode

pub record Config : Type 0 where
  pub mode : Mode
  pub is_sync : Bool
  pub scratch : Bytes
  pub meta : Bytes
  pub rank : ℤ

-- observer_t, a function of the application.
abbrev pub Observer : FileSystem → Type 0
Observer F = Bytes → ℤ → F.State → F.State

pub record Client (F : FileSystem) : Type 0 where
  pub mem_regions : RegionsMap
  pub observers : IntMap (Observer F)
  pub current_ckpt : Command
  pub checkpoint_in_progress : Bool
  pub region_info : IntMap ℕ
  pub header_size : ℕ

-- comm_client_t and the backend behind it, over the same files: enqueue, wait_completion, which
-- returns when the backend has finished, and check_completion.
pub record Backend (F : FileSystem) : Type 0 where
  pub enqueue : Command → F.State → F.State
  pub wait_completion : F.State → ℤ × F.State
  pub check_completion : F.State → Bool

-- What a call comes to: a result, the exception that calling an empty function raises, the exit of
-- FATAL, or undefined behaviour.
pub data Outcome (A : Type 0) : Type 0 where
  returns : A → Outcome A
  throws : Outcome A
  exits : Outcome A
  undefined : Outcome A

-- insert_or_assign(...).second and erase(...) > 0
abbrev pub is_new {ℓ} : {A : Type ℓ} → Option A → Bool
is_new none = true
is_new (some a) = false

abbrev pub is_found {ℓ} : {A : Type ℓ} → Option A → Bool
is_found none = false
is_found (some a) = true

module _ {F : FileSystem} where
  register : ℤ → Region → Bytes → Client F → Bool × Client F
  register id r name c = (
    is_new (find id (c.mem_regions name)),
    record c { mem_regions = set_group name (assign id r (c.mem_regions name)) c.mem_regions },
  )

  unfoldable pub mem_protect : ℤ → ℕ → ℕ → ℕ → Bytes → Client F → Bool × Client F
  unfolding register
  mem_protect id ptr count base_size name c =
      register id (raw ptr (count * base_size % 2 ^ 64)) name c

  unfoldable pub mem_protect_object :
      ℤ → Serializer → Deserializer → Bytes → Client F → Bool × Client F
  unfolding register
  mem_protect_object id s d name c = register id (object s d) name c

  unfoldable pub mem_unprotect : ℤ → Bytes → Client F → Bool × Client F
  mem_unprotect id name c = (
    is_found (find id (c.mem_regions name)),
    record c { mem_regions = set_group name (erase id (c.mem_regions name)) c.mem_regions },
  )

  unfoldable pub mem_clear : Bytes → Client F → Client F
  mem_clear name c = record c { mem_regions = set_group name [] c.mem_regions }

  unfoldable pub register_observer : ℤ → Observer F → Client F → Bool × Client F
  register_observer type obs c =
      (is_new (find type c.observers), record c { observers = assign type obs c.observers })

  -- get_current_ckpt_regions, which returns a reference to the group that it leaves.
  unfoldable pub get_current_ckpt_regions : Client F → Regions × Client F
  get_current_ckpt_regions c =
      let own = c.mem_regions c.current_ckpt.name in
      let regions = if is_empty own then c.mem_regions default_mem_group else own in
      (regions, record c { mem_regions = set_group c.current_ckpt.name regions c.mem_regions })

unfoldable pub check_rank : Config → ℤ → ℤ
check_rank cfg target_rank = if ltb_ℤ target_rank (pos 0) then cfg.rank else target_rank
