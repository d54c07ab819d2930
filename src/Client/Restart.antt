-- ===== src/Client/Restart.antt =====
-- The restart phase: restart_test, restart_begin, recover_size, recover_mem and restart_end, and the
-- calls that put whole phases together.
use veloc.Base.{
  ℕ, Bool, true, false, not, ◌||◌, Option, none, some, [], ◌∷◌, ◌==◌, ltb, leb, if◌then◌else◌,
  length, take, drop,
}
use veloc.Base.Int.{ℤ, pos, ◌==ℤ◌, ltb_ℤ}
use veloc.Base.Bytes.{Bytes}
use veloc.Base.IntMap.{IntMap, find}
use veloc.Command
use veloc.Command.{Command, Opcode, filename}
use veloc.Command.Name.{validate_name}
use veloc.Header.{read_header, Header}
use veloc.Queue.{success, failure}
use veloc.FileSystem.{FileSystem}
use veloc.FileUtil.{Walk, returned, threw, parse_dir}
use veloc.Client.Memory.{Memory, write_mem}
use veloc.Client.State.{
  Region, raw, object, Regions, Mode, single, parallel, Config, Client, Backend, Outcome, returns,
  throws, exits, undefined, get_current_ckpt_regions, is_found, check_rank,
}
use veloc.Client.Checkpoint.{Select, Ids}

-- Whether the loop of recover_mem takes up a region.
unfoldable pub wanted : Select → Ids → ℤ → Bool
wanted Select.all ids id = true
wanted Select.only ids id = is_found (find id ids)
wanted Select.rest ids id = not (is_found (find id ids))

-- What one region does: the loop goes on with the rest of the file, recover_mem returns false, or
-- the exception of an empty function leaves it.
pub data Progress : Type 0 where
  going : Bytes → Memory → Progress
  stopped : Memory → Progress
  escaped : Progress

-- f.read into memory: at the end of the file it raises its exception with what there was read.
unfoldable pub read_raw : ℕ → ℕ → Bytes → Memory → Progress
read_raw ptr size file m =
    if leb size (length file)
    then going (drop size file) (write_mem ptr (take size file) m)
    else stopped (write_mem ptr file m)

read_object : Option Bytes × Memory → Progress
read_object (none, m) = stopped m
read_object (some rest, m) = going rest m

unfoldable pub recover_region : Option Region → ℕ → Bytes → Memory → Progress
unfolding read_raw read_object
recover_region none size file m = stopped m
recover_region (some (raw ptr room)) size file m =
    if ptr == 0 then escaped else if ltb room size then stopped m else read_raw ptr size file m
recover_region (some (object s d)) size file m = read_object (d m file)

-- The loop over region_info.
unfoldable pub recover_regions : Select → Ids → Regions → IntMap ℕ → Bytes → Memory → Progress
unfolding recover_region
recover_regions mode ids regions [] file m = going file m
recover_regions mode ids regions ((id, size) ∷ info) file m = elim (wanted mode ids id) [
  | false ↦ recover_regions mode ids regions info (drop size file) m
  | true ↦ elim (recover_region (find id regions) size file m) [
    | stopped m' ↦ stopped m'
    | escaped ↦ escaped
    | going file' m' ↦ recover_regions mode ids regions info file' m'
  ]
]

size_of : Option ℕ → ℕ
size_of none = 0
size_of (some size) = size

module _ {F : FileSystem} (cfg : Config) where
  unfoldable pub with_header : Client F → Header → Bool × Client F
  with_header c h = (not (h.size == 0), record c { region_info = h.info; header_size = h.size })

  unfoldable pub read_current_header : Client F → F.State → Bool × Client F
  unfolding with_header
  read_current_header c fs =
      with_header c (read_header (F.contents fs (filename c.current_ckpt cfg.scratch)))

  -- `header_size == 0` makes a call read the header; its result is that of the read.
  unfoldable pub ensure_header : Client F → F.State → Bool × Client F
  ensure_header c fs = if c.header_size == 0 then read_current_header c fs else (true, c)

  unfoldable pub recover_size : ℤ → Client F → F.State → ℕ × Client F
  unfolding size_of
  recover_size id c fs = let (_, c') = ensure_header c fs in (size_of (find id c'.region_info), c')

  unfoldable pub ending : Client F → Progress → Outcome (Bool × Client F × Memory)
  ending c (going file m) = returns (true, c, m)
  ending c (stopped m) = returns (false, c, m)
  ending c escaped = throws

  unfoldable pub read_regions_of :
      Select → Ids → Memory → Regions → Client F → Option Bytes → Outcome (Bool × Client F × Memory)
  unfolding ending
  read_regions_of mode ids m regions c none = returns (false, c, m)
  read_regions_of mode ids m regions c (some file) =
      ending c (recover_regions mode ids regions c.region_info (drop c.header_size file) m)

  unfoldable pub recover_with :
      Select → Ids → Memory → Bool × Client F → F.State → Outcome (Bool × Client F × Memory)
  unfolding read_regions_of
  recover_with mode ids m (false, c) fs = returns (false, c, m)
  recover_with mode ids m (true, c) fs =
      let (regions, c') = get_current_ckpt_regions c in
      read_regions_of mode ids m regions c' (F.contents fs (filename c'.current_ckpt cfg.scratch))

  unfoldable pub recover_mem :
      Select → Ids → Memory → Client F → F.State → Outcome (Bool × Client F × Memory)
  unfolding recover_with
  recover_mem mode ids m c fs = recover_with mode ids m (ensure_header c fs) fs

-- parse_dir over the scratch directory; a file name that does not parse ends it by an exception.
unfoldable pub cleanup : (F : FileSystem) → Config → Bytes → F.State → Walk F.State
cleanup F cfg name fs =
    elim (parse_dir F fs cfg.scratch name (λ f _ _ fs'. (F.unlink fs' f).1) fs) [
      | returned _ fs' ↦ returned true fs'
      | threw fs' ↦ threw fs'
    ]

module _ {F : FileSystem} (B : Backend F) (cfg : Config) where
  unfoldable pub run_blocking : Command → F.State → ℤ × F.State
  run_blocking cmd fs = B.wait_completion (B.enqueue cmd fs)

  latest_of_all : Mode → ℤ → ℤ → ℤ
  latest_of_all single target_rank version = version
  latest_of_all (parallel comm aggregated) target_rank version =
      if ltb_ℤ target_rank (pos 0) then comm.allreduce_max version else version

  test_with : ℤ → F.State → Option Command → Outcome (ℤ × F.State)
  unfolding latest_of_all
  test_with target_rank fs none = exits
  test_with target_rank fs (some cmd) =
      let (version, fs') = run_blocking cmd fs in
      returns (latest_of_all cfg.mode target_rank version, fs')

  unfoldable pub restart_test : Bytes → ℤ → ℤ → F.State → Outcome (ℤ × F.State)
  unfolding test_with
  restart_test name needed_version target_rank fs =
      if not (validate_name name) || ltb_ℤ needed_version (pos 0)
      then returns (failure, fs)
      else test_with target_rank fs
          (Command.make (check_rank cfg target_rank) Opcode.test needed_version name)

  agreed : Mode → ℤ → ℤ
  agreed single result = result
  agreed (parallel comm aggregated) result = comm.allreduce_lor result

  unfoldable pub begin_again :
      Client F → F.State → Option Command → Outcome (Bool × Client F × F.State)
  unfolding agreed
  begin_again c fs none = exits
  begin_again c fs (some cmd) =
      let (result, fs') = run_blocking cmd fs in
      let c' = record c { current_ckpt = cmd } in
      returns (
        if agreed cfg.mode result ==ℤ success
        then (true, record c' { header_size = 0 }, fs')
        else (false, c', fs'))

  unfoldable pub restart_begin :
      Bytes → ℤ → ℤ → Client F → F.State → Outcome (Bool × Client F × F.State)
  unfolding begin_again
  restart_begin name version target_rank c fs =
      if c.checkpoint_in_progress
      then returns (false, c, fs)
      else if not (validate_name name) || ltb_ℤ version (pos 0)
      then returns (false, c, fs)
      else begin_again c fs (Command.make (check_rank cfg target_rank) Opcode.restart version name)

  -- restart_end(true) returns true.
  restart_end :
      Client F
      → F.State
      → Outcome (Bool × Client F × Memory)
      → Outcome (Bool × Client F × Memory × F.State)
  restart_end c fs (returns (b, c', m)) = returns (b, c', m, fs)
  restart_end c fs throws = throws
  restart_end c fs exits = exits
  restart_end c fs undefined = undefined

  recover_begun :
      Memory → Outcome (Bool × Client F × F.State) → Outcome (Bool × Client F × Memory × F.State)
  unfolding restart_end
  recover_begun m (returns (true, c, fs)) = restart_end c fs (recover_mem cfg Select.all [] m c fs)
  recover_begun m (returns (false, c, fs)) = returns (false, c, m, fs)
  recover_begun m throws = throws
  recover_begun m exits = exits
  recover_begun m undefined = undefined

  unfoldable pub restart :
      Bytes → ℤ → ℤ → Memory → Client F → F.State → Outcome (Bool × Client F × Memory × F.State)
  unfolding recover_begun
  restart name version target_rank m c fs =
      recover_begun m (restart_begin name version target_rank c fs)
