-- ===== src/Client/Checkpoint.antt =====
-- The checkpoint phase: checkpoint_begin, checkpoint_mem and checkpoint_end, and the calls that
-- wait for it.
use veloc.Base.{
  ℕ, ◌+◌, ◌-◌, ◌%◌, ◌^◌, Bool, true, false, not, ◌||◌, Option, none, some, List, [], ◌∷◌, ◌++◌,
  ◌==◌, if◌then◌else◌, length,
}
use veloc.Base.Int.{ℤ, pos, ◌==ℤ◌, ltb_ℤ, pos_part, neg_part}
use veloc.Base.Bytes.{Bytes, codes}
use veloc.Base.IntMap.{IntMap, find, erase}
use veloc.Command.{Command, Opcode, filename, agg_filename}
use veloc.Command
use veloc.Command.Name.{validate_name}
use veloc.Header.{write_header, ◌>>=◌}
use veloc.Header.Codec.{le_bytes}
use veloc.Queue.{success}
use veloc.FileSystem.{FileSystem}
use veloc.FileUtil.{file_size, write_file}
use veloc.Storage.{VersionSet}
use veloc.Client.Memory.{Memory, read_mem}
use veloc.Client.State.{
  Region, raw, object, Regions, Comm, Mode, single, parallel, Config, Client, Backend, Outcome,
  returns, throws, exits, undefined, get_current_ckpt_regions, is_found,
}

-- A set of region ids, std::set<int>, and how it selects: VELOC_CKPT_ALL, VELOC_CKPT_SOME and
-- VELOC_CKPT_REST, which have the values of VELOC_RECOVER_ALL, VELOC_RECOVER_SOME and
-- VELOC_RECOVER_REST. Every other mode acts as the first.
abbrev pub Ids : Type 0
Ids = VersionSet

pub data Select : Type 0 where
  all only rest : Select

-- The loop of VELOC_CKPT_SOME erases the element of its iterator and then moves on from it, which
-- is undefined: it is defined only as long as there is nothing to erase.
unfoldable pub select_some : Ids → Regions → Option Regions
select_some ids [] = some []
select_some ids ((id, r) ∷ rs) = elim (is_found (find id ids)) [
  | false ↦ none
  | true ↦ elim (select_some ids rs) [ none ↦ none | some kept ↦ some ((id, r) ∷ kept) ]
]

-- The loop of VELOC_CKPT_REST.
unfoldable pub erase_all : Ids → Regions → Regions
erase_all [] rs = rs
erase_all ((id, _) ∷ ids) rs = erase_all ids (erase id rs)

unfoldable pub selected : Select → Ids → Regions → Option Regions
unfolding select_some erase_all
selected Select.all ids rs = some rs
selected Select.only ids rs = select_some ids rs
selected Select.rest ids rs = some (erase_all ids rs)

-- What is written for a region; `none` is the call of an empty function.
unfoldable pub region_bytes : Memory → Region → Option Bytes
region_bytes m (raw ptr size) = if ptr == 0 then none else some (read_mem m ptr size)
region_bytes m (object s d) = some (s m)

-- The loop over the regions: their sizes, and the bytes in their order.
unfoldable pub write_data : Memory → Regions → Option (IntMap ℕ × Bytes)
write_data m [] = some ([], [])
write_data m ((id, r) ∷ rs) = do
  b ← region_bytes m r
  (sizes, bytes) ← write_data m rs
  some ((id, length b) ∷ sizes, b ++ bytes)

-- A long, and its conversion to a size_t.
abbrev pub to_size : ℤ → ℕ
to_size a = (pos_part a + 2 ^ 64 - neg_part a) % 2 ^ 64

abbrev pub longs : List ℤ → Bytes
longs [] = []
longs (a ∷ as') = le_bytes 8 (to_size a) ++ longs as'

module _ {F : FileSystem} (cfg : Config) where
  -- The file; an empty function is called only after the file could be opened.
  unfoldable pub write_checkpoint :
      Client F → F.State → Option (IntMap ℕ × Bytes) → Outcome (Bool × Client F × F.State)
  write_checkpoint c fs none =
      let (opened, fs') = F.stream_out fs (filename c.current_ckpt cfg.scratch) [] in
      if opened then throws else returns (false, c, fs')
  write_checkpoint c fs (some (sizes, bytes)) =
      let (written, fs') =
        F.stream_out fs (filename c.current_ckpt cfg.scratch) (write_header sizes ++ bytes) in
      returns (written, c, fs')

  unfoldable pub write_selected :
      Memory → Client F → F.State → Option Regions → Outcome (Bool × Client F × F.State)
  unfolding write_checkpoint
  write_selected m c fs none = undefined
  write_selected m c fs (some []) = returns (false, c, fs)
  write_selected m c fs (some (r ∷ rs)) = write_checkpoint c fs (write_data m (r ∷ rs))

  unfoldable pub checkpoint_mem :
      Select → Ids → Memory → Client F → F.State → Outcome (Bool × Client F × F.State)
  unfolding write_selected
  checkpoint_mem mode ids m c fs =
      if c.checkpoint_in_progress
      then (let (regions, c') = get_current_ckpt_regions c in
          write_selected m c' fs (selected mode ids regions))
      else returns (false, c, fs)

  unfoldable pub begin_with : Client F → Option Command → Outcome (Bool × Client F)
  begin_with c none = exits
  begin_with c (some cmd) =
      returns (true, record c { current_ckpt = cmd; checkpoint_in_progress = true })

  unfoldable pub checkpoint_begin : Bytes → ℤ → Client F → Outcome (Bool × Client F)
  unfolding begin_with
  checkpoint_begin name version c =
      if c.checkpoint_in_progress
      then returns (false, c)
      else if not (validate_name name) || ltb_ℤ version (pos 0)
      then returns (false, c)
      else begin_with c (Command.make cfg.rank Opcode.checkpoint version name)

  -- What checkpoint_end does for `aggregated`: `false` is its early return.
  unfoldable pub share_offsets : Comm → Client F → F.State → Bool × Client F × F.State
  share_offsets comm c fs =
      let offset = comm.exscan (pos 0) (file_size F fs (filename c.current_ckpt cfg.scratch)) in
      let c' = record c { current_ckpt = record c.current_ckpt { offset = to_size offset } } in
      if cfg.rank ==ℤ pos 0
      then (let (done, fs') =
            write_file F fs (agg_filename c.current_ckpt cfg.meta)
              (longs (pos comm.no_ranks ∷ comm.gather offset)) in
          if done then (true, c', fs') else (false, c, fs'))
      else (true, c', fs)

  unfoldable pub aggregate : Mode → Client F → F.State → Bool × Client F × F.State
  unfolding share_offsets
  aggregate single c fs = (true, c, fs)
  aggregate (parallel comm false) c fs = (true, c, fs)
  aggregate (parallel comm true) c fs = share_offsets comm c fs

module _ {F : FileSystem} (B : Backend F) (cfg : Config) where
  -- it->second(current_ckpt.name, current_ckpt.version)
  observe : Client F → F.State → F.State
  observe c fs = elim (find (pos 0) c.observers) [
    | none ↦ fs
    | some obs ↦ obs c.current_ckpt.name c.current_ckpt.version fs
  ]

  unfoldable pub send_checkpoint : Client F → F.State → Bool × Client F × F.State
  unfolding observe
  send_checkpoint c fs =
      let c' = record c { checkpoint_in_progress = false } in
      let fs' = observe c (B.enqueue c.current_ckpt fs) in
      if cfg.is_sync
      then ((B.wait_completion fs').0 ==ℤ success, c', (B.wait_completion fs').1)
      else (true, c', fs')

  -- The argument of checkpoint_end is not used.
  unfoldable pub checkpoint_end : Client F → F.State → Bool × Client F × F.State
  unfolding aggregate send_checkpoint
  checkpoint_end c fs =
      let (shared, c', fs') = aggregate cfg cfg.mode c fs in
      if shared then send_checkpoint c' fs' else (false, c', fs')

  unfoldable pub checkpoint_wait : Client F → F.State → Bool × F.State
  checkpoint_wait c fs =
      if c.checkpoint_in_progress
      then (false, fs)
      else ((B.wait_completion fs).0 ==ℤ success, (B.wait_completion fs).1)

  unfoldable pub checkpoint_finished : Client F → F.State → Bool
  checkpoint_finished c fs =
      if cfg.is_sync
      then true
      else if c.checkpoint_in_progress
      then false
      else B.check_completion fs

  -- a && b, where `b` is called on the state that `a` leaves.
  unfoldable pub and_then :
      Outcome (Bool × Client F × F.State)
      → (Client F → F.State → Outcome (Bool × Client F × F.State))
      → Outcome (Bool × Client F × F.State)
  and_then (returns (true, c, fs)) next = next c fs
  and_then (returns (false, c, fs)) next = returns (false, c, fs)
  and_then throws next = throws
  and_then exits next = exits
  and_then undefined next = undefined

  unfoldable pub with_files :
      F.State → Outcome (Bool × Client F) → Outcome (Bool × Client F × F.State)
  with_files fs (returns (b, c)) = returns (b, c, fs)
  with_files fs throws = throws
  with_files fs exits = exits
  with_files fs undefined = undefined

  -- The wait, the three calls of the phase, with the memory as it is during the call.
  unfoldable pub checkpoint :
      Bytes → ℤ → Memory → Client F → F.State → Outcome (Bool × Client F × F.State)
  unfolding and_then with_files
  checkpoint name version m c fs =
      let (waited, fs') = checkpoint_wait c fs in
      and_then (returns (waited, c, fs')) λ c fs.
        and_then (with_files fs (checkpoint_begin cfg name version c)) λ c fs.
          and_then (checkpoint_mem cfg Select.all [] m c fs) λ c fs. returns (checkpoint_end c fs)

-- original[0] == '/', where the first character of an empty string is 0.
abbrev is_absolute : Bytes → Bool
is_absolute [] = false
is_absolute (b ∷ bs) = b == b'/'

-- The path that route_file records; `none` is a getcwd that fails.
abbrev pub absolute_path : Option Bytes → Bytes → Bytes
absolute_path none original = original
absolute_path (some cwd) original =
    if is_absolute original then original else cwd ++ (codes "/" ++ original)

module _ {F : FileSystem} (cfg : Config) where
  unfoldable pub routed : Client F → Option Command → Outcome (Bytes × Client F)
  routed c none = exits
  routed c (some cmd) = returns (filename cmd cfg.scratch, record c { current_ckpt = cmd })

  unfoldable pub route_file : Option Bytes → Bytes → Client F → Outcome (Bytes × Client F)
  unfolding routed
  route_file cwd original c =
      routed c (Command.assign_path c.current_ckpt (absolute_path cwd original))
