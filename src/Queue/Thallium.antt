-- ===== src/Queue/Thallium.antt =====
-- thallium_queue of src/common/thallium_queue.hpp: the queue over remote procedure calls. The
-- backend keeps the lists; a client that waits asks for what is left to do until nothing is. The
-- engine that carries the calls is not part of the repository: a call is a function of the table.
pub mod Refines
pub mod Lost
mod Tests
use veloc.Base.{
  ℕ, ◌+◌, ◌%◌, ◌^◌, Bool, true, false, not, Option, none, some, List, [], ◌∷◌, ◌++◌, ◌==◌,
  if◌then◌else◌, length,
}
use veloc.Base.Int.{ℤ, pos, negsuc, pos_part, ◌==ℤ◌}
use veloc.Base.Bytes.{Bytes}
use veloc.Command.{Command}
use veloc.FileSystem.{FileSystem}
use veloc.FileUtil.{file_size, read_file, write_file}
use veloc.Queue.{Container, success, push, start, finish}
use veloc.Queue.Clients.{Clients, get, put, find_non_empty_pending}
use veloc.Queue.Ipc.{Dequeued, take_from}

module _ (F : FileSystem) (channel : Bytes) where
  unfoldable pub backend_cleanup : F.State → F.State
  backend_cleanup fs = (F.unlink fs channel).1

  -- start_engine: the address of the engine goes to the channel; `none` is the FATAL exit.
  unfoldable pub start_engine : Bytes → F.State → Option F.State
  start_engine url fs =
      let (done, fs') = write_file F fs channel url in if done then some fs' else none

-- A char array as a string: it ends before the first zero.
unfoldable pub c_string : Bytes → Bytes
c_string [] = []
c_string (b ∷ bs) = let rest = c_string bs in if b == 0 then [] else b ∷ rest

module _ (F : FileSystem) (channel : Bytes) where
  -- The constructor of comm_client_t, up to the address that it looks up. No zero is put behind the
  -- bytes of the file, so that the string goes on with the memory that lies there, `behind`.
  unfoldable pub connect : Bytes → F.State → Option Bytes
  connect behind fs =
      let csize = file_size F fs channel in
      if csize ==ℤ negsuc 0 then none else elim (read_file F fs channel (pos_part csize)) [
        | none ↦ none
        | some buff ↦ some (c_string (buff ++ behind))
      ]

unfoldable pub enqueue : Command → Clients → Clients
enqueue e s = put e.unique_id (push e (get e.unique_id s)) s

-- pending.size() + progress.size(), which becomes an int
unfoldable pub size : Container → ℕ
size c = (length c.pending + length c.progress) % 2 ^ 32

abbrev pub reset_if : Bool → ℤ → Clients → Clients
reset_if reset id s =
    if reset then put id (record (get id s) { status = success }) s else put id (get id s) s

-- poll_rpc: the reply, which is what is left to do and the status, and the table.
unfoldable pub poll : ℤ → Bool → Clients → (ℕ × ℤ) × Clients
unfolding size
poll id reset s = ((size (get id s), (get id s).status), reset_if reset id s)

-- wait_completion: polls until nothing is left to do; `sleeps` are what the others make of the
-- table while the client sleeps, and `none` is a client that sleeps for longer.
unfoldable pub wait_completion :
    ℤ → Bool → List (Clients → Clients) → Clients → Option (ℤ × Clients)
unfolding poll
wait_completion id reset [] s =
    let ((left, status), s') = poll id reset s in if left == 0 then some (status, s') else none
wait_completion id reset (sleep ∷ sleeps) s =
    let ((left, status), s') = poll id reset s in
    let rest = wait_completion id reset sleeps (sleep s') in
    if left == 0 then some (status, s') else rest

-- check_completion is not implemented.
abbrev pub check_completion : Bool
check_completion = false

unfoldable pub dequeue_any : Clients → Option Dequeued
unfolding take_from
dequeue_any s = elim (find_non_empty_pending s) [
  | none ↦ none
  | some id ↦ take_from id s (start (get id s))
]

unfoldable pub set_completion : ℤ → ℕ → ℤ → Clients → Clients
set_completion id ticket status s = put id (finish ticket status (get id s)) s
