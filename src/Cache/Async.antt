-- ===== src/Cache/Async.antt =====
-- The queue of asynchronous operations: async_context_t, send_command, async_write, flush and
-- shutdown. Each function is what a thread does while it holds async_mutex; `none` is a thread that
-- goes on waiting for async_cond.
pub mod History
use veloc.Base.{
  ℕ, ◌+◌, ◌-◌, ◌%◌, ◌^◌, Bool, true, false, not, ◌&&◌, ◌||◌, Option, none, some, List, [], ◌∷◌,
  ◌++◌, ltb, if◌then◌else◌,
}
use veloc.Base.Int.{ℤ}
use veloc.Queue.{is_empty}

-- async_command_t
pub data Op : Type 0 where
  write close : ℤ → ℤ → ℕ → ℕ → Op

-- cmd.size, which is 0 for CLOSE
abbrev pub size : Op → ℕ
size (write fl fr offset n) = n
size (close fl fr offset n) = 0

-- async_context_t, with the command that async_write has taken and not completed. MAX_QUEUE_SIZE
-- is an argument of the functions that read it.
pub record Context : Type 0 where
  pub op_size : ℕ
  pub queue : List Op
  pub running : Option Op
  pub finished : Bool
  pub fail_status : Bool

abbrev pub initial : Context
initial = record { op_size = 0; queue = []; running = none; finished = false; fail_status = false }

unfoldable pub send_command : ℕ → Op → Context → Option Context
send_command max cmd s =
    if not s.finished && ltb max ((s.op_size + size cmd) % 2 ^ 64)
    then none
    else if s.finished
    then some s
    else some (record s { queue = s.queue ++ cmd ∷ []; op_size = (s.op_size + size cmd) % 2 ^ 64 })

-- The thread takes a command; `none` where it waits, has a command or has ended.
take_first : Context → Option Op → List Op → Option Context
take_first s none (cmd ∷ rest) = some (record s { queue = rest; running = some cmd })
take_first s none [] = none
take_first s (some cmd) queue = none

unfoldable pub take_command : Context → Option Context
unfolding take_first
take_command s = take_first s s.running s.queue

-- The thread has carried out its command; `result` is what file_transfer_loop returned.
unfoldable pub complete : Bool → Op → Context → Context
complete result (close fl fr offset n) s = record s { running = none }
complete result (write fl fr offset n) s = record s {
  running = none;
  fail_status = s.fail_status || result;
  op_size = s.op_size - n;
}

unfoldable pub flush : Context → Option (Bool × Context)
flush s =
    if is_empty s.queue then some (not s.fail_status, record s { fail_status = false }) else none

unfoldable pub shutdown : Context → Context
shutdown s = record s { finished = true }
