-- ===== src/Cache/Tests.antt =====
-- A write and a flush, a file that is half open, and a short read, and the theorems at these.
use veloc.Base.{◌≡◌, refl, true, false, not, none, some, [], ◌∷◌, arith}
use veloc.Base.Int.{pos, ◌==ℤ◌}
use veloc.Client.Memory.{Memory}
use veloc.Cache.Async.{Op, write, Context, initial, send_command, take_command, complete, flush}
use veloc.Cache.Async.History.{Run, begin, step, sends, takes, completes, any, flush_verdict}
use veloc.Cache.File.{closed, open_file, opens, closes, after, write_loop, never_opens_again}

abbrev write_100 : Op
write_100 = write (pos 3) (pos 4) 0 100

abbrev sent : Context
sent = record initial { op_size = 100; queue = write_100 ∷ [] }

sent-Run : Run 1000 [] sent
unfolding send_command
sent-Run = step begin (sends write_100 (omega arith) refl)

abbrev done : Context
done = record initial { fail_status = true }

-- The write succeeds.
done-Run : Run 1000 (true ∷ []) done
unfolding take_command complete
done-Run = step (step sent-Run (takes refl)) (completes true write_100 refl)

-- flush reports a failure.
flush_verdict_example : false ≡ not (any (true ∷ []))
unfolding flush
flush_verdict_example = flush_verdict 1000 (true ∷ []) done initial false done-Run refl

-- A write that is larger than the queue waits in an empty queue.
too_large : send_command 1000 (write (pos 3) (pos 4) 0 1001) initial ≡ none
unfolding send_command
too_large = refl

local_write : write_loop (pos 60 ∷ pos 40 ∷ []) 100 ≡ some true
unfolding write_loop ◌==ℤ◌
local_write = refl

never_opens_again_example :
    (open_file (pos 5) (pos 6) (
      after
        (closes 1000 initial ∷ opens (pos 7) (pos 8) ∷ [])
        (open_file (pos 3) closed (record { fl = closed; fr = closed })).1)).0
    ≡ false
unfolding ◌==ℤ◌
never_opens_again_example =
    never_opens_again (pos 3) (closes 1000 initial ∷ opens (pos 7) (pos 8) ∷ []) (pos 5) (pos 6)
      refl

abbrev content : Memory
content a = a
