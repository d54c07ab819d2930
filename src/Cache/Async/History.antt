-- ===== src/Cache/Async/History.antt =====
-- Runs of the cache's queue as sequences of steps: what is in flight is bounded, and what flush
-- tells of the writes.
use veloc.Base.{
  ℕ, ◌+◌, ◌%◌, ◌^◌, ◌≤◌, ◌<◌, ◌≡◌, refl, ap, sym, subst, if-elim, ◌∙◌, Bool, false, not, ◌&&◌, ◌||◌,
  Option, none, some, List, [], ◌∷◌, ◌++◌, arith, ltb,
}
use veloc.Queue.{is_empty}
use veloc.Cache.Async.{
  Op, write, close, size, Context, initial, send_command, take_command, take_first, complete, flush,
  shutdown,
}

-- The results of the writes since the last flush, the latest first.
abbrev pub Results : Type 0
Results = List Bool

abbrev pub result_of : Op → Bool → Results → Results
result_of (write fl fr offset n) r rs = r ∷ rs
result_of (close fl fr offset n) r rs = rs

-- Buffers are so small that the sum of two of them and the limit is a size_t.
module _ (max : ℕ) where
  pub data Step : Results → Context → Results → Context → Type 0 where
    sends :
        {rs : Results} {s t : Context} (cmd : Op)
        → max + size cmd < 2 ^ 64
        → send_command max cmd s ≡ some t
        → Step rs s rs t
    takes : {rs : Results} {s t : Context} → take_command s ≡ some t → Step rs s rs t
    completes :
        {rs : Results} {s : Context} (result : Bool) (cmd : Op)
        → s.running ≡ some cmd
        → Step rs s (result_of cmd result rs) (complete result cmd s)
    flushes : {rs : Results} {s t : Context} (b : Bool) → flush s ≡ some (b, t) → Step rs s [] t
    shuts_down : {rs : Results} {s : Context} → Step rs s rs (shutdown s)

  pub data Run : Results → Context → Type 0 where
    begin : Run [] initial
    step : {rs rs' : Results} {s t : Context} → Run rs s → Step rs s rs' t → Run rs' t

abbrev pub total : List Op → ℕ
total [] = 0
total (cmd ∷ ops) = size cmd + total ops

abbrev pub running_size : Option Op → ℕ
running_size none = 0
running_size (some cmd) = size cmd

-- Whether one of the writes succeeded.
abbrev pub any : Results → Bool
any [] = false
any (r ∷ rs) = r || any rs

record Inv (max : ℕ) (rs : Results) (s : Context) : Type 0 where
  counted : s.op_size ≡ total s.queue + running_size s.running
  bounded : s.op_size ≤ max
  joined : s.fail_status ≡ any rs

total-snoc : (ops : List Op) (cmd : Op) → total (ops ++ cmd ∷ []) ≡ total ops + size cmd
total-snoc [] cmd = omega arith
total-snoc (x ∷ ops) cmd = omega (arith, total-snoc ops cmd)

abbrev Goes : ℕ → Results → Option Context → Type 0
Goes max rs none = Unit
Goes max rs (some t) = Inv max rs t

no_wrap : (max a n : ℕ) → a ≤ max → max + n < 2 ^ 64 → (a + n) % 2 ^ 64 ≡ a + n
no_wrap max a n h small = omega arith

not_over : (f : Bool) (max a : ℕ) → (not f && ltb max a) ≡ false → f ≡ false → a ≤ max
not_over f max a e on = ground arith

send-Inv :
    (max : ℕ) (rs : Results) (s : Context) (cmd : Op)
    → max + size cmd < 2 ^ 64
    → Inv max rs s
    → Goes max rs (send_command max cmd s)
unfolding send_command
send-Inv max rs s cmd small h =
    if-elim (Goes max rs) (not s.finished && ltb max ((s.op_size + size cmd) % 2 ^ 64)) _ _
      (λ _. tt)
      λ free.
        if-elim (Goes max rs) s.finished _ _ (λ _. h)
          λ on.
            let whole = no_wrap max s.op_size (size cmd) h.bounded small in
            record {
              counted = whole ∙ omega (arith, h.counted, total-snoc s.queue cmd);
              bounded = not_over s.finished max _ free on;
              joined = h.joined;
            }

take_first-Inv :
    (max : ℕ) (rs : Results) (s : Context) (running : Option Op) (queue : List Op)
    → s.running ≡ running
    → s.queue ≡ queue
    → Inv max rs s
    → Goes max rs (take_first s running queue)
unfolding take_first
take_first-Inv max rs s none [] er eq h = tt
take_first-Inv max rs s (some cmd) queue er eq h = tt
take_first-Inv max rs s none (cmd ∷ rest) er eq h = record {
  counted =
      h.counted
      ∙ (ap (λ q. total q + running_size s.running) eq
          ∙ (ap (λ r. size cmd + total rest + running_size r) er ∙ omega arith));
  bounded = h.bounded;
  joined = h.joined;
}

complete-Inv :
    (max : ℕ) (rs : Results) (s : Context) (result : Bool) (cmd : Op)
    → s.running ≡ some cmd
    → Inv max rs s
    → Inv max (result_of cmd result rs) (complete result cmd s)
unfolding complete
complete-Inv max rs s result (close fl fr offset n) e h = record {
  counted = h.counted ∙ ap (λ r. total s.queue + running_size r) e;
  bounded = h.bounded;
  joined = h.joined;
}
complete-Inv max rs s result (write fl fr offset n) e h =
    let all = h.counted ∙ ap (λ r. total s.queue + running_size r) e in
    record {
      counted = omega (arith, all);
      bounded = omega (arith, h.bounded);
      joined = or_comm s.fail_status result ∙ ap (λ f. result || f) h.joined;
    }
  where
    or_comm : (a b : Bool) → (a || b) ≡ (b || a)
    or_comm a b = ground arith

abbrev Flushed : ℕ → Results → Option (Bool × Context) → Type 0
Flushed max rs none = Unit
Flushed max rs (some (b, t)) = Inv max [] t × (b ≡ not (any rs))

flush-Inv : (max : ℕ) (rs : Results) (s : Context) → Inv max rs s → Flushed max rs (flush s)
unfolding flush
flush-Inv max rs s h =
    if-elim (Flushed max rs) (is_empty s.queue) _ _
      (λ _. (record { counted = h.counted; bounded = h.bounded; joined = refl }, ap not h.joined))
      (λ _. tt)

Step-Inv :
    (max : ℕ) {rs rs' : Results} {s t : Context}
    → Step max rs s rs' t
    → Inv max rs s
    → Inv max rs' t
unfolding take_command shutdown
Step-Inv max {rs} {s = s} (sends cmd small e) h =
    subst (Goes max rs) e (send-Inv max rs s cmd small h)
Step-Inv max {rs} {s = s} (takes e) h =
    subst (Goes max rs) e (take_first-Inv max rs s s.running s.queue refl refl h)
Step-Inv max {rs} {s = s} (completes result cmd e) h = complete-Inv max rs s result cmd e h
Step-Inv max {rs} {s = s} (flushes b e) h = (subst (Flushed max rs) e (flush-Inv max rs s h)).0
Step-Inv max shuts_down h = record { counted = h.counted; bounded = h.bounded; joined = h.joined }

Run-Inv : (max : ℕ) {rs : Results} {s : Context} → Run max rs s → Inv max rs s
Run-Inv max begin = record { counted = refl; bounded = omega arith; joined = refl }
Run-Inv max (step r st) = Step-Inv max st (Run-Inv max r)

-- In every state of a run the bytes that are in the queue or being written are those that
-- async_op_size counts, and not more than MAX_QUEUE_SIZE.
pub in_flight_bounded :
    (max : ℕ) (rs : Results) (s : Context)
    → Run max rs s
    → (total s.queue + running_size s.running ≡ s.op_size) × (s.op_size ≤ max)
in_flight_bounded max rs s r = let h = Run-Inv max r in (sym h.counted, h.bounded)

-- flush returns true exactly if none of the writes since the last flush has succeeded.
pub flush_verdict :
    (max : ℕ) (rs : Results) (s t : Context) (b : Bool)
    → Run max rs s
    → flush s ≡ some (b, t)
    → b ≡ not (any rs)
flush_verdict max rs s t b r e = (subst (Flushed max rs) e (flush-Inv max rs s (Run-Inv max r))).1
