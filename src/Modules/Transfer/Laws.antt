-- ===== src/Modules/Transfer/Laws.antt =====
-- How often the transfer module flushes, and when it restores.
use veloc.Base.{
  ℕ, ◌+◌, ◌≤◌, ◌<◌, ◌≡◌, refl, ap, ◌∙◌, inl, inr, true, false, List, [], ◌∷◌, ltb, lt→ltb, ◌&&◌,
  ◌||◌, if◌then◌else◌, arith, Bool-cases, All,
}
use veloc.Base.Int.{ℤ, pos, ltb_ℤ, pos_part, ◌<ℤ◌, ◌≤ℤ◌, ◌==ℤ◌, ==ℤ_refl}
use veloc.Base.Bytes.{Bytes}
use veloc.Base.IntMap.{assign, find-assign}
use veloc.Command.{Command, Opcode, filename}
use veloc.Queue.{success, ignored}
use veloc.FileSystem.{FileSystem}
use veloc.Storage.{Storage}
use veloc.Modules.Transfer.{
  active, Timestamps, timestamp, process_command, process_checkpoint, process_restart, reply,
  dispatch,
}

timestamp-assign :
    (j k : ℤ) (t : ℕ) (ts : Timestamps)
    → timestamp j (assign k t ts) ≡ (if j ==ℤ k then t else timestamp j ts)
unfolding timestamp
timestamp-assign j k t ts = elim (Bool-cases (j ==ℤ k)) [
  | inl e ↦ rw (find-assign j k t ts, e) refl
  | inr e ↦ rw (find-assign j k t ts, e) refl
]

assign_keeps :
    (id k : ℤ) (bound t : ℕ) (ts : Timestamps)
    → bound ≤ timestamp id ts
    → bound ≤ t
    → bound ≤ timestamp id (assign k t ts)
assign_keeps id k bound t ts h e = elim (Bool-cases (id ==ℤ k)) [
  | inl same ↦ rw (timestamp-assign id k t ts, same) e
  | inr other ↦ rw (timestamp-assign id k t ts, other) h
]

throttled : (i : ℤ) → pos 0 <ℤ i → ltb_ℤ (pos 0) i ≡ true
throttled i h = ground arith

is_on : (i : ℤ) → pos 0 <ℤ i → ltb_ℤ i (pos 0) ≡ false
is_on i h = ground arith

is_on' : (i : ℤ) → pos 0 ≤ℤ i → ltb_ℤ i (pos 0) ≡ false
is_on' i h = ground arith

not_early : (now t : ℕ) → t ≤ now → ltb now t ≡ false
not_early now t h = ground arith

bound_later : (b start now d : ℕ) → b ≤ start + d → start ≤ now → b ≤ now + d
bound_later b start now d h e = omega arith

le_self : (a : ℕ) → a ≤ a
le_self a = omega arith

lt_le : (a b c : ℕ) → a < b → b ≤ c → a < c
lt_le a b c h e = omega arith

module _ {F : FileSystem} (s : Storage F) (interval : ℤ) (scratch : Bytes) where
  -- Requests with the times at which they are processed.
  abbrev pub run : List (ℕ × Command) → Timestamps → F.State → Timestamps × F.State
  run [] ts fs = (ts, fs)
  run ((now, c) ∷ h) ts fs =
      let r = process_command (active s interval) scratch now c ts fs in run h r.1 r.2

  restart_timestamps :
      (c : Command) (ts : Timestamps) (fs : F.State)
      → (process_restart s interval scratch c ts fs).1 ≡ ts
  unfolding process_restart reply
  restart_timestamps c ts fs = elim (Bool-cases (F.can_read fs (filename c scratch))) [
    | inl e ↦ rw e refl
    | inr e ↦ elim (Bool-cases (s.exists fs c)) [ inl f ↦ rw (e, f) refl | inr f ↦ rw (e, f) refl ]
  ]

  module _ (positive : pos 0 <ℤ interval) where
    checkpoint_keeps :
        (id : ℤ) (bound now : ℕ) (c : Command) (ts : Timestamps) (fs : F.State)
        → bound ≤ timestamp id ts
        → bound ≤ now + pos_part interval
        → bound ≤ timestamp id (process_checkpoint s interval scratch now c ts fs).1
    unfolding process_checkpoint reply
    checkpoint_keeps id bound now c ts fs h e =
        elim (Bool-cases (ltb now (timestamp c.unique_id ts))) [
          | inl early ↦ rw (throttled interval positive, early) h
          | inr late ↦
              rw (throttled interval positive, late)
                (assign_keeps id c.unique_id bound (now + pos_part interval) ts h e)
        ]

    step_keeps :
        (id : ℤ) (bound now : ℕ) (c : Command) (ts : Timestamps) (fs : F.State)
        → bound ≤ timestamp id ts
        → bound ≤ now + pos_part interval
        → bound ≤ timestamp id (process_command (active s interval) scratch now c ts fs).1
    unfolding process_command dispatch
    step_keeps id bound now c ts fs h e = rw (is_on interval positive) (by_opcode c.command)
      where
        by_opcode :
            (o : Opcode) → bound ≤ timestamp id (dispatch s interval scratch o now c ts fs).1
        by_opcode Opcode.init = assign_keeps id c.unique_id bound (now + pos_part interval) ts h e
        by_opcode Opcode.checkpoint = checkpoint_keeps id bound now c ts fs h e
        by_opcode Opcode.restart = rw (restart_timestamps c ts fs) h
        by_opcode Opcode.test = h
        by_opcode Opcode.status = h

    checkpoint_starts :
        (first : ℕ) (c : Command) (ts : Timestamps) (fs : F.State)
        → c.command ≡ Opcode.checkpoint
        → timestamp c.unique_id ts ≤ first
        → first + pos_part interval
          ≤ timestamp c.unique_id (process_command (active s interval) scratch first c ts fs).1
    unfolding process_command dispatch process_checkpoint reply
    checkpoint_starts first c ts fs e free =
        rw
          (
            is_on interval positive,
            e,
            dispatch,
            throttled interval positive,
            not_early first _ free,
          )
          (rw
            (
              timestamp-assign c.unique_id c.unique_id (first + pos_part interval) ts,
              ==ℤ_refl c.unique_id,
            )
            (le_self _))

    too_early :
        (now : ℕ) (d : Command) (ts : Timestamps) (fs : F.State)
        → d.command ≡ Opcode.checkpoint
        → now < timestamp d.unique_id ts
        → process_command (active s interval) scratch now d ts fs ≡ (success, ts, fs)
    unfolding process_command dispatch process_checkpoint
    too_early now d ts fs e early =
        rw (is_on interval positive, e, dispatch, throttled interval positive, lt→ltb now _ early)
          refl

    run_keeps :
        (id : ℤ) (bound start : ℕ) (h : List (ℕ × Command)) (ts : Timestamps) (fs : F.State)
        → bound ≤ timestamp id ts
        → bound ≤ start + pos_part interval
        → All (λ r. start ≤ r.0) h
        → bound ≤ timestamp id (run h ts fs).0
    run_keeps id bound start [] ts fs e _ _ = e
    run_keeps id bound start ((now, c) ∷ h) ts fs e le (after, rest) =
        run_keeps id bound start h _ _
          (step_keeps id bound now c ts fs e
            (bound_later bound start now (pos_part interval) le after))
          le rest

    -- A CHECKPOINT at time `first` that is not held back itself starts an interval, whether its
    -- flush succeeds or not: whatever requests of whatever clients are processed from then on,
    -- every CHECKPOINT of the same client before the interval is over returns VELOC_SUCCESS and
    -- leaves the files and the timestamps as they are.
    pub held_back :
        (first now : ℕ) (c d : Command) (h : List (ℕ × Command)) (ts : Timestamps) (fs : F.State)
        → c.command ≡ Opcode.checkpoint
        → d.command ≡ Opcode.checkpoint
        → d.unique_id ≡ c.unique_id
        → timestamp c.unique_id ts ≤ first
        → All (λ r. first ≤ r.0) h
        → now < first + pos_part interval
        → process_command
            (active s interval)
            scratch
            now
            d
            (run ((first, c) ∷ h) ts fs).0
            (run ((first, c) ∷ h) ts fs).1
          ≡ (success, (run ((first, c) ∷ h) ts fs).0, (run ((first, c) ∷ h) ts fs).1)
    held_back first now c d h ts fs ckpt ckpt' same free later early =
        let starts = checkpoint_starts first c ts fs ckpt free in
        let stays =
          run_keeps c.unique_id (first + pos_part interval) first h _ _ starts (le_self _) later in
        too_early now d _ _ ckpt' (rw same (lt_le now _ _ early stays))

  process_restart_lem :
      (now : ℕ) (c : Command) (ts : Timestamps) (fs : F.State)
      → (dispatch s interval scratch Opcode.restart now c ts fs).0 ≡ (
          if F.can_read fs (filename c scratch) || (s.exists fs c && (s.restore fs c).0)
          then success
          else ignored)
  unfolding dispatch process_restart reply
  process_restart_lem now c ts fs = elim (Bool-cases (F.can_read fs (filename c scratch))) [
    | inl r ↦ rw r refl
    | inr r ↦ elim (Bool-cases (s.exists fs c)) [
      | inl f ↦ elim (Bool-cases (s.restore fs c).0) [
        | inl g ↦ rw (r, f, g) refl
        | inr g ↦ rw (r, f, g) refl
      ]
      | inr f ↦ rw (r, f) refl
    ]
  ]

  -- A RESTART of an active module never fails: it succeeds exactly if the file can be read locally,
  -- or the storage has it and restores it, and is ignored otherwise.
  pub restart_restores :
      (now : ℕ) (c : Command) (ts : Timestamps) (fs : F.State)
      → c.command ≡ Opcode.restart
      → pos 0 ≤ℤ interval
      → (process_command (active s interval) scratch now c ts fs).0 ≡ (
          if F.can_read fs (filename c scratch) || (s.exists fs c && (s.restore fs c).0)
          then success
          else ignored)
  unfolding process_command
  restart_restores now c ts fs e positive =
      rw (is_on' interval positive) (
        ap (λ o. (dispatch s interval scratch o now c ts fs).0) e ∙ process_restart_lem now c ts fs)
