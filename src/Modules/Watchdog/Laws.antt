-- ===== src/Modules/Watchdog/Laws.antt =====
-- Whom the watchdog reports: exactly the clients whose deadline has passed.
use veloc.Base.{
  ℕ, ◌+◌, ◌≤◌, ◌≡◌, refl, ◌∙◌, inl, inr, Bool, true, false, Option, none, some, List, [], ◌∷◌, ltb,
  if◌then◌else◌, arith, All, Bool-cases, Option-cases,
}
use veloc.Base.Int.{ℤ, pos, pos_part, ◌<ℤ◌, ◌==ℤ◌, ==ℤ_refl}
use veloc.Base.IntMap.{
  find, assign, find-assign, IsOrdered, Above-IsOrdered, find_below, assign-IsOrdered,
}
use veloc.Command.{Command, Opcode}
use veloc.Queue.{success}
use veloc.Modules.Watchdog.{ClientMap, deadline, dispatch, process_command, timed_out}

abbrev pub reports : ℤ → List ℤ → Bool
reports id [] = false
reports id (x ∷ xs) = if id ==ℤ x then true else reports id xs

-- A deadline that has passed.
abbrev late : ℕ → Option ℕ → Bool
late now none = false
late now (some t) = ltb t now

-- One round of timeout_check reports a client exactly if it is registered and its deadline lies
-- before the time of the round.
pub reports-timed_out :
    (now : ℕ) (id : ℤ) (m : ClientMap)
    → IsOrdered m
    → reports id (timed_out now m) ≡ late now (find id m)
unfolding timed_out find ◌==ℤ◌
reports-timed_out now id [] _ = refl
reports-timed_out now id ((k, t) ∷ m) h =
    ground (arith, reports-timed_out now id m (Above-IsOrdered k m h), find_below id k m h)

-- A registered client whose deadline is not before `bound`.
abbrev pub HoldsUntil : ℤ → ℕ → ClientMap → Type 0
HoldsUntil id bound m = (t : ℕ) × (find id m ≡ some t) × (bound ≤ t)

assign_holds :
    (id k : ℤ) (bound t : ℕ) (m : ClientMap)
    → HoldsUntil id bound m
    → bound ≤ t
    → HoldsUntil id bound (assign k t m)
assign_holds id k bound t m (u, e, h) le = elim (Bool-cases (id ==ℤ k)) [
  | inl same ↦ (t, rw (find-assign id k t m, same) refl, le)
  | inr other ↦ (u, rw (find-assign id k t m, other) e, h)
]

module _ (timeout : ℤ) where
  -- Requests with the times at which they are processed.
  abbrev pub run : List (ℕ × Command) → ClientMap → ClientMap
  run [] m = m
  run ((now, c) ∷ h) m = run h (process_command timeout now c m).1

module _ (timeout : ℤ) (on : pos 0 <ℤ timeout) where
  is_on : (timeout ==ℤ pos 0) ≡ false
  unfolding ◌==ℤ◌
  is_on = ground arith

  dispatch-IsOrdered :
      (o : Opcode) (now : ℕ) (c : Command) (m : ClientMap)
      → IsOrdered m
      → IsOrdered (dispatch o timeout now c m).1
  unfolding dispatch
  dispatch-IsOrdered Opcode.init now c m h = assign-IsOrdered c.unique_id _ m h
  dispatch-IsOrdered Opcode.checkpoint now c m h = elim (Option-cases (find c.unique_id m)) [
    | inl e ↦ rw (e, dispatch) h
    | inr (t, e) ↦ rw (e, dispatch) (assign-IsOrdered c.unique_id _ m h)
  ]
  dispatch-IsOrdered Opcode.restart now c m h = h
  dispatch-IsOrdered Opcode.test now c m h = h
  dispatch-IsOrdered Opcode.status now c m h = h

  dispatch_holds :
      (o : Opcode) (id : ℤ) (bound now : ℕ) (c : Command) (m : ClientMap)
      → HoldsUntil id bound m
      → bound ≤ deadline now timeout
      → HoldsUntil id bound (dispatch o timeout now c m).1
  unfolding dispatch
  dispatch_holds Opcode.init id bound now c m h le = assign_holds id c.unique_id bound _ m h le
  dispatch_holds Opcode.checkpoint id bound now c m h le =
      elim (Option-cases (find c.unique_id m)) [
        | inl e ↦ rw (e, dispatch) h
        | inr (t, e) ↦ rw (e, dispatch) (assign_holds id c.unique_id bound _ m h le)
      ]
  dispatch_holds Opcode.restart id bound now c m h le = h
  dispatch_holds Opcode.test id bound now c m h le = h
  dispatch_holds Opcode.status id bound now c m h le = h

  deadline_mono : (bound a b : ℕ) → bound ≤ deadline a timeout → a ≤ b → bound ≤ deadline b timeout
  deadline_mono bound a b h le = ground arith

  run-IsOrdered :
      (h : List (ℕ × Command)) (m : ClientMap) → IsOrdered m → IsOrdered (run timeout h m)
  unfolding process_command
  run-IsOrdered [] m o = o
  run-IsOrdered ((now, c) ∷ h) m o =
      rw is_on (run-IsOrdered h _ (dispatch-IsOrdered c.command now c m o))

  run_holds :
      (id : ℤ) (bound start : ℕ) (h : List (ℕ × Command)) (m : ClientMap)
      → HoldsUntil id bound m
      → bound ≤ deadline start timeout
      → All (λ r. start ≤ r.0) h
      → HoldsUntil id bound (run timeout h m)
  unfolding process_command
  run_holds id bound start [] m e _ _ = e
  run_holds id bound start ((now, c) ∷ h) m e le (after, rest) = rw is_on (
      run_holds id bound start h _
        (dispatch_holds c.command id bound now c m e (deadline_mono bound start now le after)) le
        rest)

  heard_from :
      (o : Opcode) (now : ℕ) (c : Command) (m : ClientMap)
      → (dispatch o timeout now c m).0 ≡ success
      → HoldsUntil c.unique_id (deadline now timeout) (dispatch o timeout now c m).1
  unfolding dispatch
  heard_from Opcode.init now c m e = (
    deadline now timeout,
    rw (find-assign c.unique_id c.unique_id (deadline now timeout) m, ==ℤ_refl c.unique_id) refl,
    omega arith,
  )
  heard_from Opcode.checkpoint now c m e = elim (Option-cases (find c.unique_id m)) [
    | inl n ↦ absurd (let e' = rw (n, dispatch) at e in cc)
    | inr (t, n) ↦
        rw (n, dispatch)
          (
            deadline now timeout,
            rw (find-assign c.unique_id c.unique_id (deadline now timeout) m, ==ℤ_refl c.unique_id)
                refl,
            omega arith,
          )
  ]
  heard_from Opcode.restart now c m e = absurd (cc e)
  heard_from Opcode.test now c m e = absurd (cc e)
  heard_from Opcode.status now c m e = absurd (cc e)

  HoldsUntil-late :
      (id : ℤ) (bound now : ℕ) (m : ClientMap)
      → HoldsUntil id bound m
      → now ≤ bound
      → late now (find id m) ≡ false
  HoldsUntil-late id bound now m (t, e, h) le = rw e (ground arith)

  -- A client whose request succeeded at time `start` is not reported by any round within the
  -- timeout from then on, whatever requests are processed in between.
  pub not_reported :
      (start now : ℕ) (c : Command) (h : List (ℕ × Command)) (m : ClientMap)
      → IsOrdered m
      → (process_command timeout start c m).0 ≡ success
      → All (λ r. start ≤ r.0) h
      → now ≤ start + pos_part timeout
      → reports c.unique_id (timed_out now (run timeout ((start, c) ∷ h) m)) ≡ false
  unfolding process_command
  not_reported start now c h m o ok later le =
      let ok' : (dispatch c.command timeout start c m).0 ≡ success = rw is_on at ok in
      let heard = heard_from c.command start c m ok' in
      let holds =
        run_holds c.unique_id (deadline start timeout) start h _ heard (omega arith) later in
      let ordered = run-IsOrdered h _ (dispatch-IsOrdered c.command start c m o) in
      rw is_on (
        reports-timed_out now c.unique_id _ ordered
        ∙ HoldsUntil-late c.unique_id (deadline start timeout) now _ holds (ground arith))
