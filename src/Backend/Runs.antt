-- ===== src/Backend/Runs.antt =====
-- The backend as a user of the queue.
use veloc.Base.{
  ℕ, ◌≤◌, ◌≡◌, refl, sym, subst, true, false, some, List, [], ◌∷◌, ◌++◌, arith, inl, inr,
  Bool-cases, Option-cases,
}
use mathlib.Core.Option.{some-injective}
use veloc.Queue.Clients.{get}
use veloc.Queue.Ipc.{dequeue_any}
use veloc.Queue.Ipc.History as Ipc
use veloc.Queue.Ipc.History.{Label, Run, started, finished, starts, finishes}
use veloc.Modules.Manager.{Method, notify_command}
use veloc.Backend.{Job, State, hand_over, dequeue, pop_front, wait_front, run_job}
use veloc.Backend.Bound.{Step, takes, reaps, works, clients, Reachable, begin, step}
use veloc.Backend.Owned.{
  claims, occurrences, Owned, hand_over-Owned, finish-Owned, owns_ticket, client_keeps,
}

module _ {S : Type 0} (max_parallelism : ℕ) (modules : List (Method S)) where
  -- A run of the queue that has come to the table, and whose requests in progress the threads hold.
  abbrev Fits : State S → Type 0
  Fits s = ((ls : List Label) × Run ls s.table) × Owned s.table s.work_queue

  takes-Fits : (s t : State S) → dequeue max_parallelism modules s ≡ some t → Fits s → Fits t
  unfolding dequeue hand_over
  takes-Fits s t e ((ls, r), own) = elim (Option-cases (dequeue_any s.table)) [
    | inl p ↦ absurd (let e' = rw (dequeue, p) at e in cc)
    | inr (d, p) ↦ subst Fits (some-injective _ _ (rw (dequeue, p) at e)) (
      (started d.client d.command ∷ ls, Ipc.step r (starts d p refl refl)),
      hand_over-Owned s.table s.work_queue d p own,
    )
  ]

  pops-Fits :
      (s t : State S) (js : List Job)
      → pop_front max_parallelism modules s js ≡ some t
      → (ls : List Label) × Run ls s.table
      → Owned s.table js
      → Fits t
  unfolding pop_front
  pops-Fits s t [] e r own = cc
  pops-Fits s t (j ∷ js) e r own = elim (Bool-cases j.is_done) [
    | inl d ↦ subst Fits (some-injective _ _ (rw d at e)) (r, λ id n. omega (arith, own id n))
    | inr d ↦ absurd (let e' = rw d at e in cc)
  ]

  Step-Fits : (s t : State S) → Step max_parallelism modules s t → Fits s → Fits t
  unfolding run_job wait_front
  Step-Fits s t (takes p e) h = takes-Fits s t e h
  Step-Fits s t (reaps p e) (r, own) = pops-Fits s t s.work_queue e r own
  Step-Fits s t (works before behind j q h e) ((ls, r), own) =
      let own' = subst (Owned s.table) q own in
      let status = (notify_command modules j.command s.modules).0 in
      rw e (
        (
          finished j.client status ∷ ls,
          Ipc.step r (
              finishes j.client j.ticket status (owns_ticket s.table before behind j h own') refl
                refl),
        ),
        finish-Owned s.table before behind j status h own',
      )
  Step-Fits s t (clients table l c st e) ((ls, r), own) = rw e (
    (l ∷ ls, Ipc.step r st),
    λ id n.
        subst (λ ps. claims id n s.work_queue ≤ occurrences n ps)
          (sym (client_keeps s.table table l c st id)) (own id n),
  )

  Reachable-Fits : (s : State S) → Reachable max_parallelism modules s → Fits s
  Reachable-Fits s (begin m) = (([], Ipc.begin), λ id n. omega arith)
  Reachable-Fits t (step {s = s} r st) = Step-Fits s t st (Reachable-Fits s r)

  -- However the clients, the loop and the threads take turns, what has become of the queue is a run of
  -- it, in which each completion is that of a request in progress; and a thread that is still at work
  -- holds such a request.
  pub Reachable-Run :
      (s : State S)
      → Reachable max_parallelism modules s
      → ((ls : List Label) × Run ls s.table)
        × ((before behind : List Job) (j : Job)
            → s.work_queue ≡ before ++ j ∷ behind
            → j.is_done ≡ false
            → Ipc.has_ticket j.ticket (get j.client s.table).progress ≡ true)
  Reachable-Run s r =
      let (run, own) = Reachable-Fits s r in
      (
        run,
        λ before behind j q h. owns_ticket s.table before behind j h (subst (Owned s.table) q own),
      )
