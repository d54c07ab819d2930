-- ===== src/Queue/Ipc/Refines.antt =====
-- The queue over shared memory does what the abstract machine does, step by step.
use mathlib.Core.Option.{some-injective}
use veloc.Base.{
  subst, Option-cases, ℕ, suc, ◌≡◌, refl, ap, sym, ◌∙◌, Bool, true, false, some, List, [], ◌∷◌,
  ◌++◌, arith, inl, inr, length, length-append, Bool-cases,
}
use veloc.Base.Int.{ℤ, ◌==ℤ◌, ==ℤ_iff}
use veloc.Command.{Command}
use veloc.Queue.{
  Container, Started, push, start, start_first, finish, remove_ticket, merge, is_idle,
}
use veloc.Queue.Clients.{Clients, find_non_empty_pending, get, put, get-put, get-put_self}
use veloc.Queue.Ipc.{Dequeued, take_from, connect, enqueue, dequeue_any, set_completion}
use veloc.Queue.Ipc.History.{
  Label, connected, enqueued, started, finished, reaped, Step, connects, enqueues, starts, finishes,
  reaps, has_ticket, Run, begin, step,
}
use veloc.Queue.Ipc.Invariant.{dequeue_any-Takes, idle_result, length-remove_ticket}
use veloc.Queue.Ipc.Delivery.{is_empty-eq}
use veloc.Queue.Spec.{
  Jobs, State, idle, effect, client_of, Allowed, Event, Trace, Implementation, Reached, initially,
  further,
}
use veloc.Queue.Spec.Laws.{Reached-Trace}

-- What the machine sees of a container and of a table.
unfoldable pub jobs_of : Container → Jobs
jobs_of c = record { waiting = c.pending; running = length c.progress; verdict = c.status }

abbrev pub abstraction : Clients → State
abstraction s id = jobs_of (get id s)

started_first :
    (c : Container) (pending : List Command) (b : Started)
    → start_first c pending ≡ some b
    → (pending ≡ b.command ∷ b.container.pending)
      × (length b.container.progress ≡ suc (length c.progress))
      × (b.container.status ≡ c.status)
unfolding start_first
started_first c [] b e = cc
started_first c (x ∷ rest) b e = ground (arith, length-append c.progress ((c.next, x) ∷ []))

-- To take up a request is an event of the machine.
pub start_lem :
    (j : ℤ) (c : Container) (b : Started)
    → start c ≡ some b
    → Allowed (started j b.command) (jobs_of c)
      × (jobs_of b.container ≡ effect (started j b.command) (jobs_of c))
unfolding start effect jobs_of
start_lem j c b e =
    let (first, more, same) = started_first c c.pending b e in
    ((b.container.pending, first), rw (first, more, same) refl)

pub finish_lem :
    (j : ℤ) (t : ℕ) (status : ℤ) (c : Container)
    → has_ticket t c.progress ≡ true
    → Allowed (finished j status) (jobs_of c)
      × (jobs_of (finish t status c) ≡ effect (finished j status) (jobs_of c))
unfolding finish effect jobs_of
finish_lem j t status c h =
    let less = length-remove_ticket t c.progress h in
    (
      (length (remove_ticket t c.progress), sym less),
      ap (λ n. record { waiting = c.pending; running = n; verdict = merge c.status status })
          (omega (arith, less)),
    )

-- A call that changes the container of one client only.
pub put-Event :
    (l : Label) (s : Clients) (c : Container)
    → Allowed l (jobs_of (get (client_of l) s))
    → jobs_of c ≡ effect l (jobs_of (get (client_of l) s))
    → Event (abstraction s) l (abstraction (put (client_of l) c s))
put-Event l s c ok e = (
  ok,
  λ id. ap jobs_of (get-put (client_of l) id c s) ∙ elim (Bool-cases (id ==ℤ client_of l)) [
    | inl p ↦
        rw p (e ∙ ap (λ j. effect l (jobs_of (get j s))) (sym ((==ℤ_iff id (client_of l)).0 p)))
    | inr p ↦ rw p refl
  ],
)

pub same-Event :
    (l : Label) (s t : Clients)
    → ((id : ℤ) → get id t ≡ get id s)
    → Allowed l (jobs_of (get (client_of l) s))
    → ((a : Jobs) → effect l a ≡ a)
    → Event (abstraction s) l (abstraction t)
same-Event l s t kept ok e = (
  ok,
  λ id. ap jobs_of (kept id) ∙ elim (Bool-cases (id ==ℤ client_of l)) [
    | inl p ↦ rw (p, e (jobs_of (get id s))) refl
    | inr p ↦ rw p refl
  ],
)

pub none_left :
    (j : ℤ) (reset : Bool) (c : Container)
    → is_idle c ≡ true
    → Allowed (reaped j reset c.status) (jobs_of c)
unfolding is_idle jobs_of
none_left j reset c e =
    let none_pending : c.pending ≡ [] = is_empty-eq _ (ground arith) in
    let none_running : c.progress ≡ [] = is_empty-eq _ (ground arith) in
    (none_pending, ap length none_running, refl)

pub Step-Event : (s t : Clients) (l : Label) → Step s l t → Event (abstraction s) l (abstraction t)
unfolding connect enqueue set_completion effect jobs_of push
Step-Event s t l (connects j el et) =
    rw (el, et) (same-Event (connected j) s _ (λ id. get-put_self id j s) tt (λ a. refl))
Step-Event s t l (enqueues j e el et) = rw (el, et) (put-Event (enqueued j e) s _ tt refl)
Step-Event s t l (starts d e el et) =
    let (b, q, command, table) = dequeue_any-Takes s d e in
    let (ok, same) = start_lem d.client (get d.client s) b q in
    rw (el, et, table, command) (put-Event (started d.client b.command) s b.container ok same)
Step-Event s t l (finishes j ticket status h el et) =
    let (ok, same) = finish_lem j ticket status (get j s) h in
    rw (el, et) (put-Event (finished j status) s _ ok same)
Step-Event s t l (reaps j true status e el) =
    let (p, result, table) = idle_result j true s t status e in
    rw (el, table, result)
      (put-Event (reaped j true (get j s).status) s _ (none_left j true (get j s) p) refl)
Step-Event s t l (reaps j false status e el) =
    let (p, result, table) = idle_result j false s t status e in
    rw (el, table, result)
      (same-Event (reaped j false (get j s).status) s s (λ id. refl) (none_left j false (get j s) p)
        (λ a. refl))

pub fresh-idle : (id : ℤ) → abstraction [] id ≡ idle
unfolding get jobs_of
fresh-idle id = refl

abbrev pub ipc : Implementation
ipc = record {
  Table = Clients;
  initial = [];
  Step = λ s l t. Step s l t;
  jobs = abstraction;
  starts_idle = fresh-idle;
  simulates = Step-Event;
}

Run-Reached : {ls : List Label} {s : Clients} → Run ls s → Reached ipc ls s
Run-Reached begin = initially
Run-Reached (step r st) = further (Run-Reached r) st

-- Every run of the queue over shared memory, seen through the abstraction that forgets the order of
-- the clients, the tickets and the lists in progress, is a run of the abstract machine.
pub Run-refines : (ls : List Label) (s : Clients) → Run ls s → Trace ls (abstraction s)
Run-refines ls s r = Reached-Trace ipc (Run-Reached r)

start_first_progress :
    (c : Container) (pending : List Command) (b : Started)
    → start_first c pending ≡ some b
    → b.container.progress ≡ c.progress ++ (b.ticket, b.command) ∷ []
unfolding start_first
start_first_progress c [] b e = cc
start_first_progress c (x ∷ rest) b e = ground arith

-- What is taken up is put at the end of the list in progress, under its ticket.
abbrev pub Puts : Clients → Dequeued → Type 0
Puts s d =
    (c : Container) × (d.table ≡ put d.client c s)
    × (c.progress ≡ (get d.client s).progress ++ (d.ticket, d.command) ∷ [])

pub dequeue_any-Puts : (s : Clients) (d : Dequeued) → dequeue_any s ≡ some d → Puts s d
unfolding dequeue_any start
dequeue_any-Puts s d e = elim (Option-cases (find_non_empty_pending s)) [
  | inl p ↦ absurd (let e' = rw (p, dequeue_any) at e in cc)
  | inr (id, p) ↦ elim (Option-cases (start (get id s))) [
    | inl q ↦ absurd (let e' = rw (p, dequeue_any, q, take_from) at e in cc)
    | inr (b, q) ↦
        subst (Puts s) (some-injective _ _ (rw (p, dequeue_any, q, take_from) at e))
          (b.container, refl, start_first_progress (get id s) _ b q)
  ]
]
