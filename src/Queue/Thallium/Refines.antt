-- ===== src/Queue/Thallium/Refines.antt =====
-- What the queue over remote calls has in common with the others: as long as no poll resets a status
-- while something is left to do, it does what the abstract machine does.
use veloc.Base.{
  ℕ, suc, ◌+◌, ◌^◌, ◌<◌, ◌≡◌, refl, ap, sym, Bool, true, false, some, List, [], ◌∷◌, arith, length,
}
use veloc.Base.Int.{ℤ}
use veloc.Command.{Command}
use veloc.Queue.{Container, push}
use veloc.Queue.Clients.{Clients, get, get-put_self}
use veloc.Queue.Ipc
use veloc.Queue.Ipc.{Dequeued}
use veloc.Queue.Ipc.History.{Label, connected, enqueued, started, finished, reaped, has_ticket}
use veloc.Queue.Ipc.Invariant.{dequeue_any-Takes}
use veloc.Queue.Ipc.Refines.{
  jobs_of, abstraction, start_lem, finish_lem, put-Event, same-Event, fresh-idle,
}
use veloc.Queue.Spec.{effect, Allowed, Event, Trace, Implementation, Reached}
use veloc.Queue.Spec.Laws.{Reached-Trace}
use veloc.Queue.Thallium.{enqueue, size, poll, dequeue_any, set_completion}

-- A client has fewer than 2 ^ 32 requests in the lists, which is what an int can tell of their
-- number, and a poll that finds some of them left does not reset the status.
abbrev pub Fits : Container → Type 0
Fits c = length c.pending + length c.progress < 2 ^ 32

pub data Step (s : Clients) (l : Label) (t : Clients) : Type 0 where
  enqueues : (e : Command) → l ≡ enqueued e.unique_id e → t ≡ enqueue e s → Step s l t
  starts :
      (d : Dequeued)
      → dequeue_any s ≡ some d
      → l ≡ started d.client d.command
      → t ≡ d.table
      → Step s l t
  finishes :
      (id : ℤ) (ticket : ℕ) (status : ℤ)
      → has_ticket ticket (get id s).progress ≡ true
      → l ≡ finished id status
      → t ≡ set_completion id ticket status s
      → Step s l t
  polls :
      (id : ℤ) (left : ℕ) (status : ℤ)
      → poll id false s ≡ ((suc left, status), t)
      → l ≡ connected id
      → Step s l t
  reaps :
      (id : ℤ) (reset : Bool) (status : ℤ)
      → Fits (get id s)
      → poll id reset s ≡ ((0, status), t)
      → l ≡ reaped id reset status
      → Step s l t

length_zero : {A : Type 0} (xs : List A) → length xs ≡ 0 → xs ≡ []
length_zero [] _ = refl
length_zero (x ∷ xs) h = absurd (omega (arith, h))

none_left :
    (j : ℤ) (reset : Bool) (c : Container)
    → Fits c
    → size c ≡ 0
    → Allowed (reaped j reset c.status) (jobs_of c)
unfolding size jobs_of
none_left j reset c fits e =
    (length_zero c.pending (omega (arith, fits, e)), omega (arith, fits, e), refl)

pub Step-Event : (s t : Clients) (l : Label) → Step s l t → Event (abstraction s) l (abstraction t)
unfolding enqueue set_completion effect jobs_of push poll
Step-Event s t l (enqueues e el et) = rw (el, et) (put-Event (enqueued e.unique_id e) s _ tt refl)
Step-Event s t l (starts d e el et) =
    let (b, q, command, table) = dequeue_any-Takes s d (unfold dequeue_any Ipc.dequeue_any in e) in
    let (ok, same) = start_lem d.client (get d.client s) b q in
    rw (el, et, table, command) (put-Event (started d.client b.command) s b.container ok same)
Step-Event s t l (finishes j ticket status h el et) =
    let (ok, same) = finish_lem j ticket status (get j s) h in
    rw (el, et) (put-Event (finished j status) s _ ok same)
Step-Event s t l (polls j left status e el) =
    rw (el, sym (ap (λ (r : (ℕ × ℤ) × Clients). r.1) e))
      (same-Event (connected j) s _ (λ id. get-put_self id j s) tt (λ a. refl))
Step-Event s t l (reaps j true status fits e el) =
    let none = none_left j true (get j s) fits (ap (λ (r : (ℕ × ℤ) × Clients). r.0.0) e) in
    rw
      (
        el,
        sym (ap (λ (r : (ℕ × ℤ) × Clients). r.1) e),
        sym (ap (λ (r : (ℕ × ℤ) × Clients). r.0.1) e),
      )
      (put-Event (reaped j true (get j s).status) s _ none refl)
Step-Event s t l (reaps j false status fits e el) =
    let none = none_left j false (get j s) fits (ap (λ (r : (ℕ × ℤ) × Clients). r.0.0) e) in
    rw
      (
        el,
        sym (ap (λ (r : (ℕ × ℤ) × Clients). r.1) e),
        sym (ap (λ (r : (ℕ × ℤ) × Clients). r.0.1) e),
      )
      (same-Event (reaped j false (get j s).status) s _ (λ id. get-put_self id j s) none
        (λ a. refl))

abbrev pub thallium : Implementation
thallium = record {
  Table = Clients;
  initial = [];
  Step = λ s l t. Step s l t;
  jobs = abstraction;
  starts_idle = fresh-idle;
  simulates = Step-Event;
}

-- A run of the queue over remote calls, whose polls reset the status only when they find nothing
-- left to do, is a run of the abstract machine.
pub Reached-refines :
    (ls : List Label) (s : Clients) → Reached thallium ls s → Trace ls (abstraction s)
Reached-refines ls s r = Reached-Trace thallium r
