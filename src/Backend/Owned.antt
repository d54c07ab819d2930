-- ===== src/Backend/Owned.antt =====
-- Each thread completes a request that is in progress, once: what the backend does to the queue is a
-- run of it.
use veloc.Base.{
  if_false, ==_refl, ℕ, ◌+◌, ◌≤◌, ◌≡◌, refl, ap, sym, ◌∙◌, subst, Bool, true, false, ◌&&◌, some,
  List, [], ◌∷◌, ◌++◌, ◌==◌, if◌then◌else◌, arith, inl, inr, Bool-cases,
}
use veloc.Base.Int.{ℤ, ◌==ℤ◌, ==ℤ_refl, ==ℤ_iff}
use veloc.Command.{Command}
use veloc.Queue.{Container, success, push, finish, remove_ticket}
use veloc.Queue.Clients.{Clients, get, put, get-put, get-put_self}
use veloc.Queue.Ipc.{Dequeued, connect, enqueue, dequeue_any, set_completion}
use veloc.Queue.Ipc.History as Ipc
use veloc.Queue.Ipc.History.{
  Label, connected, enqueued, started, finished, reaped, has_ticket, connects, enqueues, starts,
  finishes, Run,
}
use veloc.Queue.Ipc.Invariant.{idle_result}
use veloc.Queue.Ipc.Refines.{dequeue_any-Puts}
use veloc.Backend.{Job, job_of}
use veloc.Backend.Bound.{is_client}

abbrev pub one_if : Bool → ℕ
one_if true = 1
one_if false = 0

-- How often a ticket is in a progress list, and how many threads are to complete it.
abbrev pub occurrences : ℕ → List (ℕ × Command) → ℕ
occurrences t [] = 0
occurrences t ((u, e) ∷ ps) = one_if (t == u) + occurrences t ps

abbrev pub claim : ℤ → ℕ → Job → ℕ
claim id t j = if j.is_done then 0 else one_if ((id ==ℤ j.client) && (t == j.ticket))

abbrev pub claims : ℤ → ℕ → List Job → ℕ
claims id t [] = 0
claims id t (j ∷ js) = claim id t j + claims id t js

claims-append :
    (id : ℤ) (t : ℕ) (js ks : List Job) → claims id t (js ++ ks) ≡ claims id t js + claims id t ks
claims-append id t [] ks = omega arith
claims-append id t (j ∷ js) ks = omega (arith, claims-append id t js ks)

occurrences-append :
    (t : ℕ) (ps qs : List (ℕ × Command))
    → occurrences t (ps ++ qs) ≡ occurrences t ps + occurrences t qs
occurrences-append t [] qs = omega arith
occurrences-append t ((u, e) ∷ ps) qs = omega (arith, occurrences-append t ps qs)

occurrences-remove_ticket :
    (t u : ℕ) (ps : List (ℕ × Command))
    → occurrences t ps ≤ one_if (t == u) + occurrences t (remove_ticket u ps)
unfolding remove_ticket
occurrences-remove_ticket t u [] = omega arith
occurrences-remove_ticket t u ((v, e) ∷ ps) = ground (arith, occurrences-remove_ticket t u ps)

has_occurrence : (t : ℕ) (ps : List (ℕ × Command)) → 1 ≤ occurrences t ps → has_ticket t ps ≡ true
has_occurrence t [] h = absurd (omega (arith, h))
has_occurrence t ((u, e) ∷ ps) h = ground (arith, has_occurrence t ps)

-- No more threads are to complete a request than there are requests.
abbrev pub Owned : Clients → List Job → Type 0
Owned table js = (id : ℤ) (t : ℕ) → claims id t js ≤ occurrences t (get id table).progress

put-Owned :
    (i : ℤ) (c : Container) (table : Clients) (js : List Job)
    → ((t : ℕ) → claims i t js ≤ occurrences t c.progress)
    → ((id : ℤ) (t : ℕ)
        → (id ==ℤ i) ≡ false
        → claims id t js ≤ occurrences t (get id table).progress)
    → Owned (put i c table) js
put-Owned i c table js here there id t = rw (get-put i id c table) (elim (Bool-cases (id ==ℤ i)) [
  | inl p ↦
      rw p
        (subst (λ k. claims k t js ≤ occurrences t c.progress) (sym ((==ℤ_iff id i).0 p)) (here t))
  | inr p ↦ rw p (there id t p)
])

own_claim : (d : Dequeued) (t : ℕ) → claim d.client t (job_of d) ≡ one_if (t == d.ticket)
own_claim d t = rw (==ℤ_refl d.client) refl

other_claim :
    (id : ℤ) (d : Dequeued) (t : ℕ) → (id ==ℤ d.client) ≡ false → claim id t (job_of d) ≡ 0
other_claim id d t e = rw e refl

pub hand_over-Owned :
    (table : Clients) (js : List Job) (d : Dequeued)
    → dequeue_any table ≡ some d
    → Owned table js
    → Owned d.table (js ++ job_of d ∷ [])
hand_over-Owned table js d e h =
    let (c, same, more) = dequeue_any-Puts table d e in
    subst (λ x. Owned x (js ++ job_of d ∷ [])) (sym same)
      (put-Owned d.client c table (js ++ job_of d ∷ [])
        (λ t. omega (
          arith,
          claims-append d.client t js (job_of d ∷ []),
          own_claim d t,
          h d.client t,
          occurrences-append t (get d.client table).progress ((d.ticket, d.command) ∷ []),
          ap (occurrences t) more,
        ))
        (λ id t other.
          omega (arith, claims-append id t js (job_of d ∷ []), other_claim id d t other, h id t)))

-- A call that leaves the list in progress of its client alone.
kept_by :
    (id j : ℤ) (c : Container) (table : Clients)
    → c.progress ≡ (get j table).progress
    → (get id (put j c table)).progress ≡ (get id table).progress
kept_by id j c table e =
    ap (λ x. x.progress) (get-put j id c table) ∙ elim (Bool-cases (id ==ℤ j)) [
      | inl p ↦ rw p (e ∙ ap (λ k. (get k table).progress) (sym ((==ℤ_iff id j).0 p)))
      | inr p ↦ rw p refl
    ]

-- A thread that is done gives up its claim.
abbrev pub done_job : Job → Job
done_job j = record j { is_done = true }

claims_done :
    (id : ℤ) (t : ℕ) (before behind : List Job) (j : Job)
    → j.is_done ≡ false
    → claims id t (before ++ j ∷ behind)
      ≡ claims id t (before ++ done_job j ∷ behind) + one_if ((id ==ℤ j.client) && (t == j.ticket))
claims_done id t before behind j h =
    let mine : claim id t j ≡ one_if ((id ==ℤ j.client) && (t == j.ticket)) = if_false _ _ _ h in
    omega (
      arith,
      claims-append id t before (j ∷ behind),
      claims-append id t before (done_job j ∷ behind),
      mine,
    )

pub finish-Owned :
    (table : Clients) (before behind : List Job) (j : Job) (status : ℤ)
    → j.is_done ≡ false
    → Owned table (before ++ j ∷ behind)
    → Owned (set_completion j.client j.ticket status table) (before ++ done_job j ∷ behind)
unfolding set_completion finish
finish-Owned table before behind j status h own =
    put-Owned j.client _ table (before ++ done_job j ∷ behind)
      (λ t.
        let mine : one_if ((j.client ==ℤ j.client) && (t == j.ticket)) ≡ one_if (t == j.ticket) =
          rw (==ℤ_refl j.client) refl in
        omega (
          arith,
          claims_done j.client t before behind j h,
          mine,
          own j.client t,
          occurrences-remove_ticket t j.ticket (get j.client table).progress,
        ))
      (λ id t other. omega (arith, claims_done id t before behind j h, own id t))

pub owns_ticket :
    (table : Clients) (before behind : List Job) (j : Job)
    → j.is_done ≡ false
    → Owned table (before ++ j ∷ behind)
    → has_ticket j.ticket (get j.client table).progress ≡ true
owns_ticket table before behind j h own =
    let mine : one_if ((j.client ==ℤ j.client) && (j.ticket == j.ticket)) ≡ 1 =
      rw (==ℤ_refl j.client, ==_refl j.ticket) refl in
    has_occurrence j.ticket (get j.client table).progress
      (omega (arith, claims_done j.client j.ticket before behind j h, mine, own j.client j.ticket))

pub client_keeps :
    (table table' : Clients) (l : Label)
    → is_client l ≡ true
    → Ipc.Step table l table'
    → (id : ℤ) → (get id table').progress ≡ (get id table).progress
unfolding connect enqueue push
client_keeps table table' l c (connects j el et) id =
    rw et (ap (λ x. x.progress) (get-put_self id j table))
client_keeps table table' l c (enqueues j e el et) id =
    rw et (kept_by id j (push e (get j table)) table refl)
client_keeps table table' l c (starts d e el et) id = absurd (let c' = rw el at c in cc)
client_keeps table table' l c (finishes j ticket status h el et) id =
    absurd (let c' = rw el at c in cc)
client_keeps table table' l c (Ipc.reaps j true status e el) id =
    let (_, _, same) = idle_result j true table table' status e in
    rw same (kept_by id j (record (get j table) { status = success }) table refl)
client_keeps table table' l c (Ipc.reaps j false status e el) id =
    let (_, _, same) = idle_result j false table table' status e in rw same refl
