-- ===== src/Queue/Ipc/Invariant.antt =====
-- The invariant between the history of each client and its container, kept by every call.
use veloc.Base.{
  ℕ, suc, ◌+◌, ◌≡◌, refl, ap, sym, ◌∙◌, subst, Bool, true, false, some, List, [], ◌∷◌, ◌++◌, arith,
  if◌then◌else◌, inl, inr, append_assoc, length, length-append, Bool-cases, Option-cases,
}
use mathlib.Core.Option.{some-injective}
use veloc.Base.Int.{ℤ, ◌==ℤ◌, ==ℤ_iff}
use veloc.Command.{Command}
use veloc.Queue.{
  Container, Started, fresh, success, push, start, start_first, finish, remove_ticket, merge,
  is_idle,
}
use veloc.Queue.Status.{merge_all, merge_all-append}
use veloc.Queue.Clients.{
  Clients, get, put, get-put, get-put_self, IsTable, put-IsTable, find_non_empty_pending,
}
use veloc.Queue.Ipc.{
  Dequeued, take_from, connect, enqueue, wait_completion, dequeue_any, set_completion,
}
use veloc.Queue.Ipc.History.{
  Label, has_ticket, Step, connects, enqueues, starts, finishes, reaps, Run, begin, step, History,
  note, history,
}

-- A container holds what its history leaves to be done.
pub record Inv (h : History) (c : Container) : Type 0 where
  pub fifo : h.sent ≡ h.taken ++ c.pending
  pub counted : length h.taken ≡ h.done + length c.progress
  pub summed : c.status ≡ merge_all success h.statuses

fresh-Inv : Inv (record { sent = []; taken = []; done = 0; statuses = [] }) fresh
unfolding merge_all
fresh-Inv = record { fifo = refl; counted = refl; summed = refl }

push-Inv :
    (e : Command) (h : History) (c : Container)
    → Inv h c
    → Inv (record h { sent = h.sent ++ e ∷ [] }) (push e c)
unfolding push
push-Inv e h c v = record {
  fifo = ap (λ x. x ++ e ∷ []) v.fifo ∙ append_assoc h.taken c.pending (e ∷ []);
  counted = v.counted;
  summed = v.summed;
}

start_first-Inv :
    (h : History) (c : Container) (pending : List Command) (d : Started)
    → c.pending ≡ pending
    → start_first c pending ≡ some d
    → Inv h c
    → Inv (record h { taken = h.taken ++ d.command ∷ [] }) d.container
unfolding start_first
start_first-Inv h c [] d p e v = cc
start_first-Inv h c (x ∷ rest) d p e v = ground (
  arith,
  append_assoc h.taken (x ∷ []) rest,
  length-append h.taken (x ∷ []),
  length-append c.progress ((c.next, x) ∷ []),
)

pub length-remove_ticket :
    (t : ℕ) (ps : List (ℕ × Command))
    → has_ticket t ps ≡ true
    → suc (length (remove_ticket t ps)) ≡ length ps
unfolding remove_ticket
length-remove_ticket t [] h = cc
length-remove_ticket t ((u, e) ∷ ps) h = ground (arith, length-remove_ticket t ps)

finish-Inv :
    (t : ℕ) (status : ℤ) (h : History) (c : Container)
    → has_ticket t c.progress ≡ true
    → Inv h c
    → Inv (record h { done = suc h.done; statuses = h.statuses ++ status ∷ [] }) (finish t status c)
unfolding finish
finish-Inv t status h c k v = record {
  fifo = v.fifo;
  counted = omega (arith, v.counted, length-remove_ticket t c.progress k);
  summed =
      ap (λ s. merge s status) v.summed
      ∙ sym (merge_all-append success h.statuses (status ∷ []) ∙ unfold merge_all in refl);
}

reset-Inv :
    (h : History) (c : Container)
    → Inv h c
    → Inv (record h { statuses = [] }) (record c { status = success })
unfolding merge_all
reset-Inv h c v = record { fifo = v.fifo; counted = v.counted; summed = refl }

-- What a call on the container of one client makes of those of all.
put-Inv :
    (id j : ℤ) (h h' : History) (c : Container) (s : Clients)
    → (id ≡ j → Inv h' c)
    → Inv h (get id s)
    → Inv (if id ==ℤ j then h' else h) (get id (put j c s))
put-Inv id j h h' c s here there =
    rw (get-put j id c s) (elim (Bool-cases (id ==ℤ j)) [
      | inl e ↦ rw e (here ((==ℤ_iff id j).0 e))
      | inr e ↦ rw e there
    ])

-- The client of the element that dequeue_any takes, and what is made of its container.
abbrev pub Takes : Clients → Dequeued → Type 0
Takes s d =
    (b : Started) × (start (get d.client s) ≡ some b)
    × (d.command ≡ b.command)
    × (d.table ≡ put d.client b.container s)

pub dequeue_any-Takes : (s : Clients) (d : Dequeued) → dequeue_any s ≡ some d → Takes s d
unfolding dequeue_any
dequeue_any-Takes s d e = elim (Option-cases (find_non_empty_pending s)) [
  | inl p ↦ absurd (let e' = rw (p, dequeue_any) at e in cc)
  | inr (id, p) ↦ elim (Option-cases (start (get id s))) [
    | inl q ↦ absurd (let e' = rw (p, dequeue_any, q, take_from) at e in cc)
    | inr (b, q) ↦
        subst (Takes s) (some-injective _ _ (rw (p, dequeue_any, q, take_from) at e))
          (b, q, refl, refl)
  ]
]

start-Inv :
    (h : History) (c : Container) (b : Started)
    → start c ≡ some b
    → Inv h c
    → Inv (record h { taken = h.taken ++ b.command ∷ [] }) b.container
unfolding start
start-Inv h c b e v = start_first-Inv h c c.pending b refl e v

pub idle_result :
    (id : ℤ) (reset : Bool) (s t : Clients) (status : ℤ)
    → wait_completion id reset s ≡ some (status, t)
    → (is_idle (get id s) ≡ true)
      × (status ≡ (get id s).status)
      × (t ≡ (if reset then put id (record (get id s) { status = success }) s else s))
unfolding wait_completion
idle_result id reset s t status e = elim (Bool-cases (is_idle (get id s))) [
  | inl p ↦
      let same = some-injective _ _ (rw p at e) in
      (p, ap (λ (x : ℤ × Clients). x.0) (sym same), ap (λ (x : ℤ × Clients). x.1) (sym same))
  | inr p ↦ absurd (let e' = rw p at e in cc)
]

-- The invariant of the table, for every client.
abbrev pub Holds : List Label → Clients → Type 0
Holds ls s = (id : ℤ) → Inv (history id ls) (get id s)

module _ (ls : List Label) (s : Clients) (v : Holds ls s) where
  abbrev at_client : (id j : ℤ) → id ≡ j → Inv (history id ls) (get j s)
  at_client id j e = subst (λ x. Inv (history id ls) (get x s)) e (v id)

  Step-Holds : {l : Label} {t : Clients} → Step s l t → Holds (l ∷ ls) t
  unfolding history note connect enqueue set_completion
  Step-Holds (connects j el et) id = rw (el, et, get-put_self id j s) (v id)
  Step-Holds (enqueues j e el et) id =
      rw (el, et) (put-Inv id j _ _ _ s (λ same. push-Inv e _ _ (at_client id j same)) (v id))
  Step-Holds (starts d e el et) id =
      let (b, q, command, table) = dequeue_any-Takes s d e in
      rw (el, et, table, command)
        (put-Inv id d.client _ _ _ s (λ same. start-Inv _ _ b q (at_client id d.client same))
          (v id))
  Step-Holds (finishes j ticket status k el et) id =
      rw (el, et)
        (put-Inv id j _ _ _ s (λ same. finish-Inv ticket status _ _ k (at_client id j same)) (v id))
  Step-Holds (reaps j true status e el) id =
      let (_, _, table) = idle_result j true s _ status e in
      rw (el, table) (put-Inv id j _ _ _ s (λ same. reset-Inv _ _ (at_client id j same)) (v id))
  Step-Holds (reaps j false status e el) id =
      let (_, _, table) = idle_result j false s _ status e in
      rw (el, table) (elim (Bool-cases (id ==ℤ j)) [ inl p ↦ rw p (v id) | inr p ↦ rw p (v id) ])

pub Run-Holds : {ls : List Label} {s : Clients} → Run ls s → Holds ls s
unfolding history get
Run-Holds begin id = fresh-Inv
Run-Holds (step {ls = ls} {s = s} r st) id = Step-Holds ls s (Run-Holds r) st id

Step-IsTable : (s : Clients) {l : Label} {t : Clients} → IsTable s → Step s l t → IsTable t
unfolding connect enqueue set_completion
Step-IsTable s v (connects j el et) = rw et (put-IsTable j _ s v)
Step-IsTable s v (enqueues j e el et) = rw et (put-IsTable j _ s v)
Step-IsTable s v (starts d e el et) =
    let (b, q, command, table) = dequeue_any-Takes s d e in
    rw (et, table) (put-IsTable d.client b.container s v)
Step-IsTable s v (finishes j ticket status k el et) = rw et (put-IsTable j _ s v)
Step-IsTable s v (reaps j true status e el) =
    let (_, _, table) = idle_result j true s _ status e in rw table (put-IsTable j _ s v)
Step-IsTable s v (reaps j false status e el) =
    let (_, _, table) = idle_result j false s _ status e in rw table v

pub Run-IsTable : {ls : List Label} {s : Clients} → Run ls s → IsTable s
Run-IsTable begin = tt
Run-IsTable (step {s = s} r st) = Step-IsTable s (Run-IsTable r) st
