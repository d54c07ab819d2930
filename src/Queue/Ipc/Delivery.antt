-- ===== src/Queue/Ipc/Delivery.antt =====
-- In every run each client's requests are taken up once and in order, and what its wait returns
-- sums up the statuses of all of them.
use veloc.Base.{
  ◌+◌, ◌≡◌, ◌≢◌, refl, ap, sym, ◌∙◌, Bool, true, false, none, some, List, [], ◌∷◌, ◌++◌, arith, inl,
  inr, length, Option-cases,
}
use mathlib.Core.List.{append-nil}
use veloc.Base.Int.{ℤ}
use veloc.Command.{Command}
use veloc.Queue.{Container, success, start, start_first, is_idle, is_empty}
use veloc.Queue.Status.{merge_all}
use veloc.Queue.Clients.{
  Clients, get, IsTable, find_non_empty_pending, find_non_empty_pending-some,
  find_non_empty_pending-none,
}
use veloc.Queue.Ipc.{take_from, wait_completion, dequeue_any}
use veloc.Queue.Ipc.History.{Label, Run, history}
use veloc.Queue.Ipc.Invariant.{Run-Holds, Run-IsTable, idle_result}

pub is_empty-eq : {A : Type 0} (xs : List A) → is_empty xs ≡ true → xs ≡ []
is_empty-eq [] _ = refl
is_empty-eq (x ∷ xs) h = cc

start_first-ne-none :
    (c : Container) (pending : List Command)
    → is_empty pending ≡ false
    → start_first c pending ≢ none
unfolding start_first
start_first-ne-none c [] h e = cc
start_first-ne-none c (x ∷ rest) h e = cc

none_found : (s : Clients) → IsTable s → dequeue_any s ≡ none → find_non_empty_pending s ≡ none
unfolding dequeue_any start
none_found s v e = elim (Option-cases (find_non_empty_pending s)) [
  | inl p ↦ p
  | inr (id, p) ↦ elim (Option-cases (start (get id s))) [
    | inl q ↦ absurd (start_first-ne-none (get id s) _ (find_non_empty_pending-some s id v p) q)
    | inr (b, q) ↦ absurd (let e' = rw (p, dequeue_any, q, take_from) at e in cc)
  ]
]

-- What a client sent is what was taken up, in the same order, and what is still pending; and each
-- request that was taken up has completed or is in progress.
pub Run-delivery :
    (ls : List Label) (s : Clients) (id : ℤ)
    → Run ls s
    → ((history id ls).sent ≡ (history id ls).taken ++ (get id s).pending)
      × (length (history id ls).taken ≡ (history id ls).done + length (get id s).progress)
Run-delivery ls s id r = let v = Run-Holds r id in (v.fifo, v.counted)

-- When a client's wait returns, all that it sent has been taken up and has completed, and the
-- status sums up what has completed since the last reset.
pub wait_completion_sound :
    (ls : List Label) (s t : Clients) (id : ℤ) (reset : Bool) (status : ℤ)
    → Run ls s
    → wait_completion id reset s ≡ some (status, t)
    → ((history id ls).taken ≡ (history id ls).sent)
      × ((history id ls).done ≡ length (history id ls).sent)
      × (status ≡ merge_all success (history id ls).statuses)
unfolding is_idle
wait_completion_sound ls s t id reset status r e =
    let v = Run-Holds r id in
    let (idle, result, _) = idle_result id reset s t status e in
    let none_pending : (get id s).pending ≡ [] = is_empty-eq _ (ground arith) in
    let none_running : (get id s).progress ≡ [] = is_empty-eq _ (ground arith) in
    let all_taken : (history id ls).sent ≡ (history id ls).taken =
      v.fifo ∙ (ap (λ x. (history id ls).taken ++ x) none_pending ∙ append-nil _) in
    (
      sym all_taken,
      omega (arith, v.counted, ap length none_running, ap length all_taken),
      result ∙ v.summed,
    )

-- The backend waits for a request only when it has taken up all that the clients have sent.
pub dequeue_any_waits :
    (ls : List Label) (s : Clients)
    → Run ls s
    → dequeue_any s ≡ none
    → (id : ℤ) → (history id ls).taken ≡ (history id ls).sent
dequeue_any_waits ls s r e id =
    let v = Run-Holds r id in
    let none_pending =
      is_empty-eq _ (find_non_empty_pending-none s id (none_found s (Run-IsTable r) e)) in
    sym (v.fifo ∙ (ap (λ x. (history id ls).taken ++ x) none_pending ∙ append-nil _))
