-- ===== src/Queue/Spec/Laws.antt =====
-- What the abstract machine promises, and with it every queue that is an Implementation.
use veloc.Base.{
  ◌+◌, ◌≡◌, refl, ap, sym, ◌∙◌, subst, Bool, true, false, List, [], ◌∷◌, ◌++◌, arith, inl, inr,
  append_assoc, append-nil, length, length-append, Bool-cases,
}
use veloc.Base.Int.{ℤ, ◌==ℤ◌, ==ℤ_iff}
use veloc.Queue.{success, merge}
use veloc.Queue.Status.{merge_all, merge_all-append}
use veloc.Queue.Ipc.History.{
  Label, connected, enqueued, started, finished, reaped, History, note, history,
}
use veloc.Queue.Spec.{
  Jobs, State, effect, client_of, Allowed, Trace, begin, event, Implementation, Reached, initially,
  further, behind,
}

-- Every run of an implementation is one of the abstract machine.
pub Reached-Trace :
    (I : Implementation) {ls : List Label} {s : I.Table} → Reached I ls s → Trace ls (I.jobs s)
Reached-Trace I initially = begin I.starts_idle
Reached-Trace I (further {s = s} {t = t} r st) = event (Reached-Trace I r) (I.simulates s t _ st)

-- The jobs of a client are what its history leaves to be done.
record Promise (h : History) (a : Jobs) : Type 0 where
  pub fifo : h.sent ≡ h.taken ++ a.waiting
  pub counted : length h.taken ≡ h.done + a.running
  pub summed : a.verdict ≡ merge_all success h.statuses

module _ (id : ℤ) (h : History) (a : Jobs) (v : Promise h a) where
  effect-Promise :
      (l : Label) → (id ==ℤ client_of l) ≡ true → Allowed l a → Promise (note id l h) (effect l a)
  unfolding note effect merge_all
  effect-Promise (connected j) own _ = v
  effect-Promise (enqueued j e) own _ = rw own (record {
    fifo = ap (λ x. x ++ e ∷ []) v.fifo ∙ append_assoc h.taken a.waiting (e ∷ []);
    counted = v.counted;
    summed = v.summed;
  })
  effect-Promise (started j e) own (rest, w) = rw own (record {
    fifo =
        v.fifo
        ∙ (ap (λ x. h.taken ++ x) w
            ∙ (sym (append_assoc h.taken (e ∷ []) rest)
                ∙ ap (λ x. (h.taken ++ e ∷ []) ++ behind x) (sym w)));
    counted = omega (arith, v.counted, length-append h.taken (e ∷ []));
    summed = v.summed;
  })
  effect-Promise (finished j status) own (n, w) = rw own (record {
    fifo = v.fifo;
    counted = omega (arith, v.counted, w);
    summed =
        ap (λ s. merge s status) v.summed
        ∙ sym (merge_all-append success h.statuses (status ∷ []) ∙ unfold merge_all in refl);
  })
  effect-Promise (reaped j true status) own w =
      rw own (record { fifo = v.fifo; counted = v.counted; summed = refl })
  effect-Promise (reaped j false status) own w = rw own v

other-note : (id : ℤ) (l : Label) (h : History) → (id ==ℤ client_of l) ≡ false → note id l h ≡ h
unfolding note
other-note id (connected j) h e = refl
other-note id (enqueued j x) h e = rw e refl
other-note id (started j x) h e = rw e refl
other-note id (finished j x) h e = rw e refl
other-note id (reaped j r x) h e = rw e refl

Trace-Promise :
    {ls : List Label} {s : State} → Trace ls s → (id : ℤ) → Promise (history id ls) (s id)
unfolding history merge_all
Trace-Promise (begin e) id = rw (e id) (record { fifo = refl; counted = refl; summed = refl })
Trace-Promise (event {ls = ls} {l = l} {s = s} r (ok, e)) id =
    let v = Trace-Promise r id in
    rw (e id) (elim (Bool-cases (id ==ℤ client_of l)) [
      | inl own ↦ rw own (
          effect-Promise id (history id ls) (s id) v l own
            (subst (λ j. Allowed l (s j)) (sym ((==ℤ_iff id (client_of l)).0 own)) ok))
      | inr e' ↦ rw (e', other-note id l (history id ls) e') v
    ])

-- In every queue that is an implementation, when a client's wait returns, all that it has sent has
-- been taken up in order and has completed, and the status sums up what has completed since the
-- last reset.
pub reaped_sound :
    (I : Implementation) (ls : List Label) (s t : I.Table) (id : ℤ) (reset : Bool) (status : ℤ)
    → Reached I ls s
    → I.Step s (reaped id reset status) t
    → ((history id ls).taken ≡ (history id ls).sent)
      × ((history id ls).done ≡ length (history id ls).sent)
      × (status ≡ merge_all success (history id ls).statuses)
reaped_sound I ls s t id reset status r st =
    let v = Trace-Promise (Reached-Trace I r) id in
    let ((none_waiting, none_running, result), _) = I.simulates s t (reaped id reset status) st in
    let all_taken : (history id ls).sent ≡ (history id ls).taken =
      v.fifo ∙ (ap (λ x. (history id ls).taken ++ x) none_waiting ∙ append-nil _) in
    (sym all_taken, omega (arith, v.counted, none_running, ap length all_taken), result ∙ v.summed)
