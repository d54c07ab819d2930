-- ===== src/Queue/Socket/Connections/Rounds.antt =====
-- What a round of the loop over the sockets makes of the clients' lists.
use veloc.Base.{
  ◌≡◌, refl, sym, ap, ◌∙◌, true, false, ◌&&◌, Option, none, some, List, [], ◌∷◌, ◌++◌,
  if◌then◌else◌, if-elim, append_assoc, append-nil, inl, inr, Bool-cases, Option-cases, arith,
  subst,
}
use mathlib.Core.Option.{some-injective}
use veloc.Base.Int.{ℤ, negsuc, ◌==ℤ◌, ==ℤ_iff}
use veloc.Command.{Command}
use veloc.Queue.{Container, push, is_idle}
use veloc.Queue.Socket.{
  Client, ClientMap, get, put, Reply, send_wait_reply, is_status, enqueue, first_free, slot,
}
use veloc.Queue.Socket.Wakeup.{Reachable, step, enqueues}
use veloc.Queue.Socket.Connections.{
  Revent, quiet, sent, hung_up, Loop, Served, receive, serve, accept, store, serve_all, welcome,
  round,
}

-- What is left to do after a command: nothing, if it only asks for a reply.
abbrev pub work : Command → List Command
work e = if is_status e.command then [] else e ∷ []

-- The work that a round reads for a client.
unfoldable pub requests : ℤ → List ℤ → List Revent → List Command
requests id [] events = []
requests id (fd ∷ fds) [] = []
requests id (fd ∷ fds) (quiet ∷ events) = requests id fds events
requests id (fd ∷ fds) (hung_up ∷ events) = requests id fds events
requests id (fd ∷ fds) (sent e ∷ events) =
    (if id ==ℤ fd then work e else []) ++ requests id fds events

get-put :
    (i j : ℤ) (q : Client) (qs : ClientMap) → get j (put i q qs) ≡ (if j ==ℤ i then q else get j qs)
unfolding get put
get-put i j q [] = refl
get-put i j q ((k, p) ∷ qs) =
    ground (arith, ==ℤ_iff i k, ==ℤ_iff j k, ==ℤ_iff j i, get-put i j q qs)

put-adds :
    (id sock : ℤ) (q : Client) (qs : ClientMap) (added : List Command)
    → q.lists.pending ≡ (get sock qs).lists.pending ++ added
    → (get id (put sock q qs)).lists.pending
      ≡ (get id qs).lists.pending ++ (if id ==ℤ sock then added else [])
put-adds id sock q qs added h = rw (get-put sock id q qs) (elim (Bool-cases (id ==ℤ sock)) [
  | inl e ↦ rw e (h ∙ ap (λ x. (get x qs).lists.pending ++ added) (sym ((==ℤ_iff id sock).0 e)))
  | inr e ↦ rw e (sym (append-nil _))
])

send_wait_reply-pending : (q : Client) → (send_wait_reply q).1.lists.pending ≡ q.lists.pending
unfolding send_wait_reply
send_wait_reply-pending q =
    if-elim (λ (r : Reply × Client). r.1.lists.pending ≡ q.lists.pending)
      (q.waiting && is_idle q.lists) _ _
      (λ _.
        if-elim (λ (c : Container). c.pending ≡ q.lists.pending) q.reset_status _ _ (λ _. refl)
          (λ _. refl))
      (λ _. refl)

enqueue-adds :
    (id sock : ℤ) (e : Command) (qs : ClientMap)
    → (get id (enqueue e sock qs).1).lists.pending
      ≡ (get id qs).lists.pending ++ (if id ==ℤ sock then work e else [])
unfolding enqueue push
enqueue-adds id sock e qs = elim (Bool-cases (is_status e.command)) [
  | inl st ↦
      rw (enqueue, st) (put-adds id sock _ qs [] (send_wait_reply-pending _ ∙ sym (append-nil _)))
  | inr st ↦ rw (enqueue, st) (put-adds id sock _ qs (e ∷ []) refl)
]

serve-adds :
    (id : ℤ) (fds : List ℤ) (events : List Revent) (qs : ClientMap)
    → (get id (serve fds events qs).loop.table).lists.pending
      ≡ (get id qs).lists.pending ++ requests id fds events
unfolding serve receive requests
serve-adds id [] events qs = sym (append-nil _)
serve-adds id (fd ∷ fds) [] qs = sym (append-nil _)
serve-adds id (fd ∷ fds) (quiet ∷ events) qs = serve-adds id fds events qs
serve-adds id (fd ∷ fds) (hung_up ∷ events) qs = serve-adds id fds events qs
serve-adds id (fd ∷ fds) (sent e ∷ events) qs =
    serve-adds id fds events (enqueue e fd qs).1
    ∙ ap (λ x. x ++ requests id fds events) (enqueue-adds id fd e qs)
    ∙ append_assoc (get id qs).lists.pending (if id ==ℤ fd then work e else [])
        (requests id fds events)

welcome-table :
    (incoming : Option ℤ) (s t : Served) → welcome incoming s ≡ some t → t.loop.table ≡ s.loop.table
unfolding welcome
welcome-table none s t e = ap (λ (x : Served). x.loop.table) (sym (some-injective _ _ e))
welcome-table (some client) s t e = elim (Option-cases (accept client s.loop.fds)) [
  | inl n ↦ absurd (let e' = rw (welcome, n) at e in cc)
  | inr (fds, n) ↦
      ap (λ (x : Served). x.loop.table) (sym (some-injective _ _ (rw (welcome, n) at e)))
]

serve-Reachable :
    (fds : List ℤ) (events : List Revent) (qs : ClientMap)
    → Reachable qs
    → Reachable (serve fds events qs).loop.table
unfolding serve receive
serve-Reachable [] events qs r = r
serve-Reachable (fd ∷ fds) [] qs r = r
serve-Reachable (fd ∷ fds) (quiet ∷ events) qs r = serve-Reachable fds events qs r
serve-Reachable (fd ∷ fds) (hung_up ∷ events) qs r = serve-Reachable fds events qs r
serve-Reachable (fd ∷ fds) (sent e ∷ events) qs r =
    serve-Reachable fds events _ (step r (enqueues e fd))

serve_all-Reachable :
    (fds : List ℤ) (events : List Revent) (qs : ClientMap)
    → Reachable qs
    → Reachable (serve_all fds events qs).loop.table
unfolding serve_all
serve_all-Reachable [] events qs r = serve-Reachable [] events qs r
serve_all-Reachable (listener ∷ fds) events qs r = serve-Reachable fds events qs r

-- What a round does to the map is a run of the steps of Wakeup.
pub round-Reachable :
    (events : List Revent) (incoming : Option ℤ) (l : Loop) (s : Served)
    → round events incoming l ≡ some s
    → Reachable l.table
    → Reachable s.loop.table
unfolding round
round-Reachable events incoming l s e r =
    subst Reachable (sym (welcome-table incoming _ s e))
      (serve_all-Reachable l.fds events l.table r)

-- A round of the loop over the sockets puts the requests that its connections sent at the end of the
-- pending requests of their clients, each in the list of the client with the number of its socket
-- and in the order of the connections, and changes no list of pending requests in another way, also
-- where a client closes its connection or another one is accepted.
pub round_delivers :
    (id listener : ℤ) (fds : List ℤ) (events : List Revent) (incoming : Option ℤ) (qs : ClientMap)
    (s : Served)
    → round events incoming (record { fds = listener ∷ fds; table = qs }) ≡ some s
    → (get id s.loop.table).lists.pending ≡ (get id qs).lists.pending ++ requests id fds events
unfolding round serve_all
round_delivers id listener fds events incoming qs s e =
    ap (λ t. (get id t).lists.pending) (welcome-table incoming _ s e) ∙ serve-adds id fds events qs

second_slot :
    (listener : ℤ) → (listener ==ℤ negsuc 0) ≡ false → slot (listener ∷ negsuc 0 ∷ []) ≡ some 1
unfolding slot first_free ◌==ℤ◌
second_slot listener valid = rw (slot, first_free, valid) refl

accept_again :
    (listener sock : ℤ)
    → (listener ==ℤ negsuc 0) ≡ false
    → accept sock (listener ∷ negsuc 0 ∷ []) ≡ some (listener ∷ sock ∷ [])
unfolding accept store
accept_again listener sock valid = rw (accept, second_slot listener valid) refl

reconnects :
    (listener sock : ℤ) (qs : ClientMap)
    → (listener ==ℤ negsuc 0) ≡ false
    → (s : Served)
    → round (hung_up ∷ []) (some sock) (record { fds = listener ∷ sock ∷ []; table = qs }) ≡ some s
    → s.loop ≡ record { fds = listener ∷ sock ∷ []; table = qs }
unfolding round serve_all serve receive welcome
reconnects listener sock qs valid s e =
    ap (λ (x : Served). x.loop)
      (sym (some-injective _ _ (rw (round, welcome, accept_again listener sock valid) at e)))

status_replies :
    (wait : Command) (sock : ℤ) (qs : ClientMap)
    → is_status wait.command ≡ true
    → is_idle (get sock qs).lists ≡ true
    → (enqueue wait sock qs).0 ≡ some (sock, (get sock qs).lists.status)
unfolding enqueue send_wait_reply
status_replies wait sock qs st idle = rw (st, idle) refl

-- The lists of a client stay with the number of its socket when it closes its connection. The next
-- client whose socket has that number and that waits before it has asked for anything is sent the
-- status of the one before it.
pub number_reused :
    (listener sock : ℤ) (wait : Command) (qs : ClientMap)
    → (listener ==ℤ negsuc 0) ≡ false
    → is_status wait.command ≡ true
    → is_idle (get sock qs).lists ≡ true
    → (s t : Served)
    → round (hung_up ∷ []) (some sock) (record { fds = listener ∷ sock ∷ []; table = qs }) ≡ some s
    → round (sent wait ∷ []) none s.loop ≡ some t
    → t.replies ≡ some (sock, (get sock qs).lists.status) ∷ []
unfolding round serve_all serve receive welcome
number_reused listener sock wait qs valid st idle s t e f =
    let f' = rw (reconnects listener sock qs valid s e) at f in
    ap (λ (x : Served). x.replies) (sym (some-injective _ _ f'))
    ∙ ap (λ r. r ∷ []) (status_replies wait sock qs st idle)
