-- ===== src/Queue/Clients.antt =====
-- The table of the clients' containers: the named objects of the shared segment of ipc_queue.hpp,
-- and client_map of the other two queues. The order of the list is the order in which the table
-- is gone through, which the libraries leave open; a client that is new comes last.
use veloc.Base.{
  ◌≡◌, refl, ap, sym, true, false, Option, none, some, List, [], ◌∷◌, arith, if◌then◌else◌, inl,
  inr, Bool-cases,
}
use veloc.Base.Int.{ℤ, ◌==ℤ◌, ==ℤ_iff, ==ℤ_refl}
use veloc.Queue.{Container, fresh, is_empty}

abbrev pub Clients : Type 0
Clients = List (ℤ × Container)

-- client_map[id], or the named object: a client that has none is given a fresh one.
unfoldable pub get : ℤ → Clients → Container
get id [] = fresh
get id ((j, c) ∷ cs) = if id ==ℤ j then c else get id cs

-- The table with the container of one client changed.
unfoldable pub put : ℤ → Container → Clients → Clients
put id c [] = (id, c) ∷ []
put id c ((j, d) ∷ cs) = if id ==ℤ j then (j, c) ∷ cs else (j, d) ∷ put id c cs

-- find_non_empty_pending
unfoldable pub find_non_empty_pending : Clients → Option ℤ
find_non_empty_pending [] = none
find_non_empty_pending ((j, c) ∷ cs) =
    if is_empty c.pending then find_non_empty_pending cs else some j

pub get-put :
    (i j : ℤ) (c : Container) (cs : Clients)
    → get j (put i c cs) ≡ (if j ==ℤ i then c else get j cs)
unfolding get put
get-put i j c [] = refl
get-put i j c ((k, d) ∷ cs) =
    ground (arith, ==ℤ_iff i k, ==ℤ_iff j k, ==ℤ_iff j i, get-put i j c cs)

pub get-put_self : (i j : ℤ) (cs : Clients) → get i (put j (get j cs) cs) ≡ get i cs
get-put_self i j cs = rw (get-put j i (get j cs) cs) (elim (Bool-cases (i ==ℤ j)) [
  | inl e ↦ rw e (ap (λ x. get x cs) (sym ((==ℤ_iff i j).0 e)))
  | inr e ↦ rw e refl
])

-- No client is listed twice.
abbrev pub Lacks : ℤ → Clients → Type 0
Lacks id [] = Unit
Lacks id ((j, _) ∷ cs) = ((id ==ℤ j) ≡ false) × Lacks id cs

abbrev pub IsTable : Clients → Type 0
IsTable [] = Unit
IsTable ((j, _) ∷ cs) = Lacks j cs × IsTable cs

Lacks-put :
    (i j : ℤ) (c : Container) (cs : Clients)
    → ((i ==ℤ j) ≡ false)
    → Lacks i cs
    → Lacks i (put j c cs)
unfolding put
Lacks-put i j c [] h _ = (h, tt)
Lacks-put i j c ((k, d) ∷ cs) h (hk, hs) = ground (arith, Lacks-put i j c cs h hs)

pub put-IsTable : (i : ℤ) (c : Container) (cs : Clients) → IsTable cs → IsTable (put i c cs)
unfolding put
put-IsTable i c [] _ = (tt, tt)
put-IsTable i c ((k, d) ∷ cs) (l, t) =
    ground (arith, put-IsTable i c cs t, Lacks-put k i c cs, ==ℤ_iff k i, ==ℤ_iff i k)

find-Lacks :
    (i j : ℤ) (cs : Clients) → Lacks j cs → find_non_empty_pending cs ≡ some i → (i ==ℤ j) ≡ false
unfolding find_non_empty_pending
find-Lacks i j [] _ h = cc
find-Lacks i j ((k, d) ∷ cs) (l, ls) h =
    ground (arith, find-Lacks i j cs ls, ==ℤ_iff i j, ==ℤ_iff j k)

-- The client that is found has a pending element, and none is found only if there is none.
pub find_non_empty_pending-some :
    (cs : Clients) (i : ℤ)
    → IsTable cs
    → find_non_empty_pending cs ≡ some i
    → is_empty (get i cs).pending ≡ false
unfolding find_non_empty_pending get
find_non_empty_pending-some [] i _ h = cc
find_non_empty_pending-some ((k, d) ∷ cs) i (l, t) h =
    ground (arith, find_non_empty_pending-some cs i t, find-Lacks i k cs l, ==ℤ_refl k)

pub find_non_empty_pending-none :
    (cs : Clients) (i : ℤ) → find_non_empty_pending cs ≡ none → is_empty (get i cs).pending ≡ true
unfolding find_non_empty_pending get
find_non_empty_pending-none [] i h = refl
find_non_empty_pending-none ((k, d) ∷ cs) i h = ground (arith, find_non_empty_pending-none cs i)
