-- ===== src/Queue/Thallium/Lost.antt =====
-- What a client of the queue over remote calls is not told: a failure that its first poll resets, and
-- where the address of the engine ends.
use veloc.Base.{
  ℕ, ◌≡◌, ◌≢◌, refl, ap, sym, ◌∙◌, true, false, some, List, [], ◌∷◌, ◌++◌, ◌==◌, ==_iff, arith, inl,
  inr, Bool-cases, if_true, if_false, length, leb, take_all, All,
}
use mathlib.Core.Option.{some-injective}
use veloc.Base.Int.{ℤ, pos, negsuc, ◌==ℤ◌, ==ℤ_refl}
use veloc.Base.Bytes.{Bytes, bytes_eq_refl}
use veloc.FileSystem.{FileSystem, WriteLaws}
use veloc.FileUtil.{file_size, read_file, write_file}
use veloc.Queue.{Container, success}
use veloc.Queue.Clients.{Clients, get, put, get-put}
use veloc.Queue.Thallium.{start_engine, connect, c_string, size, reset_if, poll, wait_completion}

put-put : (id : ℤ) (c d : Container) (s : Clients) → put id c (put id d s) ≡ put id c s
unfolding put
put-put id c d [] = rw (==ℤ_refl id) refl
put-put id c d ((j, x) ∷ s) = elim (Bool-cases (id ==ℤ j)) [
  | inl e ↦ rw (e, put, e) refl
  | inr e ↦ rw (e, put, e) (ap (λ t. (j, x) ∷ t) (put-put id c d s))
]

get_new : (id : ℤ) (c : Container) (s : Clients) → get id (put id c s) ≡ c
get_new id c s = get-put id id c s ∙ if_true (id ==ℤ id) c (get id s) (==ℤ_refl id)

abbrev with_status : ℤ → ℤ → Clients → Clients
with_status id r s = put id (record (get id s) { status = r }) s

reset_again : (id r : ℤ) (s : Clients) → reset_if true id (with_status id r s) ≡ reset_if true id s
reset_again id r s =
    ap (λ c. put id (record c { status = success }) (with_status id r s))
      (get_new id (record (get id s) { status = r }) s)
    ∙ put-put id (record (get id s) { status = success }) (record (get id s) { status = r }) s

same_size : (id r : ℤ) (s : Clients) → size (get id (with_status id r s)) ≡ size (get id s)
unfolding size
same_size id r s = ap size (get_new id (record (get id s) { status = r }) s)

-- A client that waits with its status reset, as it does unless told otherwise, and still has
-- something to be done when it first asks, is returned the same whatever its status was: what the
-- commands that completed before that first poll returned, a failure included, is not reported.
pub wait_completion_forgets :
    (id r : ℤ) (sleep : Clients → Clients) (sleeps : List (Clients → Clients)) (s : Clients)
    → size (get id s) ≢ 0
    → wait_completion id true (sleep ∷ sleeps) (put id (record (get id s) { status = r }) s)
      ≡ wait_completion id true (sleep ∷ sleeps) s
unfolding wait_completion poll
wait_completion_forgets id r sleep sleeps s busy =
    let e : (size (get id s) == 0) ≡ false = elim (Bool-cases (size (get id s) == 0)) [
      | inl p ↦ absurd (busy ((==_iff _ _).0 p))
      | inr p ↦ p
    ] in
    let e' = ap (λ n. n == 0) (same_size id r s) ∙ e in
    if_false _ _ _ e'
    ∙ (ap (λ t. wait_completion id true sleeps (sleep t)) (reset_again id r s)
        ∙ sym (if_false _ _ _ e))

abbrev pub IsText : Bytes → Type 0
IsText = All (λ b. b ≢ 0)

c_string-append :
    (url behind : Bytes) → IsText url → c_string (url ++ behind) ≡ url ++ c_string behind
unfolding c_string
c_string-append [] behind _ = refl
c_string-append (b ∷ bs) behind (h, hs) =
    if_false (b == 0) _ _ (ground (arith, ==_iff b 0)) ∙ ap (◌∷◌ b) (c_string-append bs behind hs)

leb_refl : (n : ℕ) → leb n n ≡ true
leb_refl n = ground arith

size_nonneg : (n : ℕ) → (pos n ==ℤ negsuc 0) ≡ false
unfolding ◌==ℤ◌
size_nonneg n = ground arith

size_is :
    (F : FileSystem) (fs : F.State) (p b : Bytes)
    → F.contents fs p ≡ some b
    → file_size F fs p ≡ pos (length b)
unfolding file_size
size_is F fs p b e = rw (file_size, e) refl

read_is :
    (F : FileSystem) (fs : F.State) (p b : Bytes)
    → F.contents fs p ≡ some b
    → read_file F fs p (length b) ≡ some b
unfolding read_file
read_is F fs p b e = rw (read_file, e, leb_refl (length b), take_all b) refl

-- A client that connects to the backend that has written its address looks up the address followed
-- by whatever lies in memory behind the client's buffer, up to the next zero.
pub connect-start_engine :
    (F : FileSystem) (laws : WriteLaws F) (channel url behind : Bytes) (fs fs' : F.State)
    → IsText url
    → start_engine F channel url fs ≡ some fs'
    → connect F channel behind fs' ≡ some (url ++ c_string behind)
unfolding start_engine connect write_file
connect-start_engine F laws channel url behind fs fs' text e =
    elim (Bool-cases (F.write fs channel url).0) [
      | inr p ↦ absurd (let e' = rw p at e in cc)
      | inl p ↦
          let same : (F.write fs channel url).1 ≡ fs' = some-injective _ _ (rw p at e) in
          let there : F.contents fs' channel ≡ some url =
            ap (λ t. F.contents t channel) (sym same)
            ∙ (laws.contents-write fs channel channel url p
                ∙ if_true _ _ _ (bytes_eq_refl channel)) in
          rw
            (
              size_is F fs' channel url there,
              size_nonneg (length url),
              read_is F fs' channel url there,
            )
            (ap some (c_string-append url behind text))
    ]
