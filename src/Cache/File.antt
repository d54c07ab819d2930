-- ===== src/Cache/File.antt =====
-- posix_cached_file_t: the object of one open file. What the calls of the system return is an
-- argument: one answer for open, and for the loops over pread and pwrite a list of them.
use veloc.Base.{
  ℕ, ◌+◌, ◌-◌, ◌<◌, ◌≡◌, refl, ◌∙◌, Bool, true, false, not, ◌&&◌, ◌||◌, Option, none, some, List,
  [], ◌∷◌, ◌==◌, if◌then◌else◌, arith,
}
use veloc.Base.Int.{ℤ, pos, negsuc, ◌==ℤ◌, ==ℤ_refl, ltb_ℤ, pos_part}
use veloc.Client.Memory.{Memory, read_mem, write_mem, within, write_mem-read_mem, read_mem-cong}
use veloc.Cache.Async.{write, close, Context, send_command}

abbrev pub closed : ℤ
closed = negsuc 0

pub record File : Type 0 where
  pub fl : ℤ
  pub fr : ℤ

unfoldable pub open_file : ℤ → ℤ → File → Bool × File
open_file l r f =
    if not (f.fl ==ℤ closed) || not (f.fr ==ℤ closed)
    then (false, f)
    else if l ==ℤ closed
    then (false, record f { fl = l })
    else if r ==ℤ closed
    then (false, record { fl = l; fr = r })
    else (true, record { fl = l; fr = r })

-- Whether both descriptors are there.
abbrev pub is_open : File → Bool
is_open f = not (f.fl ==ℤ closed) && not (f.fr ==ℤ closed)

close_with : File → Option Context → Option (File × Context)
close_with f none = none
close_with f (some s) = some (record { fl = closed; fr = closed }, s)

-- The operation waits as long as send_command does.
unfoldable pub close_file : ℕ → File → Context → Option (File × Context)
unfolding close_with
close_file max f s =
    if is_open f then close_with f (send_command max (close f.fl f.fr 0 0) s) else some (f, s)

-- The loop of pwrite over the answers of the system; `none` is an answer that is still awaited.
unfoldable pub write_loop : List ℤ → ℕ → Option Bool
write_loop [] count = if count == 0 then some true else none
write_loop (br ∷ rest) count =
    let next = write_loop rest (count - pos_part br) in
    if count == 0 then some true else if br ==ℤ closed then some false else next

write_with : Option Context → Option (Bool × Context)
write_with none = none
write_with (some s) = some (true, s)

written : ℕ → File → ℕ → ℕ → Context → Option Bool → Option (Bool × Context)
unfolding write_with
written max f n offset s none = none
written max f n offset s (some false) = some (false, s)
written max f n offset s (some true) = write_with (send_command max (write f.fl f.fr offset n) s)

unfoldable pub pwrite : ℕ → List ℤ → File → ℕ → ℕ → Context → Option (Bool × Context)
unfolding written
pwrite max answers f n offset s =
    if is_open f then written max f n offset s (write_loop answers n) else some (false, s)

-- The loop of pread: `content` is the remote file, and every answer's bytes go to `buf`, which the
-- loop does not move.
unfoldable pub read_loop : Memory → ℕ → List ℤ → ℕ → ℕ → Memory → Option (Bool × Memory)
read_loop content buf [] count offset m = if count == 0 then some (true, m) else none
read_loop content buf (br ∷ rest) count offset m =
    let next =
      read_loop content buf rest (count - pos_part br) (offset + pos_part br)
        (write_mem buf (read_mem content offset (pos_part br)) m) in
    if count == 0 then some (true, m) else if not (ltb_ℤ (pos 0) br) then some (false, m) else next

unfoldable pub pread : Memory → List ℤ → File → ℕ → ℕ → ℕ → Memory → Option (Bool × Memory)
pread content answers f buf count offset m =
    if is_open f then read_loop content buf answers count offset m else some (false, m)

-- The calls that open and close the file.
pub data FileCall : Type 0 where
  opens : ℤ → ℤ → FileCall
  closes : ℕ → Context → FileCall

abbrev kept_file : File → Option (File × Context) → File
kept_file f none = f
kept_file f (some (g, s)) = g

abbrev pub after : List FileCall → File → File
after [] f = f
after (opens l r ∷ calls) f = after calls (open_file l r f).1
after (closes max s ∷ calls) f = after calls (kept_file f (close_file max f s))

half_open : (l : ℤ) → (l ==ℤ closed) ≡ false → (not (l ==ℤ closed) || false) ≡ true
half_open l h = rw h refl

after-half_open :
    (l : ℤ) (calls : List FileCall)
    → (l ==ℤ closed) ≡ false
    → after calls (record { fl = l; fr = closed }) ≡ record { fl = l; fr = closed }
unfolding open_file close_file
after-half_open l [] h = refl
after-half_open l (opens x y ∷ calls) h = rw h (after-half_open l calls h)
after-half_open l (closes max s ∷ calls) h = rw (h, ==ℤ_refl closed) (after-half_open l calls h)

-- If only the second open of a file fails, the object stays half open: whatever is opened and closed
-- from then on, no open succeeds any more.
pub never_opens_again :
    (l : ℤ) (calls : List FileCall) (l' r' : ℤ)
    → (l ==ℤ closed) ≡ false
    → (open_file l' r' (after calls (open_file l closed (record { fl = closed; fr = closed })).1)).0
      ≡ false
unfolding open_file
never_opens_again l calls l' r' h = rw (==ℤ_refl closed, h, after-half_open l calls h, h) refl

inside : (q n i : ℕ) → i < n → (within q n (q + i) ≡ true) × (q + i - q ≡ i)
inside q n i h = ground arith

overwritten :
    (content m : Memory) (p q n : ℕ)
    → read_mem (write_mem q (read_mem content p n) m) q n ≡ read_mem content p n
overwritten content m p q n = read_mem-cong _ content q p n λ i h.
    let (w, o) = inside q n i h in write_mem-read_mem content m p q n (q + i) ∙ rw (w, o) refl

-- A pread that the system answers in two parts returns true, and leaves the bytes of the second
-- part where those of the first belong.
pub pread_short :
    (content : Memory) (f : File) (buf n k offset : ℕ) (m : Memory)
    → is_open f ≡ true
    → 0 < n
    → 0 < k
    → (m' : Memory) × (pread content (pos n ∷ pos k ∷ []) f buf (n + k) offset m ≡ some (true, m'))
      × (read_mem m' buf k ≡ read_mem content (offset + n) k)
unfolding pread read_loop
pread_short content f buf n k offset m on hn hk =
    let a : (n + k == 0) ≡ false = ground arith in
    let b : (k == 0) ≡ false = ground arith in
    let p : ltb_ℤ (pos 0) (pos n) ≡ true = ground arith in
    let q : ltb_ℤ (pos 0) (pos k) ≡ true = ground arith in
    let c : n + k - n ≡ k = omega arith in
    let d : k - k ≡ 0 = omega arith in
    (
      write_mem buf (read_mem content (offset + n) k) (write_mem buf (read_mem content offset n) m),
      rw (on, a, p, c, b, q, d) refl,
      overwritten content (write_mem buf (read_mem content offset n) m) (offset + n) buf k,
    )
