-- ===== src/Client/Order.antt =====
-- The order of the calls: what holds of the client's state whatever calls an application makes.
use veloc.Base.{
  ℕ, ◌≡◌, refl, sym, subst, ◌∙◌, Bool, true, false, not, ◌||◌, Option, none, some, ◌==◌, if-elim,
  inl, inr, Bool-cases, arith, ltb, length, ◌+◌,
}
use veloc.Base.Int.{ℤ, pos, ltb_ℤ, ◌==ℤ◌}
use veloc.Base.Bytes.{Bytes}
use veloc.Command
use veloc.Command.{path_max, Command, Opcode, c_str, ckpt_name_max}
use veloc.Command.Name.{validate_name}
use veloc.FileSystem.{FileSystem}
use veloc.Client.Memory.{Memory}
use veloc.Client.State.{
  Config, Client, Backend, Serializer, Deserializer, Observer, Comm, Mode, single, parallel,
  Outcome, returns, get_current_ckpt_regions, mem_protect, mem_protect_object, mem_unprotect,
  mem_clear, register_observer,
}
use veloc.Client.Checkpoint.{
  route_file, routed, absolute_path, Select, Ids, checkpoint_begin, checkpoint_mem, checkpoint_end,
  begin_with, aggregate, share_offsets, send_checkpoint,
}
use veloc.Client.Restart.{
  restart_begin, recover_size, recover_mem, recover_with, read_regions_of, ending, ensure_header,
  read_current_header, with_header, Progress, going, stopped, escaped, begin_again,
}
use veloc.Client.Request.{IsOwnRequest, make-IsOwnRequest}
use veloc.Client.Groups.{checkpoint_mem_client, checkpoint_mem_idle}

module _ {F : FileSystem} (B : Backend F) (cfg : Config) where
  abbrev pub IsValid : Client F → Type 0
  IsValid c = c.checkpoint_in_progress ≡ true → IsOwnRequest cfg c.current_ckpt

  -- The calls that an application can make, each over any state of the files and of its memory;
  -- `checkpoint` and `restart` are sequences of them.
  pub data Call : Client F → Client F → Type 0 where
    begins :
        {c c' : Client F} (name : Bytes) (version : ℤ) (b : Bool)
        → checkpoint_begin cfg name version c ≡ returns (b, c')
        → Call c c'
    writes :
        {c c' : Client F} (sel : Select) (ids : Ids) (m : Memory) (fs fs' : F.State) (b : Bool)
        → checkpoint_mem cfg sel ids m c fs ≡ returns (b, c', fs')
        → Call c c'
    ends : {c : Client F} (fs : F.State) → Call c (checkpoint_end B cfg c fs).1
    restarts :
        {c c' : Client F} (name : Bytes) (version target_rank : ℤ) (fs fs' : F.State) (b : Bool)
        → restart_begin B cfg name version target_rank c fs ≡ returns (b, c', fs')
        → Call c c'
    sizes : {c : Client F} (id : ℤ) (fs : F.State) → Call c (recover_size cfg id c fs).1
    recovers :
        {c c' : Client F} (mode : Select) (ids : Ids) (m m' : Memory) (fs : F.State) (b : Bool)
        → recover_mem cfg mode ids m c fs ≡ returns (b, c', m')
        → Call c c'
    routes :
        {c c' : Client F} (cwd : Option Bytes) (original path : Bytes)
        → route_file cfg cwd original c ≡ returns (path, c')
        → Call c c'
    protects :
        {c : Client F} (id : ℤ) (ptr count base_size : ℕ) (name : Bytes)
        → Call c (mem_protect id ptr count base_size name c).1
    protects_object :
        {c : Client F} (id : ℤ) (s : Serializer) (d : Deserializer) (name : Bytes)
        → Call c (mem_protect_object id s d name c).1
    unprotects : {c : Client F} (id : ℤ) (name : Bytes) → Call c (mem_unprotect id name c).1
    clears : {c : Client F} (name : Bytes) → Call c (mem_clear name c)
    registers :
        {c : Client F} (type : ℤ) (obs : Observer F) → Call c (register_observer type obs c).1

  -- What a call returns, if it returns.
  abbrev Begun : Outcome (Bool × Client F) → Type 0
  Begun (returns (b, c)) = IsValid c
  Begun _ = Unit

  abbrev Restarted : Outcome (Bool × Client F × F.State) → Type 0
  Restarted (returns (b, c, fs)) = IsValid c
  Restarted _ = Unit

  abbrev Recovered : Outcome (Bool × Client F × Memory) → Type 0
  Recovered (returns (b, c, m)) = IsValid c
  Recovered _ = Unit

  accepted : (a b : Bool) → (not a || b) ≡ false → (a ≡ true) × (b ≡ false)
  accepted a b e = ground arith

  begin_with-IsValid :
      (c : Client F) (name : Bytes) (version : ℤ) (o : Option Command)
      → ((cmd : Command) → o ≡ some cmd → IsOwnRequest cfg cmd)
      → Begun (begin_with cfg c o)
  unfolding begin_with
  begin_with-IsValid c name version none h = tt
  begin_with-IsValid c name version (some cmd) h = λ _. h cmd refl

  begins-IsValid :
      (c : Client F) (name : Bytes) (version : ℤ)
      → IsValid c
      → Begun (checkpoint_begin cfg name version c)
  unfolding checkpoint_begin
  begins-IsValid c name version h =
      if-elim Begun c.checkpoint_in_progress _ _ (λ _. h)
        λ _.
          if-elim Begun (not (validate_name name) || ltb_ℤ version (pos 0)) _ _ (λ _. h)
            λ ok.
              let (valid, nonneg) = accepted (validate_name name) (ltb_ℤ version (pos 0)) ok in
              begin_with-IsValid c name version _
                λ cmd e. make-IsOwnRequest cfg name version cmd valid nonneg e

  share_offsets-IsValid :
      (comm : Comm) (c : Client F) (fs : F.State)
      → IsValid c
      → IsValid (share_offsets cfg comm c fs).1
  unfolding share_offsets
  share_offsets-IsValid comm c fs h =
      if-elim (λ (r : Bool × Client F × F.State). IsValid r.1) (cfg.rank ==ℤ pos 0) _ _
        (λ _.
          if-elim (λ (r : Bool × Client F × F.State). IsValid r.1) _ _ _ (λ _. with_offset)
            (λ _. h))
        (λ _. with_offset)
    where
      with_offset :
          {n : ℕ}
          → c.checkpoint_in_progress ≡ true
          → IsOwnRequest cfg (record c.current_ckpt { offset = n })
      with_offset on =
          let r = h on in
          record { command = r.command; rank = r.rank; valid = r.valid; version = r.version }

  aggregate-IsValid :
      (m : Mode) (c : Client F) (fs : F.State) → IsValid c → IsValid (aggregate cfg m c fs).1
  unfolding aggregate
  aggregate-IsValid single c fs h = h
  aggregate-IsValid (parallel comm false) c fs h = h
  aggregate-IsValid (parallel comm true) c fs h = share_offsets-IsValid comm c fs h

  send-IsValid : (c : Client F) (fs : F.State) → IsValid (send_checkpoint B cfg c fs).1
  unfolding send_checkpoint
  send-IsValid c fs =
      if-elim (λ (r : Bool × Client F × F.State). IsValid r.1) cfg.is_sync _ _
        (λ _ on. absurd (cc on)) (λ _ on. absurd (cc on))

  ends-IsValid : (c : Client F) (fs : F.State) → IsValid c → IsValid (checkpoint_end B cfg c fs).1
  unfolding checkpoint_end
  ends-IsValid c fs h =
      if-elim (λ (r : Bool × Client F × F.State). IsValid r.1) (aggregate cfg cfg.mode c fs).0 _ _
        (λ _. send-IsValid (aggregate cfg cfg.mode c fs).1 (aggregate cfg cfg.mode c fs).2)
        (λ _. aggregate-IsValid cfg.mode c fs h)

  begin_again-IsValid :
      (c : Client F) (fs : F.State) (o : Option Command)
      → c.checkpoint_in_progress ≡ false
      → Restarted (begin_again B cfg c fs o)
  unfolding begin_again
  begin_again-IsValid c fs none off = tt
  begin_again-IsValid c fs (some cmd) off =
      if-elim (λ (r : Bool × Client F × F.State). IsValid r.1) _ _ _
        (λ _ on. absurd (let e = sym off ∙ on in cc)) (λ _ on. absurd (let e = sym off ∙ on in cc))

  restarts-IsValid :
      (c : Client F) (name : Bytes) (version target_rank : ℤ) (fs : F.State)
      → IsValid c
      → Restarted (restart_begin B cfg name version target_rank c fs)
  unfolding restart_begin
  restarts-IsValid c name version target_rank fs h =
      if-elim Restarted c.checkpoint_in_progress _ _ (λ _. h)
        λ off.
          if-elim Restarted (not (validate_name name) || ltb_ℤ version (pos 0)) _ _ (λ _. h)
            λ _. begin_again-IsValid c fs _ off

  ensure_header-IsValid :
      (c : Client F) (fs : F.State) → IsValid c → IsValid (ensure_header cfg c fs).1
  unfolding ensure_header read_current_header with_header
  ensure_header-IsValid c fs h =
      if-elim (λ (r : Bool × Client F). IsValid r.1) (c.header_size == 0) _ _ (λ _. h) (λ _. h)

  ending-IsValid : (c : Client F) (p : Progress) → IsValid c → Recovered (ending cfg c p)
  unfolding ending
  ending-IsValid c (going file m) h = h
  ending-IsValid c (stopped m) h = h
  ending-IsValid c escaped h = tt

  recover_with-IsValid :
      (mode : Select) (ids : Ids) (m : Memory) (b : Bool) (c : Client F) (fs : F.State)
      → IsValid c
      → Recovered (recover_with cfg mode ids m (b, c) fs)
  unfolding recover_with get_current_ckpt_regions
  recover_with-IsValid mode ids m false c fs h = h
  recover_with-IsValid mode ids m true c fs h = go (F.contents fs _)
    where
      go :
          (file : Option Bytes)
          → Recovered (
              read_regions_of cfg mode ids m
                (get_current_ckpt_regions c).0
                (get_current_ckpt_regions c).1
                file)
      go none = h
      go (some file) = ending-IsValid _ _ h

  abbrev Routed : Outcome (Bytes × Client F) → Type 0
  Routed (returns (path, c)) = IsValid c
  Routed _ = Unit

  routes-IsValid :
      (c : Client F) (cwd : Option Bytes) (original : Bytes)
      → IsValid c
      → Routed (route_file cfg cwd original c)
  unfolding route_file routed Command.assign_path
  routes-IsValid c cwd original h =
      if-elim (λ o. Routed (routed cfg c o))
        (ltb path_max (length (absolute_path cwd original) + 1)) _ _ (λ _. tt)
        (λ _ on.
          let r = h on in
          record { command = r.command; rank = r.rank; valid = r.valid; version = r.version })

  Call-IsValid : (c c' : Client F) → Call c c' → IsValid c → IsValid c'
  unfolding recover_size mem_protect mem_protect_object mem_unprotect mem_clear register_observer
      recover_mem get_current_ckpt_regions
  Call-IsValid c c' (begins name version b e) h = subst Begun e (begins-IsValid c name version h)
  Call-IsValid c c' (writes sel ids m fs fs' b e) h = elim (Bool-cases c.checkpoint_in_progress) [
    | inl on ↦ subst IsValid (checkpoint_mem_client cfg sel ids m c c' b fs fs' on e) h
    | inr off ↦ subst IsValid (checkpoint_mem_idle cfg sel ids m c c' b fs fs' off e) h
  ]
  Call-IsValid c c' (ends fs) h = ends-IsValid c fs h
  Call-IsValid c c' (restarts name version target_rank fs fs' b e) h =
      subst Restarted e (restarts-IsValid c name version target_rank fs h)
  Call-IsValid c c' (sizes id fs) h = ensure_header-IsValid c fs h
  Call-IsValid c c' (recovers mode ids m m' fs b e) h = subst Recovered e (
      recover_with-IsValid mode ids m (ensure_header cfg c fs).0 (ensure_header cfg c fs).1 fs
        (ensure_header-IsValid c fs h))
  Call-IsValid c c' (routes cwd original path e) h =
      subst Routed e (routes-IsValid c cwd original h)
  Call-IsValid c c' (protects id ptr count base_size name) h = h
  Call-IsValid c c' (protects_object id s d name) h = h
  Call-IsValid c c' (unprotects id name) h = h
  Call-IsValid c c' (clears name) h = h
  Call-IsValid c c' (registers type obs) h = h

  -- The states that a new client comes to by its calls.
  pub data Reachable : Client F → Type 0 where
    fresh : {c : Client F} → c.checkpoint_in_progress ≡ false → Reachable c
    call : {c c' : Client F} → Reachable c → Call c c' → Reachable c'

  -- Whatever calls an application makes, in whatever order and over whatever files, while a
  -- checkpoint is in progress the current request is one to save a checkpoint of the client's own
  -- rank under an accepted name and a version that is not negative: a restart in between, or the
  -- calls that read a checkpoint, do not change it.
  pub Reachable-IsValid : (c : Client F) → Reachable c → IsValid c
  Reachable-IsValid c (fresh off) = λ on. absurd (let e = sym off ∙ on in cc)
  Reachable-IsValid c (call {c = before} r s) = Call-IsValid before c s (Reachable-IsValid before r)
