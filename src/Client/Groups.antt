-- ===== src/Client/Groups.antt =====
-- What becomes of the groups of regions: a checkpoint for which there is no group takes over the
-- default group for good.
use veloc.Base.{
  ℕ, ◌≡◌, ◌≢◌, refl, ap, sym, ◌∙◌, Bool, true, false, Option, none, some, List, [], ◌∷◌, if_true,
  if_false, inl, inr, Bool-cases,
}
use veloc.Base.Int.{ℤ}
use veloc.Base.Bytes.{Bytes, bytes_eq, bytes_eq_refl}
use veloc.Base.IntMap.{IntMap}
use veloc.Queue.{is_empty}
use veloc.Command.{filename}
use veloc.FileSystem.{FileSystem}
use veloc.Client.Memory.{Memory}
use veloc.Client.State.{
  Regions, Config, Client, Outcome, returns, get_current_ckpt_regions, mem_protect,
  default_mem_group,
}
use veloc.Client.Checkpoint.{
  Select, Ids, selected, checkpoint_mem, write_selected, write_checkpoint, write_data,
}

not_empty {ℓ} : {A : Type ℓ} (xs : List A) → xs ≢ [] → is_empty xs ≡ false
not_empty [] h = absurd (h refl)
not_empty (x ∷ xs) h = refl

module _ {F : FileSystem} (cfg : Config) where
  returned_client :
      (b b' : Bool) (c c' : Client F) (fs fs' : F.State)
      → ◌≡◌ {A = Outcome (Bool × Client F × F.State)} (returns (b, c, fs)) (returns (b', c', fs'))
      → c ≡ c'
  returned_client b b' c c' fs fs' e = ap client e
    where
      client : Outcome (Bool × Client F × F.State) → Client F
      client (returns (_, x, _)) = x
      client _ = c

  write_checkpoint_client :
      (c c' : Client F) (b : Bool) (fs fs' : F.State) (o : Option (IntMap ℕ × Bytes))
      → write_checkpoint cfg c fs o ≡ returns (b, c', fs')
      → c ≡ c'
  unfolding write_checkpoint
  write_checkpoint_client c c' b fs fs' (some x) e = returned_client _ b c c' _ fs' e
  write_checkpoint_client c c' b fs fs' none e =
      elim (Bool-cases (F.stream_out fs (filename c.current_ckpt cfg.scratch) []).0) [
        | inl o ↦ absurd (let e' = rw o at e in cc)
        | inr o ↦ returned_client false b c c' _ fs' (rw o at e)
      ]

  write_selected_client :
      (m : Memory) (c c' : Client F) (b : Bool) (fs fs' : F.State) (o : Option Regions)
      → write_selected cfg m c fs o ≡ returns (b, c', fs')
      → c ≡ c'
  unfolding write_selected
  write_selected_client m c c' b fs fs' none e = absurd (cc e)
  write_selected_client m c c' b fs fs' (some []) e = returned_client false b c c' fs fs' e
  write_selected_client m c c' b fs fs' (some (r ∷ rs)) e =
      write_checkpoint_client c c' b fs fs' (write_data m (r ∷ rs)) e

  -- The client behind a call of checkpoint_mem during a checkpoint.
  pub checkpoint_mem_client :
      (sel : Select) (ids : Ids) (m : Memory) (c c' : Client F) (b : Bool) (fs fs' : F.State)
      → c.checkpoint_in_progress ≡ true
      → checkpoint_mem cfg sel ids m c fs ≡ returns (b, c', fs')
      → (get_current_ckpt_regions c).1 ≡ c'
  unfolding checkpoint_mem
  checkpoint_mem_client sel ids m c c' b fs fs' on e =
      write_selected_client m (get_current_ckpt_regions c).1 c' b fs fs'
        (selected sel ids (get_current_ckpt_regions c).0)
        (sym (if_true c.checkpoint_in_progress _ _ on) ∙ e)

  pub checkpoint_mem_idle :
      (sel : Select) (ids : Ids) (m : Memory) (c c' : Client F) (b : Bool) (fs fs' : F.State)
      → c.checkpoint_in_progress ≡ false
      → checkpoint_mem cfg sel ids m c fs ≡ returns (b, c', fs')
      → c ≡ c'
  unfolding checkpoint_mem
  checkpoint_mem_idle sel ids m c c' b fs fs' off e =
      returned_client false b c c' fs fs' (sym (if_false c.checkpoint_in_progress _ _ off) ∙ e)

  -- Behind a checkpoint_mem for a name that has no group of its own, what is protected in the default
  -- group does not count for that name any more: its checkpoints go on with the regions that the
  -- default group had, also where these have been given another address or size.
  pub default_group_frozen :
      (sel : Select) (ids : Ids) (m : Memory) (c c' : Client F) (b : Bool) (fs fs' : F.State)
      (id : ℤ) (ptr count base_size : ℕ)
      → c.checkpoint_in_progress ≡ true
      → c.mem_regions c.current_ckpt.name ≡ []
      → c.mem_regions default_mem_group ≢ []
      → bytes_eq c.current_ckpt.name default_mem_group ≡ false
      → checkpoint_mem cfg sel ids m c fs ≡ returns (b, c', fs')
      → (get_current_ckpt_regions (mem_protect id ptr count base_size default_mem_group c').1).0
        ≡ c.mem_regions default_mem_group
  unfolding get_current_ckpt_regions mem_protect
  default_group_frozen sel ids m c c' b fs fs' id ptr count base_size on own some_default other e =
      rw
        (
          ← checkpoint_mem_client sel ids m c c' b fs fs' on e,
          other,
          bytes_eq_refl c.current_ckpt.name,
          own,
          not_empty (c.mem_regions default_mem_group) some_default,
        )
        refl
