-- ===== src/Modules/Erasure/Laws.antt =====
-- When checkpoints are protected by erasure coding, and when they are not.
use veloc.Base.{
  subst, ℕ, ◌+◌, ◌<◌, ◌≡◌, refl, ap, sym, ◌∙◌, Bool, true, false, Option, some, List, ◌∷◌, ltb,
  lt→ltb, if◌then◌else◌, if_true, if_false, if-elim, arith,
}
use veloc.Base.Int.{ℤ, pos, negsuc, ltb_ℤ, pos_part, ◌<ℤ◌}
use veloc.Base.Bytes.{Bytes}
use veloc.Command.{Command, Opcode}
use veloc.Queue.{success, failure, ignored}
use veloc.FileSystem.{FileSystem}
use veloc.Modules.Erasure.{
  Er, Module, make, process_command, process_commands, by_opcode, protect, encode_set, set_name,
}

-- On a single host, whatever the configuration asks for, the module starts without a call of the
-- library, and ignores every request: the disk and the time of the last protection stay as they are.
pub single_host :
    {F : FileSystem} (er : Er F) (cfg_file : Bytes) (ec_interval : Option ℤ) (ranks : ℕ)
    (allreduce_land : Bool → Bool) (scratch : Bytes) (now : ℕ) (c : Command) (cs : List Command)
    (last_timestamp : ℕ) (fs : F.State)
    → ranks < 2
    → (m : Module) × (make er cfg_file ec_interval ranks fs ≡ some (m, fs))
      × (process_command er m now c last_timestamp ≡ (ignored, last_timestamp))
      × (process_commands er m allreduce_land scratch now (c ∷ cs) last_timestamp fs
          ≡ (ignored, last_timestamp, fs))
unfolding make process_command process_commands
single_host er cfg_file ec_interval ranks allreduce_land scratch now c cs last_timestamp fs few =
    (record { interval = negsuc 0; scheme_id = negsuc 0 }, rw (lt→ltb ranks 2 few) refl, refl, refl)

module _ {F : FileSystem} (er : Er F) (m : Module) (allreduce_land : Bool → Bool) (scratch : Bytes)
    (now : ℕ) (c : Command) (cs : List Command) (last_timestamp : ℕ) (fs : F.State)
    (periodic : pos 0 <ℤ m.interval) where
  not_negative : ltb_ℤ m.interval (pos 0) ≡ false
  not_negative = ground arith

  positive : ltb_ℤ (pos 0) m.interval ≡ true
  positive = ground arith

  checkpoint_is :
      c.command ≡ Opcode.checkpoint
      → process_commands er m allreduce_land scratch now (c ∷ cs) last_timestamp fs
        ≡ protect er m allreduce_land scratch now c (c ∷ cs) last_timestamp fs
  unfolding process_commands by_opcode
  checkpoint_is e =
      if_false _ _ _ not_negative
      ∙ ap (λ o. by_opcode er m allreduce_land scratch o now c (c ∷ cs) last_timestamp fs) e

  abbrev Moved : ℤ × ℕ × F.State → Type 0
  Moved r = r.0 ≡ failure → r.1 ≡ now + pos_part m.interval

  -- A failure comes from an attempt, which moves the time on.
  failed_moves :
      c.command ≡ Opcode.checkpoint
      → (process_commands er m allreduce_land scratch now (c ∷ cs) last_timestamp fs).0 ≡ failure
      → (process_commands er m allreduce_land scratch now (c ∷ cs) last_timestamp fs).1
        ≡ now + pos_part m.interval
  unfolding protect
  failed_moves e =
      let encoded =
        encode_set er m allreduce_land scratch (c ∷ cs)
          (er.encode (set_name er m allreduce_land scratch c) m.scheme_id fs) in
      subst Moved (sym (checkpoint_is e ∙ if_true _ _ _ positive)) (
        if-elim Moved (allreduce_land (if ltb now last_timestamp then false else true))
          (encoded.0, now + pos_part m.interval, encoded.1) (success, last_timestamp, fs)
          (λ _ _. refl) (λ _ h. absurd (cc)))

  too_soon :
      c.command ≡ Opcode.checkpoint
      → now < last_timestamp
      → allreduce_land false ≡ false
      → process_commands er m allreduce_land scratch now (c ∷ cs) last_timestamp fs
        ≡ (success, last_timestamp, fs)
  unfolding protect
  too_soon e soon agreed =
      checkpoint_is e
      ∙ (if_true _ _ _ positive
          ∙ if_false _ _ _ (
              ap (λ b. allreduce_land (if b then false else true)) (lt→ltb now last_timestamp soon)
              ∙ agreed))

-- A checkpoint that could not be protected counts as the last one that was: until the interval is
-- over the checkpoints that follow, on a node that agrees with the others, are answered with
-- VELOC_SUCCESS and are not protected.
pub protection_held_back :
    {F : FileSystem} (er : Er F) (m : Module) (allreduce_land : Bool → Bool) (scratch : Bytes)
    (now later : ℕ) (c d : Command) (cs ds : List Command) (last_timestamp : ℕ) (fs fs' : F.State)
    → pos 0 <ℤ m.interval
    → c.command ≡ Opcode.checkpoint
    → d.command ≡ Opcode.checkpoint
    → (process_commands er m allreduce_land scratch now (c ∷ cs) last_timestamp fs).0 ≡ failure
    → later < now + pos_part m.interval
    → allreduce_land false ≡ false
    → process_commands er m allreduce_land scratch later
        (d ∷ ds)
        (process_commands er m allreduce_land scratch now (c ∷ cs) last_timestamp fs).1
        fs'
      ≡ (
        success,
        (process_commands er m allreduce_land scratch now (c ∷ cs) last_timestamp fs).1,
        fs',
      )
protection_held_back er m allreduce_land scratch now later c d cs ds last_timestamp fs fs' periodic
      ec ed failed soon agreed =
    let moved =
      failed_moves er m allreduce_land scratch now c cs last_timestamp fs periodic ec failed in
    too_soon er m allreduce_land scratch later d ds _ fs' periodic ed
      (subst (λ t. later < t) (sym moved) soon) agreed
