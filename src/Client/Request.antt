-- ===== src/Client/Request.antt =====
-- The request that a checkpoint phase is about.
use veloc.Base.{
  ◌≡◌, refl, ap, sym, ◌∙◌, true, false, some, [], ◌∷◌, inl, inr, Bool-cases, All, arith, ltb,
  length, ◌+◌,
}
use mathlib.Core.Option.{some-injective}
use veloc.Base.Int.{ℤ, pos, ltb_ℤ}
use veloc.Base.Bytes.{Bytes}
use veloc.Command
use veloc.Command.{Command, Opcode, c_str, ckpt_name_max}
use veloc.Command.Name.{validate_name, validate_name-All, IsNameByte}
use veloc.Client.State.{Config}
use veloc.Client.Checkpoint.{}
use veloc.Client.Restart.{}

-- A request to save a checkpoint of this rank, under a name and a version that are accepted.
pub record IsOwnRequest (cfg : Config) (cmd : Command) : Type 0 where
  pub command : cmd.command ≡ Opcode.checkpoint
  pub rank : cmd.unique_id ≡ cfg.rank
  pub valid : validate_name cmd.name ≡ true
  pub version : ltb_ℤ cmd.version (pos 0) ≡ false

c_str-All : (s : Bytes) → All IsNameByte s → c_str s ≡ s
unfolding c_str
c_str-All [] _ = refl
c_str-All (b ∷ s) ((_, nz, _, _, _), h) = ground (arith, c_str-All s h)

pub make-IsOwnRequest :
    (cfg : Config) (name : Bytes) (version : ℤ) (cmd : Command)
    → validate_name name ≡ true
    → ltb_ℤ version (pos 0) ≡ false
    → Command.make cfg.rank Opcode.checkpoint version name ≡ some cmd
    → IsOwnRequest cfg cmd
unfolding Command.make
make-IsOwnRequest cfg name version cmd valid nonneg e =
    elim (Bool-cases (ltb ckpt_name_max (length name + 1))) [
      | inl long ↦ absurd (let e' = rw long at e in cc)
      | inr short ↦
          let same = some-injective _ _ (rw short at e) in
          let plain = c_str-All name (validate_name-All name valid) in
          record {
            command = ap (λ (x : Command). x.command) (sym same);
            rank = ap (λ (x : Command). x.unique_id) (sym same);
            valid =
                ap (λ (x : Command). validate_name x.name) (sym same)
                ∙ (ap validate_name plain ∙ valid);
            version = ap (λ (x : Command). ltb_ℤ x.version (pos 0)) (sym same) ∙ nonneg;
          }
    ]
