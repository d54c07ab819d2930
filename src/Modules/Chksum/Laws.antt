-- ===== src/Modules/Chksum/Laws.antt =====
-- What a recorded checksum protects a checkpoint from.
use veloc.Base.{
  ℕ, ◌≡◌, refl, ap, sym, ◌∙◌, ◌↔◌, true, Option, none, some, [], ◌∷◌, arith, length, leb, take,
  take_all, inl, inr, Bool-cases,
}
use mathlib.Core.Option.{some-injective}
use veloc.Base.Bytes.{Bytes, bytes_eq, bytes_eq_iff, bytes_eq_refl}
use veloc.Command.{Command, Opcode, filename, meta_filename}
use veloc.Queue.{success}
use veloc.FileSystem.{FileSystem, WriteLaws}
use veloc.FileUtil.{read_file, write_file}
use veloc.Modules.Chksum.{
  Config, hash_size, process_command, dispatch, chksum_file, hash, store_chksum, compare_chksum,
}

take_exactly : (n : ℕ) (b : Bytes) → length b ≡ n → take n b ≡ b
take_exactly n b e = rw (← e) (take_all b)

leb_refl : (n m : ℕ) → m ≡ n → leb m n ≡ true
leb_refl n m e = ground arith

module _ (F : FileSystem) (laws : WriteLaws F) (sha256 : Bytes → Bytes)
    (hash_length : (b : Bytes) → length (sha256 b) ≡ hash_size) (cfg : Config)
    (on : cfg.active ≡ true) where
  abbrev pub local : Command → Bytes
  local c = filename c cfg.scratch

  abbrev pub record_path : Command → Bytes
  record_path c = meta_filename c cfg.meta

  at_checkpoint :
      (c : Command) (fs : F.State)
      → c.command ≡ Opcode.checkpoint
      → process_command F sha256 cfg c fs
        ≡ store_chksum F sha256 cfg c fs (hash F sha256 (F.contents fs (local c)))
  unfolding process_command
  at_checkpoint c fs e = rw (on, e, dispatch)

  at_restart :
      (c : Command) (fs : F.State)
      → c.command ≡ Opcode.restart
      → process_command F sha256 cfg c fs ≡ (
        compare_chksum F sha256
            (read_file F fs (record_path c) hash_size)
            (hash F sha256 (F.contents fs (local c))),
        fs,
      )
  unfolding process_command
  at_restart c fs e = rw (on, e, dispatch)

  store_inversion :
      (c : Command) (fs : F.State) (h : Option Bytes)
      → (store_chksum F sha256 cfg c fs h).0 ≡ success
      → (b : Bytes) × (h ≡ some b)
        × (F.contents (store_chksum F sha256 cfg c fs h).1 (record_path c) ≡ some b)
  unfolding store_chksum write_file
  store_inversion c fs none e = cc
  store_inversion c fs (some b) e = elim (Bool-cases (F.write fs (meta_filename c cfg.meta) b).0) [
    | inl done ↦ (
      b,
      refl,
      rw
          (
            laws.contents-write fs (meta_filename c cfg.meta) (meta_filename c cfg.meta) b done,
            bytes_eq_refl (meta_filename c cfg.meta),
          )
          refl,
    )
    | inr failed ↦ absurd (let e' = rw failed at e in cc)
  ]

  hash_size_of : (o : Option Bytes) (b : Bytes) → hash F sha256 o ≡ some b → length b ≡ hash_size
  unfolding hash
  hash_size_of none b e = cc
  hash_size_of (some []) b e = cc
  hash_size_of (some (x ∷ xs)) b e =
      let same = some-injective _ _ e in rw (← same) (hash_length (x ∷ xs))

  read_back :
      (fs : F.State) (p b : Bytes)
      → F.contents fs p ≡ some b
      → length b ≡ hash_size
      → read_file F fs p hash_size ≡ some b
  unfolding read_file
  read_back fs p b e len =
      rw (e, read_file, leb_refl (length b) hash_size (sym len))
        (ap some (take_exactly hash_size b len))

  compare_lem :
      (b : Bytes) (h : Option Bytes) → (compare_chksum F sha256 (some b) h ≡ success) ↔ (h ≡ some b)
  unfolding compare_chksum
  compare_lem b none = (λ e. cc, λ e. cc)
  compare_lem b (some x) = elim (Bool-cases (bytes_eq x b)) [
    | inl e ↦ (λ _. ap some ((bytes_eq_iff x b).0 e), λ _. rw e refl)
    | inr n ↦ (
      λ e. absurd (let e' = rw n at e in cc),
      λ e. absurd (let e' = (bytes_eq_iff x b).1 (some-injective _ _ e) in cc),
    )
  ]

  module _ (c d : Command) (checkpoint : c.command ≡ Opcode.checkpoint)
      (restart : d.command ≡ Opcode.restart) (same_record : record_path d ≡ record_path c) where
    -- After a CHECKPOINT that succeeded, and as long as the recorded checksum is not touched, a
    -- RESTART of the same version succeeds exactly if the local file has a checksum and it is the
    -- one that the file had at the checkpoint.
    pub restart_verdict :
        (fs later : F.State)
        → (process_command F sha256 cfg c fs).0 ≡ success
        → F.contents later (record_path c)
          ≡ F.contents (process_command F sha256 cfg c fs).1 (record_path c)
        → ((process_command F sha256 cfg d later).0 ≡ success)
          ↔ (chksum_file F sha256 later (local d) ≡ chksum_file F sha256 fs (local c))
    unfolding chksum_file
    restart_verdict fs later done untouched =
        let (b, had, kept) =
          store_inversion c fs (hash F sha256 (F.contents fs (local c)))
            (rw (← at_checkpoint c fs checkpoint) done) in
        let now =
          read_back later (record_path c) b
            (untouched
              ∙ (ap (λ r. F.contents r.1 (record_path c)) (at_checkpoint c fs checkpoint) ∙ kept))
            (hash_size_of (F.contents fs (local c)) b had) in
        rw (at_restart d later restart, same_record, now, had)
          (compare_lem b (hash F sha256 (F.contents later (local d))))
