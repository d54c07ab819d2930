-- ===== src/Storage/Daos/Laws.antt =====
-- What goes to the key-value store of a rank and comes back from it, and what a restore that fails
-- leaves behind.
use veloc.Base.{◌≡◌, refl, ap, sym, ◌∙◌, subst, Bool, true, false, some, if-elim, length, ℕ}
use veloc.Base.Int.{ℤ}
use veloc.Base.Bytes.{Bytes}
use veloc.Command.{Command, filename, stem}
use veloc.FileSystem.{FileSystem}
use veloc.Storage.Daos.{Daos, flush, restore, put_file, restore_size, fill_file}

-- What was put is there, with its size; and a file that was allocated in the size of what is written
-- to it has just that.
pub record DaosLaws {F : FileSystem} (daos : Daos F) : Type 0 where
  pub get-put :
      (s : F.State) (id : ℤ) (key b : Bytes)
      → (daos.put s id key b).0 ≡ true
      → (daos.get_size (daos.put s id key b).1 id key ≡ some (length b))
        × (daos.get (daos.put s id key b).1 id key ≡ some b)
  pub get-allocate :
      (s : F.State) (p : Bytes) (n : ℕ) (id : ℤ) (key : Bytes)
      → daos.get (daos.allocate s p n).1 id key ≡ daos.get s id key
  pub contents-fill :
      (s : F.State) (p b : Bytes)
      → (daos.allocate s p (length b)).0 ≡ true
      → F.contents (daos.fill (daos.allocate s p (length b)).1 p b) p ≡ some b

module _ {F : FileSystem} {daos : Daos F} (laws : DaosLaws daos) (scratch : Bytes) where
  abbrev Stored : Command → Bytes → Bool × F.State → Type 0
  Stored cmd b r =
      r.0 ≡ true
      → (daos.get_size r.1 cmd.unique_id (stem cmd) ≡ some (length b))
        × (daos.get r.1 cmd.unique_id (stem cmd) ≡ some b)

  flush-Stored :
      (fs : F.State) (cmd : Command) (b : Bytes)
      → F.contents fs (filename cmd scratch) ≡ some b
      → Stored cmd b (flush daos scratch fs cmd)
  unfolding flush put_file
  flush-Stored fs cmd b local =
      if-elim (Stored cmd b) (daos.opens fs cmd.unique_id) _ _
        (λ _.
          subst (λ o. Stored cmd b (put_file daos scratch fs cmd o)) (sym local)
            (if-elim (Stored cmd b) (daos.can_map fs (filename cmd scratch) (length b)) _ _
              (λ _. laws.get-put fs cmd.unique_id (stem cmd) b) (λ _ h. absurd (cc h))))
        (λ _ h. absurd (cc h))

  abbrev Filled : Command → Bytes → Bool × F.State → Type 0
  Filled cmd b r = r.0 ≡ true → F.contents r.1 (filename cmd scratch) ≡ some b

  fill_case :
      (cmd : Command) (b : Bytes) (allocated : Bool) (fs : F.State)
      → daos.get fs cmd.unique_id (stem cmd) ≡ some b
      → (allocated ≡ true
          → F.contents (daos.fill fs (filename cmd scratch) b) (filename cmd scratch) ≡ some b)
      → Filled cmd b (fill_file daos scratch cmd (allocated, fs))
  unfolding fill_file
  fill_case cmd b false fs there filled h = absurd (cc h)
  fill_case cmd b true fs there filled h =
      let e : fill_file daos scratch cmd (true, fs)
          ≡ (true, daos.fill fs (filename cmd scratch) b) =
        rw (fill_file, there) refl in
      ap (λ (r : Bool × F.State). F.contents r.1 (filename cmd scratch)) e ∙ filled refl

  restore-Filled :
      (fs : F.State) (cmd : Command) (b : Bytes)
      → daos.get_size fs cmd.unique_id (stem cmd) ≡ some (length b)
      → daos.get fs cmd.unique_id (stem cmd) ≡ some b
      → Filled cmd b (restore daos scratch fs cmd)
  unfolding restore restore_size
  restore-Filled fs cmd b sized there =
      let path = filename cmd scratch in
      let allocated = daos.allocate fs path (length b) in
      if-elim (Filled cmd b) (daos.opens fs cmd.unique_id) _ _
        (λ _.
          subst (λ o. Filled cmd b (restore_size daos scratch fs cmd o)) (sym sized)
            (fill_case cmd b allocated.0 allocated.1
              (laws.get-allocate fs path (length b) cmd.unique_id (stem cmd) ∙ there)
              (laws.contents-fill fs path b)))
        (λ _ h. absurd (cc h))

  -- A file that was put into the store of its rank comes back with the same bytes, whatever is in the
  -- scratch directory, as long as both calls succeed and the value is not touched in between.
  pub daos_restore-flush :
      (fs later : F.State) (cmd : Command) (b : Bytes)
      → F.contents fs (filename cmd scratch) ≡ some b
      → (flush daos scratch fs cmd).0 ≡ true
      → daos.get_size later cmd.unique_id (stem cmd)
        ≡ daos.get_size (flush daos scratch fs cmd).1 cmd.unique_id (stem cmd)
      → daos.get later cmd.unique_id (stem cmd)
        ≡ daos.get (flush daos scratch fs cmd).1 cmd.unique_id (stem cmd)
      → (restore daos scratch later cmd).0 ≡ true
      → F.contents (restore daos scratch later cmd).1 (filename cmd scratch) ≡ some b
  daos_restore-flush fs later cmd b local flushed same_size same =
      let (sized, there) = flush-Stored fs cmd b local flushed in
      restore-Filled later cmd b (same_size ∙ sized) (same ∙ there)
