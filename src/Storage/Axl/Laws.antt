-- ===== src/Storage/Axl/Laws.antt =====
-- What goes to the persistent directory by AXL and comes back from it.
use veloc.Base.{◌≡◌, ap, sym, ◌∙◌, Bool, true, false, [], if_true, if-elim}
use veloc.Base.Int.{ℤ, pos, ltb_ℤ, ◌==ℤ◌, ==ℤ_iff}
use veloc.Base.Bytes.{Bytes}
use veloc.Command.{Command, filename}
use veloc.Queue.{is_empty}
use veloc.FileSystem.{FileSystem}
use veloc.Storage.Axl.{Axl, Xfer, go_on, axl_transfer_file, flush, restore}

-- A transfer that the library has waited for has the source's bytes in the destination, whatever was
-- there, and to free it leaves the files alone.
pub record AxlLaws {F : FileSystem} (axl : Axl F) : Type 0 where
  pub contents-waited :
      (t : Xfer) (p q : Bytes) (s : F.State)
      → let id = (axl.create t p s).0 in
        let added = axl.add id p q (axl.create t p s).1 in
        let sent = axl.dispatch id added.1 in
        let done = axl.wait id sent.1 in
        added.0 ≡ pos 0 → sent.0 ≡ pos 0 → done.0 ≡ pos 0 → F.contents done.1 q ≡ F.contents s p
  pub contents-free :
      (id : ℤ) (q : Bytes) (s : F.State) → F.contents (axl.free id s).1 q ≡ F.contents s q

module _ {F : FileSystem} {axl : Axl F} (laws : AxlLaws axl) where
  module _ (t : Xfer) (p q : Bytes) (s : F.State) where
    abbrev Copied : Bool × F.State → Type 0
    Copied r = r.0 ≡ true → F.contents r.1 q ≡ F.contents s p

    false-Copied : (fs : F.State) → Copied (false, fs)
    false-Copied fs h = absurd (cc h)

    zero_of : (a : ℤ) → (a ==ℤ pos 0) ≡ true → a ≡ pos 0
    zero_of a e = (==ℤ_iff a (pos 0)).0 e

    axl_transfer-Copied : Copied (axl_transfer_file axl t p q s)
    unfolding axl_transfer_file go_on
    axl_transfer-Copied =
        let created = axl.create t p s in
        let id = created.0 in
        let added = axl.add id p q created.1 in
        let sent = axl.dispatch id added.1 in
        let done = axl.wait id sent.1 in
        let freed = axl.free id done.1 in
        if-elim Copied (ltb_ℤ id (pos 0)) _ _ (λ _. false-Copied created.1)
          λ _.
            if-elim Copied (added.0 ==ℤ pos 0) _ _
              (λ a.
                if-elim Copied (sent.0 ==ℤ pos 0) _ _
                  (λ b.
                    if-elim Copied (done.0 ==ℤ pos 0) _ _
                      (λ c.
                        if-elim Copied (freed.0 ==ℤ pos 0) _ _
                          (λ _ _.
                            laws.contents-free id q done.1
                            ∙ laws.contents-waited t p q s (zero_of added.0 a) (zero_of sent.0 b)
                                (zero_of done.0 c))
                          (λ _. false-Copied freed.1))
                      (λ _. false-Copied done.1))
                  (λ _. false-Copied sent.1))
              (λ _. false-Copied added.1)

  module _ (t : Xfer) (scratch persistent : Bytes) where
    flush_lem :
        (fs : F.State) (cmd : Command)
        → cmd.original ≡ []
        → (flush axl t scratch persistent fs cmd).0 ≡ true
        → F.contents (flush axl t scratch persistent fs cmd).1 (filename cmd persistent)
          ≡ F.contents fs (filename cmd scratch)
    unfolding flush
    flush_lem fs cmd memory done =
        let opened = if_true (is_empty cmd.original) _ _ (ap is_empty memory) in
        ap (λ (r : Bool × F.State). F.contents r.1 (filename cmd persistent)) opened
        ∙ axl_transfer-Copied t (filename cmd scratch) (filename cmd persistent) fs
            (ap (λ (r : Bool × F.State). r.0) (sym opened) ∙ done)

    -- A file of the memory-based API that AXL has copied to the storage, over whatever was there, and
    -- back to a scratch directory, is there with the same bytes, as long as both calls succeed and the
    -- stored file is not touched in between.
    pub axl_restore-flush :
        (fs later : F.State) (cmd : Command)
        → cmd.original ≡ []
        → (flush axl t scratch persistent fs cmd).0 ≡ true
        → F.contents later (filename cmd persistent)
          ≡ F.contents (flush axl t scratch persistent fs cmd).1 (filename cmd persistent)
        → (restore axl t scratch persistent later cmd).0 ≡ true
        → F.contents (restore axl t scratch persistent later cmd).1 (filename cmd scratch)
          ≡ F.contents fs (filename cmd scratch)
    unfolding restore
    axl_restore-flush fs later cmd memory flushed kept restored =
        axl_transfer-Copied t (filename cmd persistent) (filename cmd scratch) later restored
        ∙ (kept ∙ flush_lem fs cmd memory flushed)
