-- ===== src/Storage/Posix/Laws.antt =====
-- What goes to the persistent directory and comes back from it.
use veloc.Base.{
  ℕ, zero, suc, ◌+◌, ◌-◌, ◌%◌, ◌^◌, ◌<◌, ◌≡◌, ◌≢◌, refl, ap, sym, ◌∙◌, Bool, true, none, some, [],
  ◌∷◌, ◌++◌, append-nil, arith, length, drop, take_all, length-drop, if_true,
}
use Prim.Native.Nat.{min}
use veloc.Base.Bytes.{Bytes, bytes_eq_refl}
use veloc.Command.{Command, filename}
use veloc.FileSystem.{FileSystem, bytes_of}
use veloc.FileUtil.{CopyLaws, overwrite, posix_transfer_file}
use veloc.Queue.{is_empty}
use veloc.Header.{read_header}
use veloc.Header.Prefix.{IsAccepted, accepted-append}
use veloc.Storage.Posix.{flush, restore, size_max}

pub overwrite_start : (b old : Bytes) → overwrite 0 b old ≡ b ++ drop (length b) old
unfolding overwrite
overwrite_start [] [] = refl
overwrite_start (x ∷ b) [] = sym (append-nil (x ∷ b))
overwrite_start [] (y ∷ old) = refl
overwrite_start (x ∷ b) (y ∷ old) = ap (◌∷◌ x) (overwrite_start b old)

whole_size : (n : ℕ) → n < 2 ^ 64 → min size_max ((n + 2 ^ 64 - 0) % 2 ^ 64) ≡ n
whole_size n h = omega arith

pub drop_nil : (n : ℕ) → ◌≡◌ {A = Bytes} (drop n []) []
drop_nil zero = refl
drop_nil (suc n) = refl

pub nothing_left : (b : Bytes) → b ++ drop (length b) [] ≡ b
nothing_left b = rw (drop_nil (length b)) (append-nil b)

some_left : (b old : Bytes) → length b < length old → drop (length b) old ≢ []
some_left b old h e = absurd (omega (arith, length-drop (length b) old, ap length e))

transfer_is :
    (F : FileSystem) (fs : F.State) (p q b : Bytes)
    → F.contents fs p ≡ some b
    → length b < 2 ^ 64
    → posix_transfer_file F fs p q 0 0 size_max ≡ F.copy_in fs q 0 b
unfolding posix_transfer_file
transfer_is F fs p q b e small =
    rw (e, posix_transfer_file, whole_size (length b) small, take_all b) refl

module _ {F : FileSystem} (laws : CopyLaws F) where
  transfer_lem :
      (fs : F.State) (p q b : Bytes)
      → F.contents fs p ≡ some b
      → length b < 2 ^ 64
      → (posix_transfer_file F fs p q 0 0 size_max).0 ≡ true
      → F.contents (posix_transfer_file F fs p q 0 0 size_max).1 q
        ≡ some (b ++ drop (length b) (bytes_of (F.contents fs q)))
  transfer_lem fs p q b e small done =
      let same = transfer_is F fs p q b e small in
      rw
        (
          same,
          laws.contents-copy_in fs q q 0 b (ap (λ (r : Bool × F.State). r.0) (sym same) ∙ done),
          bytes_eq_refl q,
          overwrite_start b (bytes_of (F.contents fs q)),
        )
        refl

  module _ (scratch persistent : Bytes) where
    flush_lem :
        (fs : F.State) (cmd : Command) (b : Bytes)
        → cmd.original ≡ []
        → F.contents fs (filename cmd scratch) ≡ some b
        → length b < 2 ^ 64
        → (flush F scratch persistent fs cmd).0 ≡ true
        → F.contents (flush F scratch persistent fs cmd).1 (filename cmd persistent)
          ≡ some (b ++ drop (length b) (bytes_of (F.contents fs (filename cmd persistent))))
    unfolding flush
    flush_lem fs cmd b memory e small done =
        let opened = if_true (is_empty cmd.original) _ _ (ap is_empty memory) in
        ap (λ (r : Bool × F.State). F.contents r.1 (filename cmd persistent)) opened
        ∙ transfer_lem fs (filename cmd scratch) (filename cmd persistent) b e small
            (ap (λ (r : Bool × F.State). r.0) (sym opened) ∙ done)

    -- A file of the memory-based API that is flushed to a name that the storage does not have, and is
    -- restored to a scratch directory that does not have it, is there with the same bytes, as long as
    -- both calls succeed and the stored file is not touched in between.
    pub restore-flush :
        (fs later : F.State) (cmd : Command) (b : Bytes)
        → cmd.original ≡ []
        → length b < 2 ^ 64
        → F.contents fs (filename cmd scratch) ≡ some b
        → F.contents fs (filename cmd persistent) ≡ none
        → (flush F scratch persistent fs cmd).0 ≡ true
        → F.contents later (filename cmd persistent)
          ≡ F.contents (flush F scratch persistent fs cmd).1 (filename cmd persistent)
        → F.contents later (filename cmd scratch) ≡ none
        → (restore F scratch persistent later cmd).0 ≡ true
        → F.contents (restore F scratch persistent later cmd).1 (filename cmd scratch) ≡ some b
    unfolding restore
    restore-flush fs later cmd b memory small local new flushed kept gone done =
        let stored = flush_lem fs cmd b memory local small flushed in
        let plain : F.contents later (filename cmd persistent) ≡ some b =
          kept
          ∙ (stored ∙ ap some (ap (λ o. b ++ drop (length b) (bytes_of o)) new ∙ nothing_left b)) in
        transfer_lem later (filename cmd persistent) (filename cmd scratch) b plain small done
        ∙ ap some (ap (λ o. b ++ drop (length b) (bytes_of o)) gone ∙ nothing_left b)

    -- A checkpoint that is flushed over a longer file keeps the end of that file: read_header refuses
    -- what is stored then, although the flush succeeded.
    pub stale_tail_refused :
        (fs : F.State) (cmd : Command) (b old : Bytes)
        → cmd.original ≡ []
        → length b < 2 ^ 64
        → F.contents fs (filename cmd scratch) ≡ some b
        → F.contents fs (filename cmd persistent) ≡ some old
        → length b < length old
        → IsAccepted b
        → (flush F scratch persistent fs cmd).0 ≡ true
        → (read_header
            (F.contents (flush F scratch persistent fs cmd).1 (filename cmd persistent))).size
          ≡ 0
    stale_tail_refused fs cmd b old memory small local there longer ok flushed =
        let stored = flush_lem fs cmd b memory local small flushed in
        ap (λ f. (read_header f).size)
          (stored ∙ ap (λ o. some (b ++ drop (length b) (bytes_of o))) there)
        ∙ accepted-append b (drop (length b) old) ok (some_left b old longer)
