-- ===== src/Storage/PosixAgg/Parts.antt =====
-- A rank's file goes into the shared file and comes back from it, whatever the other ranks write to
-- their own parts.
use veloc.Base.{
  ℕ, suc, ◌+◌, ◌-◌, ◌%◌, ◌^◌, ◌<◌, ◌≤◌, ◌≡◌, ◌≢◌, ap, sym, ◌∙◌, Bool, true, false, none, some, List,
  [], ◌∷◌, ◌++◌, ◌==◌, ==_refl, arith, if_true, if_false, length, take, drop, take_all,
}
use veloc.Base.Int.{ℤ, pos}
use veloc.Base.Bytes.{Bytes, bytes_eq_refl}
use veloc.Command.{Command, filename, agg_filename}
use veloc.Header.Codec.{le_bytes, le_value}
use veloc.FileSystem.{FileSystem, ReadLaws, bytes_of}
use veloc.FileUtil.{CopyLaws, overwrite, posix_transfer_file}
use veloc.Storage.Posix.Laws.{overwrite_start, nothing_left}
use veloc.Client.Checkpoint.{to_size}
use veloc.Storage.PosixAgg.{Stack, rank_after, flush, restore, with_ranks, last_part, inner_part}
use veloc.Storage.PosixAgg.Overwrite.{
  range, overwrite_own, overwrite_all, overwrite_all-Apart, Apart, length-overwrite,
}
use veloc.Storage.PosixAgg.Laws.{
  Says, ranks_read, offsets_read, rank_after-pos, plain_value, second_value, two_front, long_front,
  long_value, transfer_part, transfer_rest,
}

not_equal : (a b : ℕ) → a ≢ b → (a == b) ≡ false
not_equal a b h = ground arith

fit_size : (o o' : ℕ) → o ≤ o' → o' < 2 ^ 63 → (o' + 2 ^ 64 - o) % 2 ^ 64 ≡ o' - o
fit_size o o' h h' = omega (arith, h, h')

module _ {F : FileSystem} (reads : ReadLaws F) (scratch persistent meta : Bytes) (stack : Stack)
    (fs : F.State) (cmd : Command) (i n : ℕ) (before : List ℤ) (own : cmd.unique_id ≡ pos i)
    (small : i < 2 ^ 31) (position : length before ≡ i) where
  -- The ranks before the last one copy from their own offset up to the next one.
  pub restore_inner :
      (o o' : ℕ) (behind : List ℤ) (b : Bytes)
      → Says F fs (agg_filename cmd meta) n (before ++ pos o ∷ pos o' ∷ behind)
      → suc i ≢ n
      → F.contents fs (agg_filename cmd persistent) ≡ some b
      → o ≤ o'
      → o' ≤ length b
      → length b < 2 ^ 63
      → restore F scratch persistent meta stack fs cmd
        ≡ F.copy_in fs (filename cmd scratch) 0 (range o (o' - o) b)
  unfolding with_ranks inner_part
  restore_inner o o' behind b says inner there h h' long =
      let next = pos o ∷ pos o' ∷ behind in
      let first = le_bytes 8 (to_size (pos o)) in
      let second = le_bytes 8 (to_size (pos o')) in
      let test : (rank_after cmd
            == le_value (take 8 (overwrite 0 (le_bytes 8 (to_size (pos n))) stack.num_ranks)))
          ≡ false =
        rw (rank_after-pos cmd i own small, plain_value n stack.num_ranks says.fits)
          (not_equal (suc i) n inner) in
      ranks_read reads scratch persistent meta stack fs cmd i n before next own small position says
      ∙ (if_false _ _ _ test
          ∙ (ap (inner_part F scratch persistent meta fs cmd stack.offset) (
                offsets_read reads scratch persistent meta stack fs cmd i n before next own small
                  position says 16
                ∙ ap some (two_front o o' behind))
              ∙ rw
                  (
                    long_value o second stack.offset (omega (arith, h, h', long)),
                    second_value o o' stack.offset (omega (arith, h', long)),
                    fit_size o o' h (omega (arith, h', long)),
                  )
                  (transfer_part F fs (agg_filename cmd persistent) (filename cmd scratch) b o
                    (o' - o) there (omega (arith, h, h')) (omega (arith, long)))))

  -- The last rank copies from its offset up to the end of the file.
  pub restore_last :
      (o : ℕ) (b : Bytes)
      → Says F fs (agg_filename cmd meta) n (before ++ pos o ∷ [])
      → suc i ≡ n
      → F.contents fs (agg_filename cmd persistent) ≡ some b
      → o ≤ length b
      → length b < 2 ^ 63
      → restore F scratch persistent meta stack fs cmd
        ≡ F.copy_in fs (filename cmd scratch) 0 (drop o b)
  unfolding with_ranks last_part
  restore_last o b says last there h long =
      let test : (rank_after cmd
            == le_value (take 8 (overwrite 0 (le_bytes 8 (to_size (pos n))) stack.num_ranks)))
          ≡ true =
        rw (rank_after-pos cmd i own small, plain_value n stack.num_ranks says.fits, last)
          (==_refl n) in
      ranks_read reads scratch persistent meta stack fs cmd i n before (pos o ∷ []) own small
        position says
      ∙ (if_true _ _ _ test
          ∙ (ap (last_part F scratch persistent meta fs cmd stack.offset) (
                offsets_read reads scratch persistent meta stack fs cmd i n before (pos o ∷ []) own
                  small position says 8
                ∙ ap some (long_front o []))
              ∙ rw (plain_value o stack.offset (omega (arith, h, long))) (
                  transfer_rest F fs (agg_filename cmd persistent) (filename cmd scratch) b o there
                    h long)))

flush_is :
    (F : FileSystem) (scratch persistent meta p : Bytes) (fs : F.State) (cmd : Command)
    → F.contents fs (filename cmd scratch) ≡ some p
    → length p < 2 ^ 64
    → flush F scratch persistent meta fs cmd
      ≡ F.copy_in fs (agg_filename cmd persistent) cmd.offset p
unfolding flush posix_transfer_file
flush_is F scratch persistent meta p fs cmd e small =
    rw (flush, e, posix_transfer_file)
      (ap (F.copy_in fs (agg_filename cmd persistent) cmd.offset)
        (ap (λ n. take n p) (omega (arith, small)) ∙ take_all p))

module _ {F : FileSystem} (copies : CopyLaws F) where
  -- A copy that succeeds into a file that is not there.
  copied_new :
      (fs : F.State) (p b : Bytes)
      → F.contents fs p ≡ none
      → (F.copy_in fs p 0 b).0 ≡ true
      → F.contents (F.copy_in fs p 0 b).1 p ≡ some b
  copied_new fs p b gone done =
      copies.contents-copy_in fs p p 0 b done
      ∙ (if_true _ _ _ (bytes_eq_refl p)
          ∙ ap some
              (ap (λ o. overwrite 0 b (bytes_of o)) gone ∙ (overwrite_start b [] ∙ nothing_left b)))

  flushed_own :
      (fs : F.State) (scratch persistent meta : Bytes) (cmd : Command) (p : Bytes)
      → F.contents fs (filename cmd scratch) ≡ some p
      → length p < 2 ^ 64
      → (flush F scratch persistent meta fs cmd).0 ≡ true
      → bytes_of
          (F.contents (flush F scratch persistent meta fs cmd).1 (agg_filename cmd persistent))
        ≡ overwrite cmd.offset p (bytes_of (F.contents fs (agg_filename cmd persistent)))
  flushed_own fs scratch persistent meta cmd p local small done =
      let same = flush_is F scratch persistent meta p fs cmd local small in
      let path = agg_filename cmd persistent in
      ap (λ (r : Bool × F.State). bytes_of (F.contents r.1 path)) same
      ∙ (ap bytes_of (
            copies.contents-copy_in fs path path cmd.offset p
              (ap (λ (r : Bool × F.State). r.0) (sym same) ∙ done))
          ∙ ap bytes_of (if_true _ _ _ (bytes_eq_refl path)))

  -- A rank but the last flushes its file to its offset in the shared file, and the other ranks write
  -- theirs apart from it. If the metadata file tells the offsets, the rank then restores its file with
  -- the same bytes to a scratch directory that does not have it, as long as both calls succeed.
  pub aggregated_restore-flush :
      (reads : ReadLaws F) (scratch persistent meta : Bytes) (stack : Stack) (fs later : F.State)
      (cmd : Command) (i n : ℕ) (before behind : List ℤ) (p : Bytes) (others : List (ℕ × Bytes))
      → F.contents fs (filename cmd scratch) ≡ some p
      → length p < 2 ^ 64
      → (flush F scratch persistent meta fs cmd).0 ≡ true
      → Apart cmd.offset (length p) others
      → F.contents later (agg_filename cmd persistent)
        ≡ some (
            overwrite_all others (
              bytes_of (
                F.contents
                  (flush F scratch persistent meta fs cmd).1
                  (agg_filename cmd persistent))))
      → length (bytes_of (F.contents later (agg_filename cmd persistent))) < 2 ^ 63
      → cmd.unique_id ≡ pos i
      → i < 2 ^ 31
      → length before ≡ i
      → suc i ≢ n
      → Says F later
          (agg_filename cmd meta)
          n
          (before ++ pos cmd.offset ∷ pos (cmd.offset + length p) ∷ behind)
      → F.contents later (filename cmd scratch) ≡ none
      → (restore F scratch persistent meta stack later cmd).0 ≡ true
      → F.contents (restore F scratch persistent meta stack later cmd).1 (filename cmd scratch)
        ≡ some p
  aggregated_restore-flush reads scratch persistent meta stack fs later cmd i n before behind p
        others local small flushed apart kept long own few position inner says gone done =
      let o = cmd.offset in
      let whole = overwrite o p (bytes_of (F.contents fs (agg_filename cmd persistent))) in
      let there : F.contents later (agg_filename cmd persistent)
          ≡ some (overwrite_all others whole) =
        kept
        ∙ ap (λ b. some (overwrite_all others b))
            (flushed_own fs scratch persistent meta cmd p local small flushed) in
      let (_, reach) =
        length-overwrite o p (bytes_of (F.contents fs (agg_filename cmd persistent))) in
      let (same, inside) = overwrite_all-Apart o (length p) others whole apart reach in
      let copy =
        restore_inner reads scratch persistent meta stack later cmd i n before own few position o
          (o + length p) behind (overwrite_all others whole) says inner there (omega arith) inside
          (omega (arith, long, ap (λ x. length (bytes_of x)) there)) in
      let mine : range o (o + length p - o) (overwrite_all others whole) ≡ p =
        ap (λ k. range o k (overwrite_all others whole)) (omega arith)
        ∙ (same ∙ overwrite_own o p (bytes_of (F.contents fs (agg_filename cmd persistent)))) in
      let copy' = copy ∙ ap (F.copy_in later (filename cmd scratch) 0) mine in
      ap (λ (r : Bool × F.State). F.contents r.1 (filename cmd scratch)) copy'
      ∙ copied_new later (filename cmd scratch) p gone
          (ap (λ (r : Bool × F.State). r.0) (sym copy') ∙ done)
