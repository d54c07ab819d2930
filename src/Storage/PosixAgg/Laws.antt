-- ===== src/Storage/PosixAgg/Laws.antt =====
-- Each rank gets its own part of the shared file back.
use veloc.Base.{
  ℕ, suc, ◌+◌, ◌*◌, ◌%◌, ◌^◌, ◌<◌, ◌≤◌, ◌≡◌, refl, ap, sym, ◌∙◌, some, List, [], ◌∷◌, ◌++◌,
  append_assoc, append-nil, arith, length, length-append, take, drop, take_all, take-append,
  drop-append, length-drop,
}
use veloc.Base.Int.{ℤ, pos}
use veloc.Base.Bytes.{Bytes}
use veloc.Command.{Command, agg_filename}
use veloc.Header.Codec.{le_bytes, le_value, length-le_bytes, le_value-le_bytes}
use veloc.FileSystem.{FileSystem, ReadLaws}
use veloc.FileUtil.{overwrite, posix_transfer_file}
use veloc.Storage.Posix.Laws.{overwrite_start}
use veloc.Client.Checkpoint.{longs, to_size}
use veloc.Storage.PosixAgg.{Stack, rank_after, long_max, restore, with_ranks}
use veloc.Storage.PosixAgg.Overwrite.{range}

length-longs : (xs : List ℤ) → length (longs xs) ≡ length xs * 8
length-longs [] = refl
length-longs (x ∷ xs) =
    length-append (le_bytes 8 (to_size x)) (longs xs)
    ∙ omega (arith, length-le_bytes 8 (to_size x), length-longs xs)

longs-append : (xs ys : List ℤ) → longs (xs ++ ys) ≡ longs xs ++ longs ys
longs-append [] ys = refl
longs-append (x ∷ xs) ys =
    ap (λ b. le_bytes 8 (to_size x) ++ b) (longs-append xs ys)
    ∙ sym (append_assoc (le_bytes 8 (to_size x)) (longs xs) (longs ys))

pub take_front : (n : ℕ) (xs ys : Bytes) → length xs ≡ n → take n (xs ++ ys) ≡ xs
take_front n xs ys e = ap (λ m. take m (xs ++ ys)) (sym e) ∙ take-append xs ys

drop_front : (n : ℕ) (xs ys : Bytes) → length xs ≡ n → drop n (xs ++ ys) ≡ ys
drop_front n xs ys e = ap (λ m. drop m (xs ++ ys)) (sym e) ∙ drop-append xs ys

-- The longs of the file from one of them on.
longs_from : (k : ℕ) (xs ys : List ℤ) → length xs ≡ k → drop (k * 8) (longs (xs ++ ys)) ≡ longs ys
longs_from k xs ys e =
    ap (drop (k * 8)) (longs-append xs ys)
    ∙ drop_front (k * 8) (longs xs) (longs ys) (length-longs xs ∙ ap (λ n. n * 8) e)

pub long_front : (n : ℕ) (xs : List ℤ) → take 8 (longs (pos n ∷ xs)) ≡ le_bytes 8 (to_size (pos n))
long_front n xs = take_front 8 (le_bytes 8 (to_size (pos n))) (longs xs) (length-le_bytes 8 _)

-- A long that is read over what a variable held.
pub long_value :
    (n : ℕ) (more old : Bytes)
    → n < 2 ^ 63
    → le_value (take 8 (overwrite 0 (le_bytes 8 (to_size (pos n)) ++ more) old)) ≡ n
long_value n more old h =
    let bytes = le_bytes 8 (to_size (pos n)) in
    ap (λ b. le_value (take 8 b)) (overwrite_start (bytes ++ more) old ∙ append_assoc bytes more _)
    ∙ (ap le_value (take_front 8 bytes _ (length-le_bytes 8 _))
        ∙ (le_value-le_bytes 8 (to_size (pos n)) (omega arith) ∙ omega (arith, h)))

pub second_value :
    (m n : ℕ) (old : Bytes)
    → n < 2 ^ 63
    → le_value (
        take 8
          (drop 8 (overwrite 0 (le_bytes 8 (to_size (pos m)) ++ le_bytes 8 (to_size (pos n))) old)))
      ≡ n
second_value m n old h =
    let first = le_bytes 8 (to_size (pos m)) in
    let second = le_bytes 8 (to_size (pos n)) in
    ap (λ b. le_value (take 8 (drop 8 b)))
      (overwrite_start (first ++ second) old ∙ append_assoc first second _)
    ∙ (ap (λ b. le_value (take 8 b)) (drop_front 8 first _ (length-le_bytes 8 _))
        ∙ (ap le_value (take_front 8 second _ (length-le_bytes 8 _))
            ∙ (le_value-le_bytes 8 (to_size (pos n)) (omega arith) ∙ omega (arith, h))))

pub two_front :
    (m n : ℕ) (xs : List ℤ)
    → take 16 (longs (pos m ∷ pos n ∷ xs))
      ≡ le_bytes 8 (to_size (pos m)) ++ le_bytes 8 (to_size (pos n))
two_front m n xs =
    let first = le_bytes 8 (to_size (pos m)) in
    let second = le_bytes 8 (to_size (pos n)) in
    ap (take 16) (sym (append_assoc first second (longs xs)))
    ∙ take_front 16 (first ++ second) (longs xs) (
        length-append first second
        ∙ omega (arith, length-le_bytes 8 (to_size (pos m)), length-le_bytes 8 (to_size (pos n))))

-- A part of a file that has it.
pub transfer_part :
    (F : FileSystem) (fs : F.State) (p q b : Bytes) (o size : ℕ)
    → F.contents fs p ≡ some b
    → o + size ≤ length b
    → length b < 2 ^ 64
    → posix_transfer_file F fs p q o 0 size ≡ F.copy_in fs q 0 (range o size b)
unfolding posix_transfer_file
transfer_part F fs p q b o size e inside small =
    rw (e, posix_transfer_file) (ap (λ n. F.copy_in fs q 0 (take n (drop o b))) (omega arith))

pub transfer_rest :
    (F : FileSystem) (fs : F.State) (p q b : Bytes) (o : ℕ)
    → F.contents fs p ≡ some b
    → o ≤ length b
    → length b < 2 ^ 63
    → posix_transfer_file F fs p q o 0 long_max ≡ F.copy_in fs q 0 (drop o b)
unfolding posix_transfer_file
transfer_rest F fs p q b o e inside small =
    rw (e, posix_transfer_file)
      (ap (F.copy_in fs q 0)
        (ap (λ n. take n (drop o b)) (omega (arith, length-drop o b)) ∙ take_all (drop o b)))

pub rank_after-pos :
    (cmd : Command) (i : ℕ) → cmd.unique_id ≡ pos i → i < 2 ^ 31 → rank_after cmd ≡ suc i
rank_after-pos cmd i e h = rw e (omega (arith, h))

pub plain_value :
    (n : ℕ) (old : Bytes)
    → n < 2 ^ 63
    → le_value (take 8 (overwrite 0 (le_bytes 8 (to_size (pos n))) old)) ≡ n
plain_value n old h =
    ap (λ b. le_value (take 8 (overwrite 0 b old)))
      (sym (append-nil (le_bytes 8 (to_size (pos n)))))
    ∙ long_value n [] old h

-- What the metadata file says: the number of ranks, and their offsets.
pub record Says (F : FileSystem) (fs : F.State) (path : Bytes) (n : ℕ) (offsets : List ℤ)
    : Type 0 where
  pub written : F.contents fs path ≡ some (longs (pos n ∷ offsets))
  pub fits : n < 2 ^ 63

module _ {F : FileSystem} (reads : ReadLaws F) (scratch persistent meta : Bytes) (stack : Stack)
    (fs : F.State) (cmd : Command) (i n : ℕ) (before behind : List ℤ) (own : cmd.unique_id ≡ pos i)
    (small : i < 2 ^ 31) (position : length before ≡ i)
    (says : Says F fs (agg_filename cmd meta) n (before ++ behind)) where
  pub ranks_read :
      restore F scratch persistent meta stack fs cmd
      ≡ with_ranks F scratch persistent meta fs cmd stack (some (le_bytes 8 (to_size (pos n))))
  unfolding restore
  ranks_read =
      rw
        (
          restore,
          says.written,
          reads.pread-contents fs (agg_filename cmd meta) (longs (pos n ∷ (before ++ behind))) 0 8
              says.written,
          long_front n (before ++ behind),
        )
        refl

  pub offsets_read :
      (size : ℕ)
      → F.pread fs (agg_filename cmd meta) (rank_after cmd * 8 % 2 ^ 64) size
        ≡ some (take size (longs behind))
  offsets_read size =
      reads.pread-contents fs (agg_filename cmd meta) (longs (pos n ∷ (before ++ behind))) _ size
        says.written
      ∙ ap (λ b. some (take size b))
          (ap (λ k. drop k (longs (pos n ∷ (before ++ behind))))
              (omega (arith, small, rank_after-pos cmd i own small))
            ∙ longs_from (suc i) (pos n ∷ before) behind (ap suc position))
