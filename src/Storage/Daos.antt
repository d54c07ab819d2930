-- ===== src/Storage/Daos.antt =====
-- daos_module_t of src/storage/daos_module.cpp: a key-value store for each rank as the persistent
-- storage. The DAOS library is not part of the repository: its calls are a record over the disk, in
-- which a store is named by the rank that its object id is made from.
pub mod Laws
mod Tests
use veloc.Base.{
  ℕ, ◌+◌, Bool, true, false, ◌&&◌, Option, none, some, List, [], ◌∷◌, if◌then◌else◌, length,
}
use veloc.Base.Int.{ℤ, pos, ◌==ℤ◌}
use veloc.Base.IntMap.{insert}
use veloc.Base.Bytes.{Bytes}
use veloc.Command.{Command, filename, stem}
use veloc.Command.Match.{match, matched, no_match, out_of_range}
use veloc.FileSystem.{FileSystem}
use veloc.FileUtil.{Walk, returned, threw}
use veloc.Storage.{Storage, VersionSet}

pub record Daos (F : FileSystem) : Type 0 where
  -- daos_init, daos_pool_connect and daos_cont_open == 0
  pub init : F.State → Bool × F.State
  pub connect : Bytes → F.State → Bool × F.State
  pub open_container : Bytes → F.State → Bool × F.State
  -- daos_kv_open == 0
  pub opens : F.State → ℤ → Bool
  -- the batches of keys that the calls of daos_kv_list give up to the end of the list; `none` is a
  -- call that fails
  pub keys : F.State → ℤ → List (Option (List Bytes))
  pub put : F.State → ℤ → Bytes → Bytes → Bool × F.State
  -- daos_kv_get without a buffer, and with one of that size
  pub get_size : F.State → ℤ → Bytes → Option ℕ
  pub get : F.State → ℤ → Bytes → Option Bytes
  pub remove : F.State → ℤ → Bytes → Bool × F.State
  -- mmap of a file that has been opened for reading, of its size
  pub can_map : F.State → Bytes → ℕ → Bool
  -- open with O_CREAT | O_TRUNC, posix_fallocate and mmap of so many bytes; false if one of these
  -- fails
  pub allocate : F.State → Bytes → ℕ → Bool × F.State
  -- what is written to the mapped file
  pub fill : F.State → Bytes → Bytes → F.State

module _ {F : FileSystem} (daos : Daos F) where
  -- The constructor; `none` is the FATAL exit.
  unfoldable pub make : Bytes → Bytes → F.State → Option F.State
  make pool cont fs =
      let (ready, fs) = daos.init fs in
      let (connected, fs') = daos.connect pool fs in
      let (opened, fs'') = daos.open_container cont fs' in
      if ready then (if connected then (if opened then some fs'' else none) else none) else none

  module _ (scratch : Bytes) where
    -- The keys of one batch.
    add_keys : Bytes → List Bytes → VersionSet → Walk VersionSet
    add_keys name [] result = returned true result
    add_keys name (key ∷ keys) result = elim (match key name) [
      | no_match ↦ add_keys name keys result
      | out_of_range ↦ threw result
      | matched id v ↦ add_keys name keys (insert v tt result)
    ]

    -- The loop over the batches.
    add_batches : Bytes → List (Option (List Bytes)) → VersionSet → Walk VersionSet
    unfolding add_keys
    add_batches name [] result = returned true result
    add_batches name (none ∷ batches) result = returned true result
    add_batches name (some keys ∷ batches) result = elim (add_keys name keys result) [
      | returned _ result' ↦ add_batches name batches result'
      | threw result' ↦ threw result'
    ]

    unfoldable pub get_versions : F.State → Command → VersionSet → Walk VersionSet
    unfolding add_batches
    get_versions fs cmd result =
        if daos.opens fs cmd.unique_id
        then add_batches cmd.name (daos.keys fs cmd.unique_id) result
        else returned true result

    put_file : F.State → Command → Option Bytes → Bool × F.State
    put_file fs cmd none = (false, fs)
    put_file fs cmd (some b) =
        if daos.can_map fs (filename cmd scratch) (length b)
        then daos.put fs cmd.unique_id (stem cmd) b
        else (false, fs)

    unfoldable pub flush : F.State → Command → Bool × F.State
    unfolding put_file
    flush fs cmd =
        if daos.opens fs cmd.unique_id
        then put_file fs cmd (F.contents fs (filename cmd scratch))
        else (false, fs)

    fill_file : Command → Bool × F.State → Bool × F.State
    fill_file cmd (false, fs) = (false, fs)
    fill_file cmd (true, fs) = elim (daos.get fs cmd.unique_id (stem cmd)) [
      | none ↦ (false, fs)
      | some b ↦ (true, daos.fill fs (filename cmd scratch) b)
    ]

    restore_size : F.State → Command → Option ℕ → Bool × F.State
    unfolding fill_file
    restore_size fs cmd none = (false, fs)
    restore_size fs cmd (some size) = fill_file cmd (daos.allocate fs (filename cmd scratch) size)

    unfoldable pub restore : F.State → Command → Bool × F.State
    unfolding restore_size
    restore fs cmd =
        if daos.opens fs cmd.unique_id
        then restore_size fs cmd (daos.get_size fs cmd.unique_id (stem cmd))
        else (false, fs)

    unfoldable pub exists : F.State → Command → Bool
    exists fs cmd =
        if daos.opens fs cmd.unique_id
        then elim (daos.get_size fs cmd.unique_id (stem cmd)) [ none ↦ false | some size ↦ true ]
        else false

    unfoldable pub remove : F.State → Command → Bool × F.State
    remove fs cmd =
        if daos.opens fs cmd.unique_id then daos.remove fs cmd.unique_id (stem cmd) else (false, fs)

    unfoldable pub storage : Storage F
    storage = record {
      get_versions = get_versions;
      remove = remove;
      flush = flush;
      restore = restore;
      exists = exists;
    }
