-- ===== src/Modules/Versioning.antt =====
-- versioning_module_t of src/modules/versioning_module.cpp: which versions of a checkpoint there
-- are, and the removal of old ones.
pub mod Trim
pub mod Latest
mod Tests
use veloc.Base.{
  ℕ, Bool, true, false, ◌&&◌, ◌||◌, Option, none, some, List, [], ◌∷◌, ◌++◌, ◌==◌, ltb,
  if◌then◌else◌, length,
}
use veloc.Base.Int.{ℤ, pos, negsuc, ◌==ℤ◌, ltb_ℤ, pos_part}
use veloc.Base.Bytes.{Bytes, bytes_eq}
use veloc.Base.IntMap.{IntMap, insert}
use veloc.Command.{Command, Opcode, id_ec, filename, meta_filename}
use veloc.Queue.{success, ignored, is_empty}
use veloc.FileSystem.{FileSystem}
use veloc.FileUtil.{Walk, returned, threw, parse_dir}
use veloc.Storage.{Storage, VersionSet}

abbrev pub no_versions : VersionSet
no_versions = []

-- What the constructor reads from the configuration. Without a storage max_versions is not set,
-- and not read either.
pub record Config (F : FileSystem) : Type 0 where
  pub storage : Option (Storage F)
  pub scratch : Bytes
  pub meta : Bytes
  pub max_versions : ℤ
  pub scratch_versions : ℤ

-- The two maps from a name and a rank to a set of versions; an entry that is missing is empty.
abbrev pub History : Type 0
History = Bytes → ℤ → VersionSet

pub record State : Type 0 where
  pub persistent : History
  pub scratch : History

abbrev pub set_entry : History → Command → VersionSet → History
set_entry h c v name id = if bytes_eq name c.name && id ==ℤ c.unique_id then v else h name id

-- Two sets in order are merged: std::set_union.
unfoldable pub set_union : VersionSet → VersionSet → VersionSet
set_union [] ys = ys
set_union ((x, _) ∷ xs) ys = insert x tt (set_union xs ys)

-- A set in the order of std::greater<int>.
unfoldable pub descending : VersionSet → List ℤ
descending [] = []
descending ((x, _) ∷ xs) = descending xs ++ x ∷ []

-- versions.lower_bound(v) in that order: the first element that is not greater than `v`.
unfoldable pub lower_bound : ℤ → List ℤ → Option ℤ
lower_bound v [] = none
lower_bound v (x ∷ xs) = if ltb_ℤ v x then lower_bound v xs else some x

abbrev pub or_ignored : Option ℤ → ℤ
or_ignored none = ignored
or_ignored (some v) = v

first : List ℤ → Option ℤ
first [] = none
first (x ∷ xs) = some x

-- What the TEST branch returns for the versions that were found.
unfoldable pub latest : ℤ → VersionSet → ℤ
unfolding lower_bound first descending
latest version versions = or_ignored (
    if version ==ℤ pos 0
    then first (descending versions)
    else lower_bound version (descending versions))

-- What process_command leaves behind: the status that it returns, or an exception that leaves the
-- histories as far as they had come.
pub data Result (S : Type 0) : Type 0 where
  status : ℤ → State → S → Result S
  throws : State → S → Result S

pub record Trimmed (S : Type 0) : Type 0 where
  pub versions : VersionSet
  pub state : S
  -- whether an exception ended the loop
  pub escaped : Bool

-- The two loops that erase the lowest versions while there are more than `max` of them; `drop` is
-- what is done for each before it is erased.
unfoldable pub trim : {S : Type 0} → (ℤ → S → Walk S) → ℕ → VersionSet → S → Trimmed S
trim drop max [] s = record { versions = []; state = s; escaped = false }
trim drop max ((v, u) ∷ vs) s = elim (ltb max (length ((v, u) ∷ vs))) [
  | false ↦ record { versions = (v, u) ∷ vs; state = s; escaped = false }
  | true ↦ elim (drop v s) [
    | threw s' ↦ record { versions = (v, u) ∷ vs; state = s'; escaped = true }
    | returned _ s' ↦ trim drop max vs s'
  ]
]

module _ (F : FileSystem) (cfg : Config F) where
  -- The versions of the scratch files of one rank, and those of the redundancy files.
  scratch_version_set : F.State → Bytes → ℤ → VersionSet → Walk VersionSet
  scratch_version_set fs cname req_id result =
      parse_dir F fs cfg.scratch cname
        (λ _ id v r. if id ==ℤ id_ec || id ==ℤ req_id then insert v tt r else r) result

  persistent_version_set : Option (Storage F) → F.State → Command → Walk VersionSet
  persistent_version_set none fs c = returned true no_versions
  persistent_version_set (some s) fs c = s.get_versions fs c no_versions

  test_scratch : Command → State → F.State → Walk VersionSet → Result F.State
  test_scratch c st fs (threw sh) = throws (record st { scratch = set_entry st.scratch c sh }) fs
  test_scratch c st fs (returned _ sh) =
      status (latest c.version (set_union (st.persistent c.name c.unique_id) sh))
        (record st { scratch = set_entry st.scratch c sh }) fs

  test_persistent : Command → State → F.State → Walk VersionSet → Result F.State
  unfolding test_scratch scratch_version_set
  test_persistent c st fs (threw ph) =
      throws (record st { persistent = set_entry st.persistent c ph }) fs
  test_persistent c st fs (returned _ ph) =
      test_scratch c (record st { persistent = set_entry st.persistent c ph }) fs
        (scratch_version_set fs c.name c.unique_id no_versions)

  -- What the loop over the persistent versions does for one of them.
  remove_persistent : Storage F → Command → ℤ → F.State → Walk F.State
  remove_persistent s c v fs =
      let old = record c { version = v } in
      let fs' = (s.remove fs old).1 in
      returned true
        (if is_empty cfg.meta then fs' else (F.unlink fs' (meta_filename old cfg.meta)).1)

  -- What the loop over the scratch versions does for one of them.
  unfoldable pub remove_scratch : Command → ℤ → F.State → Walk F.State
  remove_scratch c v fs =
      parse_dir F fs cfg.scratch c.name (λ f _ w fs'. if w ==ℤ v then (F.unlink fs' f).1 else fs')
        fs

  -- The persistent part of the CHECKPOINT branch.
  trim_persistent : Option (Storage F) → Command → State → F.State → Trimmed F.State
  unfolding remove_persistent
  trim_persistent none c st fs = record {
    versions = st.persistent c.name c.unique_id;
    state = fs;
    escaped = false;
  }
  trim_persistent (some s) c st fs =
      let ph = st.persistent c.name c.unique_id in
      if ltb_ℤ (pos 0) cfg.max_versions
      then trim (remove_persistent s c) (pos_part cfg.max_versions) (insert c.version tt ph) fs
      else record { versions = ph; state = fs; escaped = false }

  -- The scratch part.
  trim_scratch : Command → State → F.State → Trimmed F.State
  unfolding remove_scratch
  trim_scratch c st fs =
      let sh = st.scratch c.name c.unique_id in
      if ltb_ℤ (pos 0) cfg.scratch_versions
      then trim (remove_scratch c) (pos_part cfg.scratch_versions) (insert c.version tt sh) fs
      else record { versions = sh; state = fs; escaped = false }

  finish_checkpoint : Command → State → Trimmed F.State → Result F.State
  finish_checkpoint c st t =
      let st' = record st { scratch = set_entry st.scratch c t.versions } in
      if t.escaped then throws st' t.state else status success st' t.state

  process_checkpoint : Command → State → F.State → Result F.State
  unfolding trim_persistent trim_scratch finish_checkpoint
  process_checkpoint c st fs =
      let t = trim_persistent cfg.storage c st fs in
      let st' = record st { persistent = set_entry st.persistent c t.versions } in
      if t.escaped then throws st' t.state else finish_checkpoint c st' (trim_scratch c st' t.state)

  storage_has : Option (Storage F) → F.State → Command → Bool
  storage_has none fs c = false
  storage_has (some s) fs c = s.exists fs c

  process_restart : Command → State → F.State → Result F.State
  unfolding storage_has
  process_restart c st fs =
      let ph = st.persistent c.name c.unique_id in
      let sh = st.scratch c.name c.unique_id in
      status ignored
        (record {
          persistent =
              if storage_has cfg.storage fs c
              then set_entry st.persistent c (insert c.version tt ph)
              else st.persistent;
          scratch =
              if F.can_read fs (filename c cfg.scratch)
              then set_entry st.scratch c (insert c.version tt sh)
              else st.scratch;
        })
        fs

  dispatch : Opcode → Command → State → F.State → Result F.State
  unfolding test_persistent persistent_version_set process_checkpoint process_restart
  dispatch Opcode.test c st fs = test_persistent c st fs (persistent_version_set cfg.storage fs c)
  dispatch Opcode.checkpoint c st fs = process_checkpoint c st fs
  dispatch Opcode.restart c st fs = process_restart c st fs
  dispatch _ c st fs = status ignored st fs

  unfoldable pub process_command : Command → State → F.State → Result F.State
  unfolding dispatch
  process_command c st fs = dispatch c.command c st fs
