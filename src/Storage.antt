-- ===== src/Storage.antt =====
-- storage_module_t of src/storage/storage_module.hpp: the operations of a persistent storage. A
-- subclass is a value of the record; the base class, which does nothing, is `base`.
pub mod Posix
pub mod PosixAgg
pub mod Axl
pub mod Daos
use veloc.Base.{Bool, true, false}
use veloc.Base.IntMap.{IntMap}
use veloc.Command.{Command}
use veloc.FileSystem.{FileSystem}
use veloc.FileUtil.{Walk, returned}

-- std::set<int>
abbrev pub VersionSet : Type 0
VersionSet = IntMap (Unit {0})

pub record Storage (F : FileSystem) : Type 0 where
  -- the set with the versions of the request's name and rank added
  pub get_versions : F.State → Command → VersionSet → Walk VersionSet
  pub remove : F.State → Command → Bool × F.State
  pub flush : F.State → Command → Bool × F.State
  pub restore : F.State → Command → Bool × F.State
  pub exists : F.State → Command → Bool

unfoldable pub base : (F : FileSystem) → Storage F
base F = record {
  get_versions = λ s cmd result. returned true result;
  remove = λ s cmd. (false, s);
  flush = λ s cmd. (false, s);
  restore = λ s cmd. (false, s);
  exists = λ s cmd. false;
}
