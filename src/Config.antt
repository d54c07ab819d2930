-- ===== src/Config.antt =====
-- config_t of src/common/config.cpp: the parameters, from the environment and the configuration file,
-- and what its constructor makes of them. The parser of the file is not the repository's own: it is
-- the function that gives the text of a parameter, empty where there is none.
pub mod Numbers
pub mod Laws
mod Tests
use veloc.Base.{
  ℕ, ◌+◌, ◌-◌, ◌≡◌, Bool, true, false, not, ◌&&◌, ◌||◌, Option, none, some, List, [], ◌∷◌, ◌++◌,
  leb, ◌==◌, if◌then◌else◌,
}
use veloc.Base.Int.{ℤ, pos, ltb_ℤ, ◌==ℤ◌}
use veloc.Base.Bytes.{Bytes, codes, bytes_eq}
use veloc.Queue.{is_empty}
use veloc.FileSystem.{FileSystem}
use veloc.FileUtil.{check_dir}
use veloc.Storage.{Storage}
use veloc.Storage.Posix.{posix}
use veloc.Storage.PosixAgg.{Stack, posix_agg}
use veloc.Storage.PosixAgg as AggModule
use veloc.Storage.Axl as AxlModule
use veloc.Storage.Axl.{Axl}
use veloc.Storage.Daos as DaosModule
use veloc.Storage.Daos.{Daos}

-- getenv, and reader->Get("", param, "") where there is a reader.
pub record Source : Type 0 where
  pub getenv : Bytes → Option Bytes
  pub reader : Option (Bytes → Bytes)

abbrev to_upper : ℕ → ℕ
to_upper c = if leb b'a' c && leb c b'z' then c - 32 else c

abbrev to_lower : ℕ → ℕ
to_lower c = if leb b'A' c && leb c b'Z' then c + 32 else c

abbrev pub mapped : (ℕ → ℕ) → Bytes → Bytes
mapped f [] = []
mapped f (c ∷ cs) = f c ∷ mapped f cs

abbrev pub or_default : Option Bytes → Bytes → Bytes
or_default none default_value = default_value
or_default (some value) default_value = value

unfoldable pub env_param : Source → Bytes → Bytes
env_param s param = or_default (s.getenv (codes "VELOC_" ++ mapped to_upper param)) []

-- isspace in the C locale
abbrev pub is_space : ℕ → Bool
is_space c = (c == b' ') || (leb 9 c && leb c 13)

unfoldable pub skip_spaces : Bytes → Bytes
skip_spaces [] = []
skip_spaces (c ∷ cs) = let rest = skip_spaces cs in if is_space c then rest else c ∷ cs

unfoldable pub word : Bytes → Bytes
word [] = []
word (c ∷ cs) = let rest = word cs in if is_space c then [] else c ∷ rest

-- ss >> value for a string, which fails where there is no word
unfoldable pub read_word : Bytes → Option Bytes
unfolding word skip_spaces
read_word s = let w = word (skip_spaces s) in if is_empty w then none else some w

from_reader : Option (Bytes → Bytes) → Bytes → Bytes
from_reader none param = []
from_reader (some get) param = get param

-- The text that get_optional reads the value from.
unfoldable pub text : Source → Bytes → Bytes
unfolding from_reader
text s param =
    let ret = env_param s param in if is_empty ret then from_reader s.reader param else ret

-- get_optional<std::string>
unfoldable pub get_optional : Source → Bytes → Option Bytes
get_optional s param = let ret = text s param in if is_empty ret then none else read_word ret

-- get, where `none` is the FATAL exit
abbrev pub get : Source → Bytes → Option Bytes
get s param = get_optional s param

unfoldable pub get_bool : Source → Bytes → Bool → Bool
get_bool s param default_value = elim (get_optional s param) [
  | none ↦ default_value
  | some ret ↦ bytes_eq (mapped to_lower ret) (codes "true")
]

-- What the constructor settles.
pub record Settings (F : FileSystem) : Type 0 where
  pub log_file : Option Bytes
  pub sync_mode : Bool
  pub scratch : Bytes
  pub storage : Option (Storage F)

-- The modules that a build may have, and the name that tells the logs of hosts and users apart.
pub record Build (F : FileSystem) : Type 0 where
  pub axl : Option (Axl F)
  pub daos : Option (Daos F)
  pub unique_suffix : Bytes
  -- what the variables of posix_agg_module_t::restore hold
  pub stack : Stack

abbrev pub is_some : Option Bytes → Bool
is_some none = false
is_some (some value) = true

unfoldable pub log_file : Source → Bool → Bytes → Option Bytes
log_file s is_backend suffix =
    let log_prefix = get_optional s (codes "log_prefix") in
    if is_some log_prefix || is_backend
    then some (
        or_default log_prefix (codes "/dev/shm")
        ++ (codes "/"
            ++ ((if is_backend then codes "veloc-backend-" else codes "veloc-client-")
                ++ (suffix ++ codes ".log"))))
    else none

module _ {F : FileSystem} (b : Build F) (s : Source) (scratch : Bytes) where
  -- The storage in a directory, by its constructor.
  posix_storage : Bytes → F.State → Option (Option (Storage F) × F.State)
  posix_storage persistent fs =
      if get_bool s (codes "aggregated") false
      then (let meta = or_default (get_optional s (codes "meta")) [] in
          let (found, fs') = AggModule.make F scratch persistent meta fs in
          if found then some (some (posix_agg F scratch persistent meta b.stack), fs') else none)
      else (let (found, fs') = check_dir F fs persistent in
          if found then some (some (posix F scratch persistent), fs') else none)

  axl_storage : Option (Axl F) → Bytes → Bytes → F.State → Option (Option (Storage F) × F.State)
  axl_storage none persistent type fs = none
  axl_storage (some axl) persistent type fs = elim (AxlModule.make axl persistent type fs) [
    | none ↦ none
    | some (t, fs') ↦ some (some (AxlModule.storage axl t scratch persistent), fs')
  ]

  daos_storage : Option (Daos F) → Bytes → Bytes → F.State → Option (Option (Storage F) × F.State)
  daos_storage none pool cont fs = none
  daos_storage (some daos) pool cont fs = elim (DaosModule.make daos pool cont fs) [
    | none ↦ none
    | some fs' ↦ some (some (DaosModule.storage daos scratch), fs')
  ]

  directory_storage : Option Bytes → F.State → Option (Option (Storage F) × F.State)
  unfolding posix_storage axl_storage
  directory_storage none fs = some (none, fs)
  directory_storage (some persistent) fs = elim (get_optional s (codes "axl_type")) [
    | none ↦ posix_storage persistent fs
    | some type ↦ axl_storage b.axl persistent type fs
  ]

  -- The persistent storage; `none` is a FATAL exit, and `some (none, _)` that there is none.
  choose_storage : Option Bytes → Option Bytes → F.State → Option (Option (Storage F) × F.State)
  unfolding directory_storage daos_storage
  choose_storage (some pool) (some cont) fs = daos_storage b.daos pool cont fs
  choose_storage (some pool) none fs = directory_storage (get_optional s (codes "persistent")) fs
  choose_storage none cont fs = directory_storage (get_optional s (codes "persistent")) fs

-- mode, which has to be sync or async
unfoldable pub sync_mode : Option Bytes → Option Bool
sync_mode none = none
sync_mode (some value) =
    if bytes_eq value (codes "sync")
    then some true
    else if bytes_eq value (codes "async")
    then some false
    else none

module _ {F : FileSystem} (b : Build F) (s : Source) (is_backend : Bool) where
  with_storage :
      Bool → Bytes → Option (Option (Storage F) × F.State) → Option (Settings F × F.State)
  with_storage sync scratch none = none
  with_storage sync scratch (some (storage, fs)) = some (
    record {
      log_file = log_file s is_backend b.unique_suffix;
      sync_mode = sync;
      scratch = scratch;
      storage = storage;
    },
    fs,
  )

  with_scratch : Bool → Option Bytes → F.State → Option (Settings F × F.State)
  unfolding with_storage choose_storage
  with_scratch sync none fs = none
  with_scratch sync (some scratch) fs =
      let (found, fs') = check_dir F fs scratch in
      if found
      then with_storage sync scratch (
          choose_storage b s scratch (get_optional s (codes "daos_pool"))
            (get_optional s (codes "daos_cont")) fs')
      else none

  -- The constructor, behind the parse of a file, which gave this error; `none` is a FATAL exit.
  unfoldable pub make : ℤ → F.State → Option (Settings F × F.State)
  unfolding with_scratch
  make parse_error fs =
      if parse_error ==ℤ pos 0
      then elim (sync_mode (get_optional s (codes "mode"))) [
        | none ↦ none
        | some sync ↦ with_scratch sync (get s (codes "scratch")) fs
      ]
      else none
