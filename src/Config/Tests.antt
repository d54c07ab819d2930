-- ===== src/Config/Tests.antt =====
-- Configurations, and the theorems at them.
use veloc.Base.{◌≡◌, refl, false, none, some, Option, [], inr, if◌then◌else◌}
use veloc.Base.Int.{pos, negsuc, ◌==ℤ◌}
use veloc.Base.Bytes.{Bytes, bytes_eq, codes}
use veloc.FileSystem.Disk.{disk}
use veloc.FileUtil.{check_dir}
use veloc.Config.{
  sync_mode, Source, Build, Settings, get_optional, make, read_word, word, skip_spaces, text,
  env_param, log_file,
}
use veloc.Config.Numbers.{get_int, digits}
use veloc.Config.Laws.{get_optional_word}

-- A file with a mode and a scratch directory, and a limit in the environment.
abbrev file : Bytes → Bytes
file param =
    if bytes_eq param (codes "mode")
    then codes "async"
    else if bytes_eq param (codes "scratch")
    then codes "/my scratch"
    else []

abbrev environment : Bytes → Option Bytes
environment name = if bytes_eq name (codes "VELOC_EC_INTERVAL") then some (codes " -30s") else none

abbrev source : Source
source = record { getenv = environment; reader = some file }

interval_of_text : get_int source (codes "ec_interval") ≡ some (negsuc 29)
unfolding get_int text env_param bytes_eq digits skip_spaces
interval_of_text = refl

abbrev build : Build disk
build = record {
  axl = none;
  daos = none;
  unique_suffix = codes "host-0";
  stack = record { num_ranks = []; offset = [] };
}

get_optional_word_example : get_optional source (codes "scratch") ≡ some (codes "/my")
unfolding bytes_eq
get_optional_word_example =
    get_optional_word source (codes "scratch") (codes "/my") (codes " scratch")
      (refl, (refl, (refl, (refl, tt)))) refl (inr (refl, (file, refl, refl)))

abbrev settings : Settings disk
settings = record { log_file = none; sync_mode = false; scratch = codes "/my"; storage = none }

configured : make build source false (pos 0) [] ≡ some (settings, [])
unfolding make sync_mode get_optional text env_param read_word word skip_spaces bytes_eq log_file
    check_dir ◌==ℤ◌
configured = refl
