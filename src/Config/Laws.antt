-- ===== src/Config/Laws.antt =====
-- Which value a parameter has.
use veloc.Base.{
  subst, if-elim, ℕ, ◌≡◌, refl, ap, sym, ◌∙◌, Bool, true, false, Option, none, some, [], ◌∷◌, ◌++◌,
  if◌then◌else◌, if_true, if_false, All, ◌⊎◌, inl, inr,
}
use veloc.Base.Int.{ℤ, pos, ◌==ℤ◌}
use veloc.Base.Bytes.{Bytes, codes}
use veloc.Queue.{is_empty}
use veloc.Command.{Command}
use veloc.Queue.{ignored}
use veloc.FileSystem.{FileSystem}
use veloc.FileUtil.{check_dir}
use veloc.Modules.Transfer
use veloc.Modules.Transfer.{Timestamps, process_command}
use veloc.Config.{
  Build, Settings, make, sync_mode, with_scratch, with_storage, choose_storage, directory_storage,
  get, Source, env_param, is_space, skip_spaces, word, read_word, text, from_reader, get_optional,
  mapped, to_upper, or_default,
}

-- A word: at least one byte, and no blanks.
abbrev pub IsWord : Bytes → Type 0
IsWord w = (is_empty w ≡ false) × All (λ c. is_space c ≡ false) w

-- What may stand behind it: nothing, or a blank and anything.
abbrev pub Ends : Bytes → Type 0
Ends [] = Unit
Ends (c ∷ cs) = is_space c ≡ true

word_lem : (w rest : Bytes) → All (λ c. is_space c ≡ false) w → Ends rest → word (w ++ rest) ≡ w
unfolding word
word_lem [] [] _ _ = refl
word_lem [] (c ∷ cs) _ e = if_true (is_space c) _ _ e
word_lem (c ∷ w) rest (h, hs) e = if_false (is_space c) _ _ h ∙ ap (◌∷◌ c) (word_lem w rest hs e)

read_word_lem : (w rest : Bytes) → IsWord w → Ends rest → read_word (w ++ rest) ≡ some w
unfolding read_word skip_spaces
read_word_lem [] rest (h, _) e = cc
read_word_lem (c ∷ w) rest (_, (h, hs)) e =
    let whole : word (skip_spaces (c ∷ (w ++ rest))) ≡ c ∷ w =
      ap word (if_false (is_space c) _ _ h) ∙ word_lem (c ∷ w) rest (h, hs) e in
    ap (λ x. if is_empty x then none else some x) whole

optional_lem :
    (s : Source) (param w rest : Bytes)
    → IsWord w
    → Ends rest
    → text s param ≡ w ++ rest
    → get_optional s param ≡ some w
unfolding get_optional
optional_lem s param [] rest (h, _) ends e = cc
optional_lem s param (c ∷ w) rest h ends e =
    ap (λ ret. if is_empty ret then none else read_word ret) e ∙ read_word_lem (c ∷ w) rest h ends

abbrev pub variable_of : Bytes → Bytes
variable_of param = codes "VELOC_" ++ mapped to_upper param

env_param_is :
    (s : Source) (param : Bytes) (o : Option Bytes)
    → s.getenv (variable_of param) ≡ o
    → env_param s param ≡ or_default o []
unfolding env_param
env_param_is s param o e = ap (λ o'. or_default o' []) e

from_environment :
    (s : Source) (param : Bytes) (c : ℕ) (cs : Bytes)
    → s.getenv (variable_of param) ≡ some (c ∷ cs)
    → text s param ≡ c ∷ cs
unfolding text
from_environment s param c cs e =
    ap (λ ret. if is_empty ret then from_reader s.reader param else ret)
      (env_param_is s param (some (c ∷ cs)) e)

from_file :
    (s : Source) (param : Bytes) (get : Bytes → Bytes)
    → s.getenv (variable_of param) ≡ none
    → s.reader ≡ some get
    → text s param ≡ get param
unfolding text from_reader
from_file s param get unset e =
    ap (λ ret. if is_empty ret then from_reader s.reader param else ret)
      (env_param_is s param none unset)
    ∙ ap (λ r. from_reader r param) e

-- A parameter has the value of the variable of the environment that is called VELOC_ and its name in
-- capitals, whatever the file says; where that variable is not set, it has the value in the file. In
-- either case the value is the first word of the text: it ends at the first blank, so that a path
-- with a blank in it is cut off there.
pub get_optional_word :
    (s : Source) (param w rest : Bytes)
    → IsWord w
    → Ends rest
    → ((s.getenv (variable_of param) ≡ some (w ++ rest))
        ⊎ ((s.getenv (variable_of param) ≡ none)
            × ((get : Bytes → Bytes) × (s.reader ≡ some get) × (get param ≡ w ++ rest))))
    → get_optional s param ≡ some w
get_optional_word s param [] rest (h, _) ends source = cc
get_optional_word s param (c ∷ w) rest h ends (inl set) =
    optional_lem s param (c ∷ w) rest h ends (from_environment s param c (w ++ rest) set)
get_optional_word s param (c ∷ w) rest h ends (inr (unset, (get, there, e))) =
    optional_lem s param (c ∷ w) rest h ends (from_file s param get unset there ∙ e)

module _ {F : FileSystem} (b : Build F) (s : Source) (is_backend : Bool) where
  abbrev NoStorage : Option (Settings F × F.State) → Type 0
  NoStorage none = Unit
  NoStorage (some (settings, fs)) = settings.storage ≡ none

  no_choice :
      (scratch : Bytes) (cont : Option Bytes) (fs : F.State)
      → get_optional s (codes "daos_pool") ≡ none
      → get_optional s (codes "persistent") ≡ none
      → choose_storage b s scratch (get_optional s (codes "daos_pool")) cont fs ≡ some (none, fs)
  unfolding choose_storage directory_storage
  no_choice scratch cont fs pool persistent =
      ap (λ o. choose_storage b s scratch o cont fs) pool
      ∙ ap (λ o. directory_storage b s scratch o fs) persistent

  scratch-NoStorage :
      (sync : Bool) (scratch : Option Bytes) (fs : F.State)
      → get_optional s (codes "daos_pool") ≡ none
      → get_optional s (codes "persistent") ≡ none
      → NoStorage (with_scratch b s is_backend sync scratch fs)
  unfolding with_scratch with_storage
  scratch-NoStorage sync none fs _ _ = tt
  scratch-NoStorage sync (some scratch) fs pool persistent =
      if-elim NoStorage (check_dir F fs scratch).0 _ _
        (λ _.
          subst (λ o. NoStorage (with_storage b s is_backend sync scratch o))
            (sym (
              no_choice scratch (get_optional s (codes "daos_cont")) (check_dir F fs scratch).1 pool
                persistent))
            refl)
        (λ _. tt)

  mode-NoStorage :
      (sync : Option Bool) (fs : F.State)
      → get_optional s (codes "daos_pool") ≡ none
      → get_optional s (codes "persistent") ≡ none
      → NoStorage (elim sync as (λ _. Option (Settings F × F.State)) [
        | none ↦ none
        | some sync ↦ with_scratch b s is_backend sync (get s (codes "scratch")) fs
      ])
  mode-NoStorage none fs _ _ = tt
  mode-NoStorage (some sync) fs pool persistent =
      scratch-NoStorage sync (get s (codes "scratch")) fs pool persistent

  make-NoStorage :
      (parse_error : ℤ) (fs : F.State)
      → get_optional s (codes "daos_pool") ≡ none
      → get_optional s (codes "persistent") ≡ none
      → NoStorage (make b s is_backend parse_error fs)
  unfolding make
  make-NoStorage parse_error fs pool persistent =
      if-elim NoStorage (parse_error ==ℤ pos 0) _ _
        (λ _. mode-NoStorage (sync_mode (get_optional s (codes "mode"))) fs pool persistent)
        (λ _. tt)

  -- A configuration that names neither a DAOS pool nor a persistent directory, if it is accepted, has
  -- no storage: the transfer module then ignores every request, a restart of a checkpoint that is in
  -- the scratch directory included.
  pub without_storage :
      (parse_error : ℤ) (fs fs' : F.State) (settings : Settings F) (interval : Option ℤ) (now : ℕ)
      (c : Command) (ts : Timestamps) (disk : F.State)
      → get_optional s (codes "daos_pool") ≡ none
      → get_optional s (codes "persistent") ≡ none
      → make b s is_backend parse_error fs ≡ some (settings, fs')
      → process_command (Transfer.make settings.storage interval) settings.scratch now c ts disk
        ≡ (ignored, ts, disk)
  unfolding process_command Transfer.make
  without_storage parse_error fs fs' settings interval now c ts disk pool persistent e =
      let gone : settings.storage ≡ none =
        subst NoStorage e (make-NoStorage parse_error fs pool persistent) in
      ap (λ o. process_command (Transfer.make o interval) settings.scratch now c ts disk) gone
