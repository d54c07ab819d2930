-- ===== src/Inspect/Tests.antt =====
-- A checkpoint of two regions, and the command line that extracts the second.
use veloc.Base.{◌≡◌, refl, false, some, none, [], ◌∷◌, ◌+◌, arith, take}
use veloc.Base.Int.{pos, ◌==ℤ◌}
use veloc.Base.Bytes.{codes}
use veloc.Base.IntMap.{find}
use veloc.Client.Memory.{Memory, read_mem}
use veloc.Client.State.{raw, Regions}
use veloc.Client.RoundTrip.{IsStorable, image}
use veloc.Inspect.{Args, Flag, extracted, usage, parse, no_args, inspect, main}
use veloc.Inspect.Laws.{extract_written}

abbrev two_regions : Regions
two_regions = (pos 1, raw 100 2) ∷ (pos 2, raw 200 3) ∷ []

two_regions-IsStorable : IsStorable two_regions
two_regions-IsStorable = record {
  raws = (
    ((omega arith, omega arith), omega arith, refl),
    (((omega arith, omega arith), omega arith, refl), tt),
  );
  ordered = (omega arith, tt);
  few = omega arith;
  small = omega arith;
}

abbrev memory : Memory
memory a = a + 7

abbrev args : Args
args = record { header = false; id = pos 2; size = 2; ckpt_name = codes "/s/wave-3-1.dat" }

args_of_line :
    parse
      (Flag.extract (some (pos 2)) ∷ Flag.size (some 2) ∷ Flag.ckpt (codes "/s/wave-3-1.dat") ∷ [])
      no_args
    ≡ some args
unfolding parse
args_of_line = refl

nothing_to_do : main (λ name. none) [] ≡ usage
unfolding main
nothing_to_do = refl

extract_written_example :
    inspect (some (image memory two_regions)) args ≡ extracted (take 2 (read_mem memory 200 3))
unfolding find ◌==ℤ◌
extract_written_example =
    extract_written memory two_regions args 200 3 two_regions-IsStorable (omega arith) refl refl
      (omega arith)
