-- ===== src/Command/Tests.antt =====
-- The file names at concrete requests, and the theorems about them at such requests.
use veloc.Base.{◌≡◌, refl, [], ◌++◌, true, some, arith}
use veloc.Base.Int.{pos, negsuc}
use veloc.Base.Bytes.{codes}
use veloc.Command.{Command, Opcode, make, c_str, stem, filename, meta_filename, agg_filename}
use veloc.Command.Decimal.{to_string}
use veloc.Command.Match.{match, matched, no_match, out_of_range}
use veloc.Command.Match.RoundTrip.{IsNumbered, match-stem}
use veloc.Command.Match.Collision.{stem-injective}
use veloc.Command.Name.{validate_name}

abbrev wave : Command
wave = record {
  unique_id = pos 12;
  command = Opcode.checkpoint;
  version = pos 7;
  offset = 0;
  name = codes "wave.x";
  original = [];
}

made : make (pos 12) Opcode.checkpoint (pos 7) (codes "wave.x") ≡ some wave
unfolding make c_str
made = refl

chksum_path : meta_filename wave (codes "/m") ≡ codes "/m/wave.x-12-7.dat.chksum"
unfolding meta_filename filename to_string
chksum_path = refl

agg_path : agg_filename wave (codes "/p") ≡ codes "/p/wave.x-agg-7.dat"
unfolding agg_filename to_string
agg_path = refl

digits_test : to_string (pos 1204) ≡ codes "1204"
unfolding to_string
digits_test = refl

negative_test : to_string (negsuc 6) ≡ codes "-7"
unfolding to_string
negative_test = refl

rank_file : match (codes "wave-12-7.dat") (codes "wave") ≡ matched (pos 12) (pos 7)
unfolding match
rank_file = refl

ec_file : match (codes "wave-ec-7.redset") (codes "wave") ≡ matched (negsuc 0) (pos 7)
unfolding match
ec_file = refl

other_name : match (codes "waves-12-7.dat") (codes "wave") ≡ no_match
unfolding match
other_name = refl

too_long : match (codes "wave-1-4294967296.dat") (codes "wave") ≡ out_of_range
unfolding match
too_long = refl

accepted : validate_name (codes "wave.x") ≡ true
unfolding validate_name
accepted = refl

wave-IsNumbered : IsNumbered wave 12 7
unfolding validate_name
wave-IsNumbered = record {
  valid = refl;
  rank = refl;
  version = refl;
  rank_small = omega arith;
  version_small = omega arith;
}

match-stem_example :
    match (stem wave ++ codes ".chksum") (codes "wave.x") ≡ matched (pos 12) (pos 7)
unfolding match
match-stem_example = match-stem wave 12 7 wave-IsNumbered (codes ".chksum") refl

stem-injective_example : (codes "wave.x" ≡ codes "wave.x") × (pos 12 ≡ pos 12) × (pos 7 ≡ pos 7)
stem-injective_example = stem-injective wave wave 12 12 7 7 wave-IsNumbered wave-IsNumbered refl

-- A pattern for "wav..x" finds the file of "wave.x".
dot_found : match (stem wave) (codes "wav..x") ≡ matched (pos 12) (pos 7)
unfolding match stem to_string
dot_found = refl
