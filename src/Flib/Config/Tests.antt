-- ===== src/Flib/Config/Tests.antt =====
-- The file `config` of the server, with two movies of one block.
use myyima.Prelude.{
  Option, ◌≢◌, ◌≤◌, length, ap, arith, ◌≡◌, refl, none, some, [], ◌∷◌, false, replicate,
  if◌then◌else◌,
}
use myyima.Outcome.{ok}
use myyima.Outcome.Loops.{ended, loop, no_fuel}
use myyima.Messages.{Name, FloatBits}
use myyima.Text.Scan.Lengths.{none≢some, some-injective, length-after_word}
use myyima.Flib.Config.Ends.{flib_init-ends}
use myyima.Flib.Config.Entries.{Entry, IsEntry, Made, config_of}
use myyima.Flib.Config.Written.{flib_init-config_of}
use myyima.Text.Scan.{after_word}
use myyima.Text.{codes}
use myyima.Text.Scan.{scan_key, scan_int, scan_ull}
use myyima.Text.Numbers.{atoi_int}
use myyima.Flib.Names.{name_eq, atoi_from, decimal, decimal_from}
use myyima.Flib.Retrieve.{Movie}
use myyima.Flib.Config.{
  Host, config_file, no_block, disk_of, init_disks, disks_round, read_directory, init_file_system,
  init_movies, movies_round, add_movie, scan_movie, new_movie, read_meta, meta_round, store_block,
  add_block, packet_lens, packet_len, flib_init,
}

abbrev config_text : Name
config_text = codes "Disk\n/b/\nMovie\nm.mp4 15910008 93.25\nMovie\nn.mp4 7 0.5\n"

abbrev meta_text : Name
meta_text = codes "1 2 23,33\n"

abbrev blank_movie : Movie
blank_movie = record {
  name = [];
  size = 0;
  time = 0;
  num_blocks = 7;
  block_dtl = replicate 3 no_block;
}

-- `%f` takes a word here.
abbrev float_word : Name → Option (FloatBits × Name)
float_word [] = none
float_word (c ∷ cs) = some (93, after_word (c ∷ cs))

float_word-Reads : (t r : Name) (x : FloatBits) → float_word t ≡ some (x, r) → length r ≤ length t
float_word-Reads [] r x h = absurd (none≢some h)
float_word-Reads (c ∷ cs) r x h =
    rw (ap (λ y. y.1) (some-injective h)) at (length-after_word (c ∷ cs))

abbrev host : Host
host = record {
  contents = λ n. if name_eq n config_file then some config_text else some meta_text;
  float_gt = λ a b. false;
  scan_float = float_word;
  new_movie = λ i. some blank_movie;
}

abbrev configured : Movie
configured = record {
  name = codes "m.mp4";
  size = 15910008;
  time = 93;
  num_blocks = 8;
  block_dtl = no_block ∷ record { n_packets = 2; packet_lens = 23 ∷ 33 ∷ [] } ∷ no_block ∷ [];
}

abbrev configured₂ : Movie
configured₂ = record configured { name = codes "n.mp4"; size = 7 }

initialises :
    flib_init host ≡ ok (ended (disk_of host (codes "/b/") (configured ∷ configured₂ ∷ [])))
unfolding flib_init init_file_system init_disks disks_round read_directory loop init_movies
    movies_round add_movie scan_movie new_movie read_meta meta_round store_block add_block
    packet_lens packet_len scan_key scan_int scan_ull atoi_int atoi_from
initialises = refl

flib_init-ends_example : flib_init host ≢ ok no_fuel
flib_init-ends_example = flib_init-ends host float_word-Reads

abbrev entry : Entry
entry = record { name = codes "m.mp4"; size = 15910008; time_text = codes "93.25"; time = 93 }

abbrev entry₂ : Entry
entry₂ = record { name = codes "n.mp4"; size = 7; time_text = codes "0.5"; time = 93 }

entry-IsEntry : IsEntry host entry
unfolding decimal decimal_from
entry-IsEntry = record {
  name_word = record { some_byte = λ h. cc; plain = (refl, (refl, (refl, (refl, (refl, tt))))) };
  size_fits = omega arith;
  time_word = record { some_byte = λ h. cc; plain = (refl, (refl, (refl, (refl, (refl, tt))))) };
  time_read = λ rest. refl;
  line_fits = omega arith;
}

entry₂-IsEntry : IsEntry host entry₂
unfolding decimal decimal_from
entry₂-IsEntry = record {
  name_word = record { some_byte = λ h. cc; plain = (refl, (refl, (refl, (refl, (refl, tt))))) };
  size_fits = omega arith;
  time_word = record { some_byte = λ h. cc; plain = (refl, (refl, (refl, tt))) };
  time_read = λ rest. refl;
  line_fits = omega arith;
}

makes : Made host 0 (entry ∷ entry₂ ∷ []) (configured ∷ configured₂ ∷ [])
unfolding new_movie read_meta meta_round store_block add_block packet_lens packet_len loop scan_int
    atoi_int atoi_from
makes = (refl, (refl, tt))

writes : host.contents config_file ≡ some (config_of (codes "/b/") (entry ∷ entry₂ ∷ []))
unfolding decimal decimal_from
writes = refl

flib_init-config_of_example :
    flib_init host ≡ ok (ended (disk_of host (codes "/b/") (configured ∷ configured₂ ∷ [])))
flib_init-config_of_example =
    flib_init-config_of host (codes "/b/") (entry ∷ entry₂ ∷ []) (configured ∷ configured₂ ∷ [])
      writes
      (record {
        one_word = record { some_byte = λ h. cc; plain = (refl, (refl, (refl, tt))) };
        small = omega arith;
      })
      (entry-IsEntry, (entry₂-IsEntry, tt)) makes
