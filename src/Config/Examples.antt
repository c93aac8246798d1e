-- ===== src/Config/Examples.antt =====
-- Small configuration files, read at most three bytes at a time.
use honas.Common.{
  ℕ, suc, ◌<◌, ◌-◌, ◌*◌, ◌+◌, ◌≡◌, refl, Bool, true, false, List, [], ◌∷◌, Option, some, length,
  codes, same_bytes, if◌then◌else◌, arith, ◌>>=◌,
}
use honas.Utils.{Parsed, NotIn, index_ws, index_of, create_relative_filepath, directory}
use honas.State.Register.Text.{c_string}
use honas.ReadFile.{read_file, read_file_close, decompressor}
use honas.ReadFile.Folds.{read_file-FoldsLines}
use honas.ReadFile.Examples.{read_three, read_three-IsReadable, no_spawn, no_waits}
use honas.Config.{
  Files, regular_file, directory_file, Context, directive_of, is_keyword_char, config_read,
  read_levels, config_parse_line, follow, include, include_args, included_path, skip_blanks,
  split_keyword, strip_blanks, read_path, with_slash, file_names, is_file_name, read_each,
}
use honas.Config.Line.{IsTrimmed, NoNul}
use honas.Config.Depth.{config_read_ends}
use honas.Config.Items.{Item, print_items, apply_items, config_read-print_items}
use honas.Config.Gather.{
  GatherConfig, honas_gather_config_init, honas_gather_config_parse_item, configured,
  load_gather_config, honas_gather_config_finalize,
}
use honas.Config.Gather.Valid.{IsValid, configured-IsValid}
use honas.Config.Gather.RoundTrip.{Texts, Mean, FitsLine, AllFit, items_of, config_read-items_of}

-- A directory with one file, and no options.
abbrev one_file : Files
one_file = record {
  can_read = λ path. true;
  stat =
      λ path. some (if same_bytes path (codes "/etc/a.conf") then regular_file else directory_file);
  readdir = λ dir. some (codes "a" ∷ codes "b.old" ∷ []);
  qsort = λ names. names;
}

-- Every item is known, and counted.
abbrev count_item : List ℕ → ℕ → ℕ → List ℕ → List ℕ → ℕ → Option (Bool × ℕ)
count_item filename count lineno keyword value size = some (true, suc count)

abbrev open_some : List ℕ → Option (List ℕ)
open_some name =
    if same_bytes name (codes "/etc/a.conf")
    then some (codes "# top\nx 1\ninclude sub\n y 2\n")
    else some (codes "z\n")

-- A reader of files that adds the length of the path.
abbrev count_path : List ℕ → Context ℕ → Option (Context ℕ)
count_path name ctx = some (record ctx { ptr = ctx.ptr + length name })

abbrev at_top : Context ℕ
at_top = record { config_include_loop = 0; ptr = 0 }

-- Of the two files of /etc/sub/ only /etc/sub/a has a name that is read.
sub_included :
    config_parse_line one_file count_item count_path
      (codes "/etc/a.conf")
      at_top
      3
      (codes " include sub  if_exist")
    ≡ some (record { config_include_loop = 0; ptr = 10 })
unfolding config_parse_line directive_of skip_blanks split_keyword strip_blanks is_keyword_char
    c_string follow include include_args index_ws index_of included_path create_relative_filepath
    directory read_path with_slash file_names is_file_name read_each
sub_included = refl

abbrev small_text : List ℕ
small_text = codes "x 1\ny 2\n"

abbrev small_items : List Item
small_items =
    record { first = b'x'; others = []; value = codes "1" }
    ∷ record { first = b'y'; others = []; value = codes "2" }
    ∷ []

config_read_ends_example :
    config_read one_file count_item
      (read_file open_some no_spawn read_three no_waits 40)
      (codes "/etc/a.conf")
      0
    ≡ (read_levels one_file count_item
          (read_file open_some no_spawn read_three no_waits 40)
          count_path
          12
          (codes "/etc/a.conf")
          at_top
        >>= λ ctx. some ctx.ptr)
config_read_ends_example =
    config_read_ends one_file count_item (read_file open_some no_spawn read_three no_waits 40)
      (read_file-FoldsLines open_some no_spawn read_three no_waits 40) (codes "/etc/a.conf") 0
      count_path

config_read-print_items_example :
    config_read one_file count_item
      (read_file (λ name. some small_text) no_spawn read_three no_waits 40)
      (codes "a.conf")
      0
    ≡ apply_items one_file count_item (codes "a.conf") 0 small_items 0
unfolding is_keyword_char decompressor read_file_close
config_read-print_items_example =
    config_read-print_items (λ name. some small_text) no_spawn read_three no_waits (λ bytes. bytes)
      read_three-IsReadable one_file count_item 40 (codes "a.conf") 0 small_items false small_text
      (ground arith) refl (λ s'. refl) refl (omega arith)

-- Decimal digits, as `strtoul` reads them.
read_digits : ℕ → List ℕ → ℕ
read_digits n [] = n
read_digits n (c ∷ text) = read_digits (n * 10 + (c - b'0')) text

abbrev decimal : List ℕ → ℕ → Parsed ℕ
decimal text base = record { errno_set = false; value = read_digits 0 text; rest = [] }

abbrev texts : Texts
texts = record {
  bloomfilter_path = codes "/var";
  subnet_activity_path = codes "sub";
  period_length = codes "60";
  number_of_filters = codes "8";
  number_of_bits_per_filter = codes "64";
  number_of_hashes = codes "2";
  number_of_filters_per_user = codes "4";
  flatten_threshold = codes "5";
}

abbrev options : GatherConfig
options = record {
  bloomfilter_path = some (codes "/var");
  subnet_activity_path = some (codes "sub");
  period_length = 60;
  number_of_filters = 8;
  number_of_bits_per_filter = 64;
  number_of_hashes = 2;
  number_of_filters_per_user = 4;
  flatten_threshold = 5;
}

abbrev options_file : List ℕ
options_file = print_items (items_of texts)

texts-Mean : Mean decimal texts options
unfolding read_digits
texts-Mean = record {
  bloomfilter_path = refl;
  bloomfilter_path_not_empty = omega arith;
  subnet_activity_path = refl;
  subnet_activity_path_not_empty = omega arith;
  period_length = record {
    positive = omega arith;
    in_range = omega arith;
    not_empty = omega arith;
    read = refl;
  };
  number_of_filters = record {
    positive = omega arith;
    in_range = omega arith;
    not_empty = omega arith;
    read = refl;
  };
  number_of_bits_per_filter = record {
    positive = omega arith;
    in_range = omega arith;
    not_empty = omega arith;
    read = refl;
  };
  number_of_hashes = record {
    positive = omega arith;
    in_range = omega arith;
    not_empty = omega arith;
    read = refl;
  };
  number_of_filters_per_user = record {
    positive = omega arith;
    in_range = omega arith;
    not_empty = omega arith;
    read = refl;
  };
  flatten_threshold = record {
    positive = omega arith;
    in_range = omega arith;
    not_empty = omega arith;
    read = refl;
  };
}

fits_line :
    (value : List ℕ)
    → IsTrimmed value
    → NoNul value
    → NotIn b'\n' value
    → length value < 16000
    → FitsLine value
fits_line value t n l s = record { trimmed = t; no_nul = n; one_line = l; short = s }

texts-AllFit : AllFit texts
texts-AllFit = (
  fits_line _ (ground arith) (ground arith) (ground arith) (omega arith),
  fits_line _ (ground arith) (ground arith) (ground arith) (omega arith),
  fits_line _ (ground arith) (ground arith) (ground arith) (omega arith),
  fits_line _ (ground arith) (ground arith) (ground arith) (omega arith),
  fits_line _ (ground arith) (ground arith) (ground arith) (omega arith),
  fits_line _ (ground arith) (ground arith) (ground arith) (omega arith),
  fits_line _ (ground arith) (ground arith) (ground arith) (omega arith),
  fits_line _ (ground arith) (ground arith) (ground arith) (omega arith),
)

config_read-items_of_example :
    config_read one_file
      (honas_gather_config_parse_item decimal)
      (read_file (λ name. some options_file) no_spawn read_three no_waits 1000)
      (codes "a.conf")
      honas_gather_config_init
    ≡ some options
unfolding decompressor read_file_close
config_read-items_of_example =
    config_read-items_of (λ name. some options_file) no_spawn read_three no_waits (λ bytes. bytes)
      read_three-IsReadable one_file decimal 1000 (codes "a.conf") texts options false options_file
      texts-Mean texts-AllFit refl (λ s'. refl) refl (omega arith)

abbrev options_read : List ℕ → Option GatherConfig
options_read =
    configured decimal one_file
      (read_file (λ name. some options_file) no_spawn read_three no_waits 1000) true (λ path. true)

options_read_ok : options_read (codes "a.conf") ≡ some options
unfolding configured load_gather_config honas_gather_config_finalize
options_read_ok = rw (configured, load_gather_config, config_read-items_of_example) refl

configured-IsValid_example : IsValid options
configured-IsValid_example =
    configured-IsValid decimal one_file
      (read_file (λ name. some options_file) no_spawn read_three no_waits 1000)
      (read_file-FoldsLines (λ name. some options_file) no_spawn read_three no_waits 1000) true
      (λ path. true) (codes "a.conf") options_read_ok
