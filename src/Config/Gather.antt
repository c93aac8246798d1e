-- ===== src/Config/Gather.antt =====
-- src/honas_gather_config.c, and src/bin/honas_gather.c where it calls this: the options of
-- honas_gather. A null pointer is `none`; allocation
-- succeeds. `strtoul` is an argument.
pub mod Valid
pub mod RoundTrip
use honas.Common.{
  ℕ, ◌≡◌, Bool, true, false, ◌&&◌, ◌||◌, not, List, [], ◌∷◌, Option, none, some, ltb, ◌==◌,
  if◌then◌else◌, length, codes, same_bytes, ◌>>=◌, ◌>>◌, require, ℤ,
}
use honas.Utils.{Parsed, my_strtouint32}
use honas.Config.{Files, Context, config_read}

-- `honas_gather_config_t`.
pub record GatherConfig : Type 0 where
  pub bloomfilter_path : Option (List ℕ)
  pub subnet_activity_path : Option (List ℕ)
  pub period_length : ℕ
  pub number_of_filters : ℕ
  pub number_of_bits_per_filter : ℕ
  pub number_of_hashes : ℕ
  pub number_of_filters_per_user : ℕ
  pub flatten_threshold : ℕ

abbrev pub honas_gather_config_init : GatherConfig
honas_gather_config_init = record {
  bloomfilter_path = none;
  subnet_activity_path = none;
  period_length = 0;
  number_of_filters = 0;
  number_of_bits_per_filter = 0;
  number_of_hashes = 0;
  number_of_filters_per_user = 0;
  flatten_threshold = 0;
}

-- The writes of the single fields.
abbrev pub store_bloomfilter_path : List ℕ → GatherConfig → GatherConfig
store_bloomfilter_path v c = record c { bloomfilter_path = some v }

abbrev pub store_subnet_activity_path : List ℕ → GatherConfig → GatherConfig
store_subnet_activity_path v c = record c { subnet_activity_path = some v }

abbrev pub store_period_length : ℕ → GatherConfig → GatherConfig
store_period_length n c = record c { period_length = n }

abbrev pub store_number_of_filters : ℕ → GatherConfig → GatherConfig
store_number_of_filters n c = record c { number_of_filters = n }

abbrev pub store_number_of_bits_per_filter : ℕ → GatherConfig → GatherConfig
store_number_of_bits_per_filter n c = record c { number_of_bits_per_filter = n }

abbrev pub store_number_of_hashes : ℕ → GatherConfig → GatherConfig
store_number_of_hashes n c = record c { number_of_hashes = n }

abbrev pub store_number_of_filters_per_user : ℕ → GatherConfig → GatherConfig
store_number_of_filters_per_user n c = record c { number_of_filters_per_user = n }

abbrev pub store_flatten_threshold : ℕ → GatherConfig → GatherConfig
store_flatten_threshold n c = record c { flatten_threshold = n }

module _ (strtoul : List ℕ → ℕ → Parsed ℕ) where
  -- `none` is `log_die`.
  unfoldable pub uint32_value : (value : List ℕ) → Option ℕ
  uint32_value value = (my_strtouint32 strtoul value false 10).0

  -- `_config_parse_and_check_value` with `string_value`, on whether the item is parsed and the
  -- options; `store` writes the field.
  unfoldable pub string_option :
      (field : List ℕ)
      → (store : List ℕ → GatherConfig → GatherConfig) → (keyword value : List ℕ)
      → Bool × GatherConfig
      → Option (Bool × GatherConfig)
  string_option field store keyword value (parsed, config) =
      if same_bytes keyword field
      then (require (ltb 0 (length value)) >> some (true, store value config))
      else some (parsed, config)

  -- `_config_parse_and_check_value` with `uint32_value`.
  unfoldable pub uint32_option :
      (field : List ℕ)
      → (store : ℕ → GatherConfig → GatherConfig) → (keyword value : List ℕ) → Bool × GatherConfig
      → Option (Bool × GatherConfig)
  uint32_option field store keyword value (parsed, config) =
      if same_bytes keyword field
      then (uint32_value value >>= λ n. require (ltb 0 n) >> some (true, store n config))
      else some (parsed, config)

  unfoldable pub honas_gather_config_parse_item :
      (filename : List ℕ)
      → GatherConfig
      → (lineno : ℕ) → (keyword value : List ℕ) → (size : ℕ) → Option (Bool × GatherConfig)
  honas_gather_config_parse_item filename config lineno keyword value size = do
    r1 ←
        string_option (codes "bloomfilter_path") store_bloomfilter_path keyword value
          (false, config)
    r2 ← string_option (codes "subnet_activity_path") store_subnet_activity_path keyword value r1
    r3 ← uint32_option (codes "period_length") store_period_length keyword value r2
    r4 ← uint32_option (codes "number_of_filters") store_number_of_filters keyword value r3
    r5 ←
        uint32_option (codes "number_of_bits_per_filter") store_number_of_bits_per_filter keyword
          value r4
    r6 ← uint32_option (codes "number_of_hashes") store_number_of_hashes keyword value r5
    r7 ←
        uint32_option (codes "number_of_filters_per_user") store_number_of_filters_per_user keyword
          value r6
    uint32_option (codes "flatten_threshold") store_flatten_threshold keyword value r7

abbrev is_set_path : Option (List ℕ) → Bool
is_set_path none = false
is_set_path (some path) = true

-- The checks of `honas_gather_config_finalize`.
abbrev pub all_set : GatherConfig → Bool
all_set config =
    is_set_path config.bloomfilter_path
    && not (config.period_length == 0)
    && not (config.number_of_filters == 0)
    && not (config.number_of_bits_per_filter == 0)
    && not (config.number_of_hashes == 0)
    && not (config.number_of_filters_per_user == 0)

-- `none` is `log_die`, behind the messages for all options that are not set.
unfoldable pub honas_gather_config_finalize : GatherConfig → Option GatherConfig
honas_gather_config_finalize config = require (all_set config) >> some config

abbrev pub honas_gather_config_destroy : GatherConfig → GatherConfig
honas_gather_config_destroy config = record config {
  bloomfilter_path = none;
  subnet_activity_path = none;
}

-- The begin of `main` in src/bin/honas_gather.c. `fchdir` tells whether the initial directory is
-- entered again, `chdir` whether the directory of a path is (it is not for a null pointer).
module _ (strtoul : List ℕ → ℕ → Parsed ℕ) (files : Files)
    (read_file : (filename : List ℕ)
      → Context GatherConfig
      → (List ℕ → Context GatherConfig → ℕ → List ℕ → Option (Context GatherConfig))
      → Option (ℤ × Context GatherConfig))
    (fchdir : Bool) (chdir : Option (List ℕ) → Bool) where
  unfoldable pub load_gather_config : GatherConfig → (config_file : List ℕ) → Option GatherConfig
  load_gather_config config config_file = do
    require fchdir
    config' ←
        config_read files (honas_gather_config_parse_item strtoul) read_file config_file config
    require (chdir config'.bloomfilter_path)
    some config'

  unfoldable pub configured : (config_file : List ℕ) → Option GatherConfig
  configured config_file =
      load_gather_config honas_gather_config_init config_file >>= honas_gather_config_finalize
