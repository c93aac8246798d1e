-- ===== src/Config/Gather/RoundTrip.antt =====
-- src/honas_gather_config.c over src/config.c and src/read_file.c: the options that are written to
-- a file are read from it again.
use honas.Common.{
  ℕ, ◌-◌, ◌^◌, ◌<◌, ◌≡◌, refl, ◌∙◌, sym, Bool, true, false, List, [], ◌∷◌, Option, some, ltb, ◌==◌,
  length, length-append, All, codes, same_bytes, lt→ltb, pos, arith,
}
use honas.Utils.{Parsed, NotIn, my_strtouint, my_strtouint32}
use honas.ReadFile.{ReadResult, Waited, IsReadable, open_file, read_file, read_file_close}
use honas.Config.{Files, config_read, is_keyword_char}
use honas.Config.Line.{NoNul, IsTrimmed, IsKeyword}
use honas.Config.Items.{
  Item, keyword_of, print_items, IsPrintable, apply_items, config_read-print_items,
}
use honas.Config.Gather.{
  GatherConfig, honas_gather_config_init, uint32_value, string_option, uint32_option,
  honas_gather_config_parse_item,
}

-- The texts of the options.
pub record Texts : Type 0 where
  pub bloomfilter_path : List ℕ
  pub subnet_activity_path : List ℕ
  pub period_length : List ℕ
  pub number_of_filters : List ℕ
  pub number_of_bits_per_filter : List ℕ
  pub number_of_hashes : List ℕ
  pub number_of_filters_per_user : List ℕ
  pub flatten_threshold : List ℕ

abbrev item_of : (keyword : List ℕ) → List ℕ → Item
item_of [] value = record { first = 0; others = []; value = value }
item_of (k ∷ keyword) value = record { first = k; others = keyword; value = value }

abbrev pub items_of : Texts → List Item
items_of t =
    item_of (codes "bloomfilter_path") t.bloomfilter_path
    ∷ item_of (codes "subnet_activity_path") t.subnet_activity_path
    ∷ item_of (codes "period_length") t.period_length
    ∷ item_of (codes "number_of_filters") t.number_of_filters
    ∷ item_of (codes "number_of_bits_per_filter") t.number_of_bits_per_filter
    ∷ item_of (codes "number_of_hashes") t.number_of_hashes
    ∷ item_of (codes "number_of_filters_per_user") t.number_of_filters_per_user
    ∷ item_of (codes "flatten_threshold") t.flatten_threshold
    ∷ []

-- A number of 32 bits that is not 0, and its text.
pub record IsNumber (strtoul : List ℕ → ℕ → Parsed ℕ) (n : ℕ) (text : List ℕ) : Type 0 where
  pub positive : 0 < n
  pub in_range : n < 2 ^ 32
  pub not_empty : 0 < length text
  pub read : strtoul text 10 ≡ record { errno_set = false; value = n; rest = [] }

-- The texts mean these options.
pub record Mean (strtoul : List ℕ → ℕ → Parsed ℕ) (t : Texts) (c : GatherConfig) : Type 0 where
  pub bloomfilter_path : c.bloomfilter_path ≡ some t.bloomfilter_path
  pub bloomfilter_path_not_empty : 0 < length t.bloomfilter_path
  pub subnet_activity_path : c.subnet_activity_path ≡ some t.subnet_activity_path
  pub subnet_activity_path_not_empty : 0 < length t.subnet_activity_path
  pub period_length : IsNumber strtoul c.period_length t.period_length
  pub number_of_filters : IsNumber strtoul c.number_of_filters t.number_of_filters
  pub number_of_bits_per_filter :
      IsNumber strtoul c.number_of_bits_per_filter t.number_of_bits_per_filter
  pub number_of_hashes : IsNumber strtoul c.number_of_hashes t.number_of_hashes
  pub number_of_filters_per_user :
      IsNumber strtoul c.number_of_filters_per_user t.number_of_filters_per_user
  pub flatten_threshold : IsNumber strtoul c.flatten_threshold t.flatten_threshold

-- A value that fits on a line behind any keyword.
pub record FitsLine (value : List ℕ) : Type 0 where
  pub trimmed : IsTrimmed value
  pub no_nul : NoNul value
  pub one_line : NotIn b'\n' value
  pub short : length value < 16000

abbrev pub AllFit : Texts → Type 0
AllFit t =
    FitsLine t.bloomfilter_path
    × FitsLine t.subnet_activity_path
    × FitsLine t.period_length
    × FitsLine t.number_of_filters
    × FitsLine t.number_of_bits_per_filter
    × FitsLine t.number_of_hashes
    × FitsLine t.number_of_filters_per_user
    × FitsLine t.flatten_threshold

item-IsPrintable :
    (i : Item)
    → IsKeyword (keyword_of i)
    → same_bytes (keyword_of i) (codes "include") ≡ false
    → length (keyword_of i) < 100
    → FitsLine i.value
    → IsPrintable i
item-IsPrintable i k n l f = record {
  keyword = k;
  no_include = n;
  trimmed = f.trimmed;
  no_nul = f.no_nul;
  one_line = f.one_line;
  short = omega (arith, l, f.short, length-append (keyword_of i) (b' ' ∷ i.value));
}

items_of-IsPrintable : (t : Texts) → AllFit t → All IsPrintable (items_of t)
unfolding is_keyword_char
items_of-IsPrintable t (f1, f2, f3, f4, f5, f6, f7, f8) = (
  item-IsPrintable _ (ground arith) refl (omega arith) f1,
  (
    item-IsPrintable _ (ground arith) refl (omega arith) f2,
    (
      item-IsPrintable _ (ground arith) refl (omega arith) f3,
      (
        item-IsPrintable _ (ground arith) refl (omega arith) f4,
        (
          item-IsPrintable _ (ground arith) refl (omega arith) f5,
          (
            item-IsPrintable _ (ground arith) refl (omega arith) f6,
            (
              item-IsPrintable _ (ground arith) refl (omega arith) f7,
              (item-IsPrintable _ (ground arith) refl (omega arith) f8, tt),
            ),
          ),
        ),
      ),
    ),
  ),
)

module _ (strtoul : List ℕ → ℕ → Parsed ℕ) where
  number_read :
      (n : ℕ) (text : List ℕ) → IsNumber strtoul n text → uint32_value strtoul text ≡ some n
  unfolding uint32_value my_strtouint32 my_strtouint
  number_read n text h =
      let some_text : (0 == length text) ≡ false = ground (arith, h.not_empty) in
      let fits : ltb (2 ^ 32 - 1) n ≡ false = ground (arith, h.in_range) in
      rw (h.read, some_text, fits) refl

  apply_items-Mean :
      (files : Files) (filename : List ℕ) (t : Texts) (c : GatherConfig)
      → Mean strtoul t c
      → apply_items files
          (honas_gather_config_parse_item strtoul)
          filename
          0
          (items_of t)
          honas_gather_config_init
        ≡ some c
  unfolding apply_items honas_gather_config_parse_item string_option uint32_option
  apply_items-Mean files filename t c m =
      let path : ltb 0 (length t.bloomfilter_path) ≡ true =
        ground (arith, m.bloomfilter_path_not_empty) in
      let subnets : ltb 0 (length t.subnet_activity_path) ≡ true =
        ground (arith, m.subnet_activity_path_not_empty) in
      let positive = λ (n : ℕ) (h : 0 < n). lt→ltb 0 n h in
      rw
        (
          path,
          subnets,
          number_read _ _ m.period_length,
          positive _ m.period_length.positive,
          number_read _ _ m.number_of_filters,
          positive _ m.number_of_filters.positive,
          number_read _ _ m.number_of_bits_per_filter,
          positive _ m.number_of_bits_per_filter.positive,
          number_read _ _ m.number_of_hashes,
          positive _ m.number_of_hashes.positive,
          number_read _ _ m.number_of_filters_per_user,
          positive _ m.number_of_filters_per_user.positive,
          number_read _ _ m.flatten_threshold,
          positive _ m.flatten_threshold.positive,
          sym m.bloomfilter_path,
          sym m.subnet_activity_path,
        )
        refl

module _ {S : Type 0} (opened : List ℕ → Option S) (spawn : List ℕ → S → Option S)
    (read : S → ℕ → ReadResult S) (waits : S → List Waited) (left : S → List ℕ)
    (readable : IsReadable read left) (files : Files) (strtoul : List ℕ → ℕ → Parsed ℕ) where
  -- For texts that fit on a line and that mean the options of `c` (the two paths are not empty, and
  -- the numbers are positive, have 32 bits, and are read back by `strtoul`), written to a file, a
  -- line for each, which is opened, read to its end in blocks of any size and closed without an
  -- error, with fuel for more than its bytes: reading it into options that are not set gives `c`.
  pub config_read-items_of :
      (fuel : ℕ) (filename : List ℕ) (t : Texts) (c : GatherConfig) (child : Bool) (s : S)
      → Mean strtoul t c
      → AllFit t
      → open_file opened spawn filename ≡ some (child, s)
      → ((s' : S) → read_file_close child (waits s') ≡ some (pos 0))
      → left s ≡ print_items (items_of t)
      → length (left s) < fuel
      → config_read files
          (honas_gather_config_parse_item strtoul)
          (read_file opened spawn read waits fuel)
          filename
          honas_gather_config_init
        ≡ some c
  config_read-items_of fuel filename t c child s m f o closes content enough =
      config_read-print_items opened spawn read waits left readable files
        (honas_gather_config_parse_item strtoul) fuel filename honas_gather_config_init (items_of t)
        child s (items_of-IsPrintable t f) o closes content enough
      ∙ apply_items-Mean strtoul files filename t c m
