-- ===== src/Config/Gather/Valid.antt =====
-- src/honas_gather_config.c: what holds of the options that are read from files and checked.
use honas.Common.{
  ℕ, ◌^◌, ◌<◌, ◌≡◌, Bool, true, false, List, Option, none, some, ltb, length, same_bytes,
  Bool-cases, Option-cases, inl, inr, >>=-eq-some, require, ℤ, Holds, >>=-Holds, arith,
}
use honas.Utils.{Parsed, my_strtouint, my_strtouint32}
use honas.ReadFile.Folds.{FoldsLines}
use honas.Config.{Files, Context, config_read}
use honas.Config.Depth.{config_read-keeps}
use honas.Config.Gather.{
  GatherConfig, honas_gather_config_init, all_set, uint32_value, string_option, uint32_option,
  honas_gather_config_parse_item, honas_gather_config_finalize, load_gather_config, configured,
  store_bloomfilter_path, store_subnet_activity_path, store_period_length, store_number_of_filters,
  store_number_of_bits_per_filter, store_number_of_hashes, store_number_of_filters_per_user,
  store_flatten_threshold,
}

-- A path that is set is not empty.
abbrev IsPath : Option (List ℕ) → Type 0
IsPath none = Unit {0}
IsPath (some path) = 0 < length path

abbrev IsUint32 : ℕ → Type 0
IsUint32 n = n < 2 ^ 32

-- What holds while options are read.
pub record IsRead (c : GatherConfig) : Type 0 where
  pub bloomfilter_path : IsPath c.bloomfilter_path
  pub subnet_activity_path : IsPath c.subnet_activity_path
  pub period_length : IsUint32 c.period_length
  pub number_of_filters : IsUint32 c.number_of_filters
  pub number_of_bits_per_filter : IsUint32 c.number_of_bits_per_filter
  pub number_of_hashes : IsUint32 c.number_of_hashes
  pub number_of_filters_per_user : IsUint32 c.number_of_filters_per_user
  pub flatten_threshold : IsUint32 c.flatten_threshold

-- A value that may be used.
abbrev IsPositive : ℕ → Type 0
IsPositive n = (0 < n) × (n < 2 ^ 32)

-- What the program may rely on behind `honas_gather_config_finalize`.
pub record IsValid (c : GatherConfig) : Type 0 where
  pub path : List ℕ
  pub bloomfilter_path : c.bloomfilter_path ≡ some path
  pub not_empty : 0 < length path
  pub period_length : IsPositive c.period_length
  pub number_of_filters : IsPositive c.number_of_filters
  pub number_of_bits_per_filter : IsPositive c.number_of_bits_per_filter
  pub number_of_hashes : IsPositive c.number_of_hashes
  pub number_of_filters_per_user : IsPositive c.number_of_filters_per_user

init-IsRead : IsRead honas_gather_config_init
init-IsRead = record {
  bloomfilter_path = tt;
  subnet_activity_path = tt;
  period_length = omega arith;
  number_of_filters = omega arith;
  number_of_bits_per_filter = omega arith;
  number_of_hashes = omega arith;
  number_of_filters_per_user = omega arith;
  flatten_threshold = omega arith;
}

module _ (strtoul : List ℕ → ℕ → Parsed ℕ) where
  uint32_value-IsUint32 :
      (value : List ℕ) {n : ℕ} → uint32_value strtoul value ≡ some n → IsUint32 n
  unfolding uint32_value my_strtouint32 my_strtouint
  uint32_value-IsUint32 value e = ground arith

  abbrev IsItem : Bool × GatherConfig → Type 0
  IsItem (parsed, config) = IsRead config

  string_option-IsRead :
      (field : List ℕ) (store : List ℕ → GatherConfig → GatherConfig) (keyword value : List ℕ)
      (r : Bool × GatherConfig)
      → ((v : List ℕ) (c : GatherConfig) → 0 < length v → IsRead c → IsRead (store v c))
      → IsItem r
      → Holds IsItem (string_option strtoul field store keyword value r)
  unfolding string_option
  string_option-IsRead field store keyword value (parsed, config) stores h =
      elim (Bool-cases (same_bytes keyword field)) [
        | inr f ↦ rw f h
        | inl t ↦ elim (Bool-cases (ltb 0 (length value))) [
          | inl some_text ↦ rw (t, some_text) (stores value config (ground arith) h)
          | inr empty ↦ rw (t, empty) tt
        ]
      ]

  uint32_option-IsRead :
      (field : List ℕ) (store : ℕ → GatherConfig → GatherConfig) (keyword value : List ℕ)
      (r : Bool × GatherConfig)
      → ((n : ℕ) (c : GatherConfig) → IsUint32 n → IsRead c → IsRead (store n c))
      → IsItem r
      → Holds IsItem (uint32_option strtoul field store keyword value r)
  unfolding uint32_option
  uint32_option-IsRead field store keyword value (parsed, config) stores h =
      elim (Bool-cases (same_bytes keyword field)) [
        | inr f ↦ rw f h
        | inl t ↦ elim (Option-cases (uint32_value strtoul value)) [
          | inl no_number ↦ rw (t, no_number) tt
          | inr (n, number) ↦ elim (Bool-cases (ltb 0 n)) [
            | inl positive ↦
                rw (t, number, positive) (stores n config (uint32_value-IsUint32 value number) h)
            | inr zero_value ↦ rw (t, number, zero_value) tt
          ]
        ]
      ]

  parse_item-IsRead :
      (filename : List ℕ) (config : GatherConfig) (lineno : ℕ) (keyword value : List ℕ) (size : ℕ)
      → IsRead config
      → Holds
          (λ ((parsed, config') : Bool × GatherConfig). IsRead config')
          (honas_gather_config_parse_item strtoul filename config lineno keyword value size)
  unfolding honas_gather_config_parse_item
  parse_item-IsRead filename config lineno keyword value size h =
      >>=-Holds IsItem IsItem _ _
        (string_option-IsRead _ store_bloomfilter_path keyword value (false, config)
          (λ v c k p. ground arith) h)
        (λ r1 h1.
          >>=-Holds IsItem IsItem _ _
            (string_option-IsRead _ store_subnet_activity_path keyword value r1
              (λ v c k p. ground arith) h1)
            (λ r2 h2.
              >>=-Holds IsItem IsItem _ _
                (uint32_option-IsRead _ store_period_length keyword value r2
                  (λ n c k p. ground arith) h2)
                (λ r3 h3.
                  >>=-Holds IsItem IsItem _ _
                    (uint32_option-IsRead _ store_number_of_filters keyword value r3
                      (λ n c k p. ground arith) h3)
                    (λ r4 h4.
                      >>=-Holds IsItem IsItem _ _
                        (uint32_option-IsRead _ store_number_of_bits_per_filter keyword value r4
                          (λ n c k p. ground arith) h4)
                        (λ r5 h5.
                          >>=-Holds IsItem IsItem _ _
                            (uint32_option-IsRead _ store_number_of_hashes keyword value r5
                              (λ n c k p. ground arith) h5)
                            (λ r6 h6.
                              >>=-Holds IsItem IsItem _ _
                                (uint32_option-IsRead _ store_number_of_filters_per_user keyword
                                  value r6 (λ n c k p. ground arith) h6)
                                (λ r7 h7.
                                  uint32_option-IsRead _ store_flatten_threshold keyword value r7
                                    (λ n c k p. ground arith) h7)))))))

  checked_config : (c : GatherConfig) → IsRead c → all_set c ≡ true → IsValid c
  checked_config c h all = elim (Option-cases c.bloomfilter_path) [
    | inl n ↦ absurd (cc (rw n at all))
    | inr (path, p) ↦ record {
      path = path;
      bloomfilter_path = p;
      not_empty = rw p at h.bloomfilter_path;
      period_length = ground (arith, all);
      number_of_filters = ground (arith, all);
      number_of_bits_per_filter = ground (arith, all);
      number_of_hashes = ground (arith, all);
      number_of_filters_per_user = ground (arith, all);
    }
  ]

  finalize-IsValid :
      (c c' : GatherConfig) → IsRead c → honas_gather_config_finalize c ≡ some c' → IsValid c'
  unfolding honas_gather_config_finalize
  finalize-IsValid c c' h e =
      let (u, all, same) = >>=-eq-some (require (all_set c)) _ e in
      let equal : c ≡ c' = cc same in rw equal at (checked_config c h (ground (arith, all)))

  module _ (files : Files)
      (read_file : List ℕ
        → Context GatherConfig
        → (List ℕ → Context GatherConfig → ℕ → List ℕ → Option (Context GatherConfig))
        → Option (ℤ × Context GatherConfig))
      (folds : FoldsLines read_file) (fchdir : Bool) (chdir : Option (List ℕ) → Bool) where
    -- Where the file is read by a function that changes its argument by the handler of lines alone:
    -- options that are loaded and accepted have a path that is not empty, and every required number
    -- is positive and fits in 32 bits, whatever files are included.
    pub configured-IsValid :
        (config_file : List ℕ) {c : GatherConfig}
        → configured strtoul files read_file fchdir chdir config_file ≡ some c
        → IsValid c
    unfolding configured load_gather_config
    configured-IsValid config_file e =
        let (loaded, l, final) =
          >>=-eq-some
            (load_gather_config strtoul files read_file fchdir chdir honas_gather_config_init
              config_file)
            _ e in
        let (u, entered, l1) = >>=-eq-some (require fchdir) _ l in
        let (config', r, l2) =
          >>=-eq-some
            (config_read files (honas_gather_config_parse_item strtoul) read_file config_file
              honas_gather_config_init)
            _ l1 in
        let (v, changed, l3) = >>=-eq-some (require (chdir config'.bloomfilter_path)) _ l2 in
        let same : config' ≡ loaded = cc l3 in
        let read =
          config_read-keeps files (honas_gather_config_parse_item strtoul) IsRead parse_item-IsRead
            read_file folds config_file honas_gather_config_init init-IsRead r in
        finalize-IsValid loaded _ (rw same at read) final
