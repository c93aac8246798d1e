-- ===== src/Instrumentation.antt =====
-- src/instrumentation.c and include/instrumentation.h: the counters of the collector. A null pointer
-- is `none`; a counter is a `size_t` of 64 bits. The largest resident set of `getrusage` is an
-- argument, and the text of the dump is left to `snprintf`.
use honas.Common.{ℕ, ◌+◌, ◌/◌, Bool, true, false, Option, none, some, u64, ◌==◌, if◌then◌else◌}

-- `struct instrumentation`, with the fields of `struct subnet_instrumentation`.
pub record Instrumentation : Type 0 where
  pub n_processed_queries : ℕ
  pub n_skipped_queries : ℕ
  pub n_accepted_queries : ℕ
  pub n_queries_sec : ℕ
  pub n_a_queries : ℕ
  pub n_aaaa_queries : ℕ
  pub n_ns_queries : ℕ
  pub n_mx_queries : ℕ
  pub n_ptr_queries : ℕ
  pub memory_usage_kb : ℕ
  pub n_queries_in_subnet : ℕ
  pub n_queries_not_in_subnet : ℕ
  pub n_invalid_frames : ℕ

abbrev on_pointer :
    (Instrumentation → Instrumentation) → Option Instrumentation → Option Instrumentation
on_pointer f none = none
on_pointer f (some inst) = some (f inst)

abbrev pub instrumentation_increment_processed : Option Instrumentation → Option Instrumentation
instrumentation_increment_processed =
    on_pointer (λ i. record i { n_processed_queries = u64 (i.n_processed_queries + 1) })

abbrev pub instrumentation_increment_accepted : Option Instrumentation → Option Instrumentation
instrumentation_increment_accepted =
    on_pointer (λ i. record i { n_accepted_queries = u64 (i.n_accepted_queries + 1) })

abbrev pub instrumentation_increment_skipped : Option Instrumentation → Option Instrumentation
instrumentation_increment_skipped =
    on_pointer (λ i. record i { n_skipped_queries = u64 (i.n_skipped_queries + 1) })

abbrev pub instrumentation_increment_invalid : Option Instrumentation → Option Instrumentation
instrumentation_increment_invalid =
    on_pointer (λ i. record i { n_invalid_frames = u64 (i.n_invalid_frames + 1) })

-- The types of records in ldns.
abbrev pub rr_type_a : ℕ
rr_type_a = 1

abbrev pub rr_type_ns : ℕ
rr_type_ns = 2

abbrev pub rr_type_ptr : ℕ
rr_type_ptr = 12

abbrev pub rr_type_mx : ℕ
rr_type_mx = 15

abbrev pub rr_type_aaaa : ℕ
rr_type_aaaa = 28

unfoldable pub count_type : (qtype : ℕ) → Instrumentation → Instrumentation
count_type qtype i =
    if qtype == rr_type_a
    then record i { n_a_queries = u64 (i.n_a_queries + 1) }
    else if qtype == rr_type_aaaa
    then record i { n_aaaa_queries = u64 (i.n_aaaa_queries + 1) }
    else if qtype == rr_type_ns
    then record i { n_ns_queries = u64 (i.n_ns_queries + 1) }
    else if qtype == rr_type_mx
    then record i { n_mx_queries = u64 (i.n_mx_queries + 1) }
    else if qtype == rr_type_ptr
    then record i { n_ptr_queries = u64 (i.n_ptr_queries + 1) }
    else i

abbrev pub instrumentation_increment_type :
    Option Instrumentation → (qtype : ℕ) → Option Instrumentation
instrumentation_increment_type inst qtype = on_pointer (count_type qtype) inst

abbrev pub instrumentation_update_subnet_activity :
    Option Instrumentation → (in_subnet not_in_subnet : ℕ) → Option Instrumentation
instrumentation_update_subnet_activity inst in_subnet not_in_subnet =
    on_pointer
      (λ i. record i {
        n_queries_in_subnet = u64 (i.n_queries_in_subnet + in_subnet);
        n_queries_not_in_subnet = u64 (i.n_queries_not_in_subnet + not_in_subnet);
      })
      inst

abbrev pub instrumentation_interval_sec : ℕ
instrumentation_interval_sec = 60

-- The fields that `instrumentation_dump` computes; `has_text` tells whether `out_str` is not null.
abbrev pub instrumentation_dump :
    (ru_maxrss : ℕ) → Option Instrumentation → (has_text : Bool) → Option Instrumentation
instrumentation_dump ru_maxrss inst false = inst
instrumentation_dump ru_maxrss inst true =
    on_pointer
      (λ i. record i {
        n_queries_sec = i.n_processed_queries / instrumentation_interval_sec;
        memory_usage_kb = ru_maxrss;
      })
      inst

abbrev no_counts : (memory_usage_kb : ℕ) → Instrumentation
no_counts memory_usage_kb = record {
  n_processed_queries = 0;
  n_skipped_queries = 0;
  n_accepted_queries = 0;
  n_queries_sec = 0;
  n_a_queries = 0;
  n_aaaa_queries = 0;
  n_ns_queries = 0;
  n_mx_queries = 0;
  n_ptr_queries = 0;
  memory_usage_kb = memory_usage_kb;
  n_queries_in_subnet = 0;
  n_queries_not_in_subnet = 0;
  n_invalid_frames = 0;
}

-- All but the use of memory is set to 0.
abbrev pub instrumentation_reset : Option Instrumentation → Option Instrumentation
instrumentation_reset = on_pointer (λ i. no_counts i.memory_usage_kb)

-- `allocated` is the result of `calloc`, `has_place` whether the argument is not null.
abbrev pub instrumentation_initialize : (has_place allocated : Bool) → Bool × Option Instrumentation
instrumentation_initialize true true = (true, some (no_counts 0))
instrumentation_initialize true false = (false, none)
instrumentation_initialize false allocated = (false, none)

abbrev pub instrumentation_destroy : Option Instrumentation → Option Instrumentation
instrumentation_destroy inst = none
