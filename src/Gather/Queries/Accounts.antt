-- ===== src/Gather/Queries/Accounts.antt =====
-- src/bin/honas_gather.c: the counters of the queries agree with what is done with them.
use honas.Common.{
  ℕ, ◌+◌, ◌≡◌, refl, ap, Bool, true, false, List, Option, none, some, u64, ◌==◌, if◌then◌else◌,
  arith, Bool-cases, Option-cases, inl, inr, >>=-Holds, Holds,
}
use honas.Inet.{InAddr46}
use honas.State.{Counting}
use honas.State.Register.{register_host_name_lookup}
use honas.Instrumentation.{
  Instrumentation, count_type, rr_type_ptr, instrumentation_increment_processed,
}
use honas.Gather.Queries.{
  Question, Message, rr_class_in, any_type, query_is_valid_dns_type, Collector, client_of,
  entity_for, accept_query, process_question, skip, decode_packet, decode_dnstap_message,
}

-- The accepted queries are those of the five types.
pub record IsCounted (i : Instrumentation) : Type 0 where
  pub accepted :
      i.n_accepted_queries
      ≡ u64 (i.n_a_queries + i.n_aaaa_queries + i.n_ns_queries + i.n_mx_queries + i.n_ptr_queries)

count_type-IsCounted :
    (qtype : ℕ) (i : Instrumentation)
    → query_is_valid_dns_type qtype ≡ true
    → IsCounted i
    → IsCounted
        (count_type qtype (record i { n_accepted_queries = u64 (i.n_accepted_queries + 1) }))
unfolding count_type query_is_valid_dns_type any_type
count_type-IsCounted qtype i v h = ground arith

-- What a query that is not skipped leaves of the counters.
record Keeps (i i' : Instrumentation) : Type 0 where
  processed : i'.n_processed_queries ≡ i.n_processed_queries
  skipped : i'.n_skipped_queries ≡ i.n_skipped_queries
  counted : IsCounted i'

-- What a message does to the counters: it is processed, and skipped where it is not decoded.
pub record Accounts (i : Instrumentation) (decoded : Bool) (i' : Instrumentation) : Type 0 where
  pub processed : i'.n_processed_queries ≡ u64 (i.n_processed_queries + 1)
  pub skipped :
      i'.n_skipped_queries
      ≡ (if decoded then i.n_skipped_queries else u64 (i.n_skipped_queries + 1))
  pub counted : IsCounted i'

anything : {A : Type 0} (o : Option A) → Holds (λ a. Unit {0}) o
anything none = tt
anything (some a) = tt

module _ {Hll : Type 0} (hll : Counting Hll) (sha256 : List ℕ → List ℕ)
    (ldns_wire2pkt : List ℕ → Option (Option Question)) (aggregate_subnets : Bool)
    (entity_of : InAddr46 → Option (List ℕ)) (i : Instrumentation) (h : IsCounted i) where
  abbrev KeepsIn : Collector Hll → Type 0
  KeepsIn c = (i' : Instrumentation) × (c.inst_data ≡ some i') × Keeps i i'

  abbrev AccountsIn : Bool × Collector Hll → Type 0
  AccountsIn (decoded, c) = (i' : Instrumentation) × (c.inst_data ≡ some i') × Accounts i decoded i'

  -- What holds before the message is counted as processed.
  abbrev Decoded : Bool × Collector Hll → Type 0
  Decoded (decoded, c) =
      (i' : Instrumentation) × (c.inst_data ≡ some i')
      × (i'.n_processed_queries ≡ i.n_processed_queries)
      × (i'.n_skipped_queries
          ≡ (if decoded then i.n_skipped_queries else u64 (i.n_skipped_queries + 1)))
      × IsCounted i'

  skip-Holds :
      (c : Collector Hll)
      → c.inst_data ≡ some i
      → Holds Decoded (skip hll sha256 ldns_wire2pkt aggregate_subnets entity_of c)
  skip-Holds c e = (
    record i { n_skipped_queries = u64 (i.n_skipped_queries + 1) },
    rw e refl,
    refl,
    refl,
    record { accepted = h.accepted },
  )

  entity_for-Keeps :
      (client : InAddr46)
      → (i' : Instrumentation) × ((entity_for hll sha256 ldns_wire2pkt aggregate_subnets entity_of
            client
            (some i)).1
          ≡ some i')
        × Keeps i i'
  unfolding entity_for
  entity_for-Keeps client = elim (Bool-cases aggregate_subnets) [
    | inr off ↦ (i, rw off refl, record { processed = refl; skipped = refl; counted = h })
    | inl on ↦ elim (Option-cases (entity_of client)) [
      | inl none_found ↦ (
        record i {
          n_queries_in_subnet = u64 (i.n_queries_in_subnet + 0);
          n_queries_not_in_subnet = u64 (i.n_queries_not_in_subnet + 1);
        },
        rw (on, none_found) refl,
        record { processed = refl; skipped = refl; counted = record { accepted = h.accepted } },
      )
      | inr (name, found) ↦ (
        record i {
          n_queries_in_subnet = u64 (i.n_queries_in_subnet + 1);
          n_queries_not_in_subnet = u64 (i.n_queries_not_in_subnet + 0);
        },
        rw (on, found) refl,
        record { processed = refl; skipped = refl; counted = record { accepted = h.accepted } },
      )
    ]
  ]

  count_type-Keeps :
      (qtype : ℕ) (i' : Instrumentation)
      → query_is_valid_dns_type qtype ≡ true
      → Keeps i i'
      → Keeps i
          (count_type qtype (record i' { n_accepted_queries = u64 (i'.n_accepted_queries + 1) }))
  unfolding count_type
  count_type-Keeps qtype i' v k = record {
    processed = ground (arith, k.processed);
    skipped = ground (arith, k.skipped);
    counted = count_type-IsCounted qtype i' v k.counted;
  }

  same_counts : Keeps i i
  same_counts = record { processed = refl; skipped = refl; counted = h }

  accept_query-Keeps :
      (timestamp : ℕ) (client : InAddr46) (hostname : List ℕ) (qtype : ℕ) (c : Collector Hll)
      → query_is_valid_dns_type qtype ≡ true
      → c.inst_data ≡ some i
      → Holds KeepsIn (
          accept_query hll sha256 ldns_wire2pkt aggregate_subnets entity_of timestamp client
            hostname qtype c)
  unfolding accept_query
  accept_query-Keeps timestamp client hostname qtype c v e =
      let (i', inst, k) = entity_for-Keeps client in
      let prefix =
        (entity_for hll sha256 ldns_wire2pkt aggregate_subnets entity_of client c.inst_data).0 in
      elim (Option-cases (
        register_host_name_lookup hll sha256 timestamp client hostname (some prefix)
          (qtype == rr_type_ptr) c.run)) [
            | inl dies ↦ rw (accept_query, dies) tt
            | inr (run', registers) ↦
                rw (accept_query, registers)
                  (
                    count_type qtype
                        (record i' { n_accepted_queries = u64 (i'.n_accepted_queries + 1) }),
                    rw (e, inst) refl,
                    count_type-Keeps qtype i' v k,
                  )
          ]

  process_question-Keeps :
      (timestamp : ℕ) (client : InAddr46) (question : Option Question) (c : Collector Hll)
      → c.inst_data ≡ some i
      → Holds KeepsIn (
          process_question hll sha256 ldns_wire2pkt aggregate_subnets entity_of timestamp client
            question c)
  unfolding process_question
  process_question-Keeps timestamp client none c e = (i, e, same_counts)
  process_question-Keeps timestamp client (some q) c e = elim (Option-cases q.owner) [
    | inl no_name ↦ rw (process_question, no_name) (i, e, same_counts)
    | inr (hostname, name) ↦ elim (Bool-cases (query_is_valid_dns_type q.qtype)) [
      | inl valid ↦ elim (Bool-cases (q.class == rr_class_in)) [
        | inl internet ↦
            rw (process_question, name, internet, valid)
              (accept_query-Keeps timestamp client hostname q.qtype c valid e)
        | inr other_class ↦ rw (process_question, name, other_class) (i, e, same_counts)
      ]
      | inr other ↦ elim (Bool-cases (q.class == rr_class_in)) [
        | inl internet ↦ rw (process_question, name, internet, other) (i, e, same_counts)
        | inr other_class ↦ rw (process_question, name, other_class) (i, e, same_counts)
      ]
    ]
  ]

  -- Behind what is decoded or skipped, the message is counted as processed.
  decode_packet-Holds :
      (timestamp : ℕ) (m : Message) (wire : Option (List ℕ)) (c : Collector Hll)
      → c.inst_data ≡ some i
      → Holds Decoded
          (decode_packet hll sha256 ldns_wire2pkt aggregate_subnets entity_of timestamp m wire c)
  unfolding decode_packet
  decode_packet-Holds timestamp m none c e = skip-Holds c e
  decode_packet-Holds timestamp m (some wire) c e = elim (Option-cases (ldns_wire2pkt wire)) [
    | inl broken ↦ rw (decode_packet, broken) (skip-Holds c e)
    | inr (question, parsed) ↦
        rw (decode_packet, parsed)
          (>>=-Holds KeepsIn Decoded
            (process_question hll sha256 ldns_wire2pkt aggregate_subnets entity_of timestamp
              (client_of m.query_address) question c)
            (λ c'. some (true, c'))
            (process_question-Keeps timestamp (client_of m.query_address) question c e)
            (λ c' (i', inst, k). (i', inst, k.processed, k.skipped, k.counted)))
  ]

  abbrev read_message :
      (timestamp : ℕ) → Message → Collector Hll → Bool → Option (Bool × Collector Hll)
  read_message timestamp m c query =
      if query
      then decode_packet hll sha256 ldns_wire2pkt aggregate_subnets entity_of timestamp m
          m.query_message c
      else skip hll sha256 ldns_wire2pkt aggregate_subnets entity_of c

  read_message-Holds :
      (timestamp : ℕ) (m : Message) (c : Collector Hll) (query : Bool)
      → c.inst_data ≡ some i
      → Holds Decoded (read_message timestamp m c query)
  read_message-Holds timestamp m c true e = decode_packet-Holds timestamp m m.query_message c e
  read_message-Holds timestamp m c false e = skip-Holds c e

  -- Where the accepted queries are, modulo 2 ^ 64, the sum of those of the five types, and a
  -- message is handled without the program ending: they still are, the message is counted as
  -- processed, and it is counted as skipped exactly where the result is false, so not where it is
  -- decoded and irrelevant.
  pub decode_dnstap_message-Accounts :
      (timestamp : ℕ) (m : Message) (c : Collector Hll) {decoded : Bool} {c' : Collector Hll}
      → c.inst_data ≡ some i
      → decode_dnstap_message hll sha256 ldns_wire2pkt aggregate_subnets entity_of timestamp m c
        ≡ some (decoded, c')
      → (i' : Instrumentation) × (c'.inst_data ≡ some i') × Accounts i decoded i'
  unfolding decode_dnstap_message
  decode_dnstap_message-Accounts timestamp m c e runs =
      let held =
        >>=-Holds Decoded AccountsIn (read_message timestamp m c m.is_client_query)
          (λ (decoded, c').
            some
              (decoded, record c' { inst_data = instrumentation_increment_processed c'.inst_data }))
          (read_message-Holds timestamp m c m.is_client_query e)
          (λ (decoded, c') (i', inst, p, s, k). (
            record i' { n_processed_queries = u64 (i'.n_processed_queries + 1) },
            rw inst refl,
            record {
              processed = ap (λ n. u64 (n + 1)) p;
              skipped = s;
              counted = record { accepted = k.accepted };
            },
          )) in
      rw runs at held
