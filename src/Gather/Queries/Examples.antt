-- ===== src/Gather/Queries/Examples.antt =====
-- A query of the class CH: it is decoded and counted as processed, and not registered.
use honas.Common.{ℕ, ◌≡◌, refl, true, false, List, [], Option, none, some, codes, arith}
use honas.State.Examples.{counting, digest, small}
use honas.Instrumentation.{Instrumentation}
use honas.Gather.Queries.{
  Question, Message, query_is_valid_dns_type, any_type, Collector, process_question, decode_packet,
  decode_dnstap_message,
}
use honas.Gather.Queries.Accounts.{Accounts, decode_dnstap_message-Accounts}

abbrev parse : List ℕ → Option (Option Question)
parse wire = some (some (record { owner = some (codes "version.bind."); class = 3; qtype = 1 }))

abbrev message : Message
message = record { is_client_query = true; query_message = some []; query_address = none }

abbrev counters : Instrumentation
counters = record {
  n_processed_queries = 7;
  n_skipped_queries = 2;
  n_accepted_queries = 3;
  n_queries_sec = 0;
  n_a_queries = 2;
  n_aaaa_queries = 0;
  n_ns_queries = 0;
  n_mx_queries = 0;
  n_ptr_queries = 1;
  memory_usage_kb = 0;
  n_queries_in_subnet = 0;
  n_queries_not_in_subnet = 0;
  n_invalid_frames = 0;
}

abbrev start : Collector ℕ
start = record { run = record { state = small; dry_run = none }; inst_data = some counters }

abbrev after : Collector ℕ
after = record start { inst_data = some (record counters { n_processed_queries = 8 }) }

reverse_is_relevant : query_is_valid_dns_type 12 ≡ true
unfolding query_is_valid_dns_type any_type
reverse_is_relevant = refl

decode_dnstap_message-Accounts_example :
    (i' : Instrumentation) × (after.inst_data ≡ some i') × Accounts counters true i'
unfolding decode_dnstap_message decode_packet process_question
decode_dnstap_message-Accounts_example =
    decode_dnstap_message-Accounts counting digest parse false (λ client. none) counters
      (record { accepted = omega arith }) 5 message start {decoded = true} {c' = after} refl refl
