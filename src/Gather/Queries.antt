-- ===== src/Gather/Queries.antt =====
-- src/bin/honas_gather.c: the queries in the frames of data, over src/honas_state.c and
-- src/instrumentation.c. The functions of ldns, the clock, and the entity that
-- `subnet_activity_match_prefix` finds for a client are arguments; the warning on the false positive
-- rate, which changes no more than whether it is repeated, is left out. `none` is the end of the
-- process.
pub mod Accounts
mod Examples
use honas.Common.{
  ℕ, ◌≡◌, Bool, true, false, ◌&&◌, List, [], ◌∷◌, Option, none, some, ◌==◌, ◌||◌, if◌then◌else◌,
  length, take, codes, ◌>>=◌, ◌>>◌,
}
use honas.Inet.{InAddr46, addr4, addr6, unsupported}
use honas.State.{Counting}
use honas.State.Register.{Run, register_host_name_lookup}
use honas.State.Register.Text.{c_string}
use honas.Instrumentation.{
  Instrumentation, rr_type_a, rr_type_ns, rr_type_mx, rr_type_aaaa, rr_type_ptr,
  instrumentation_increment_processed, instrumentation_increment_accepted,
  instrumentation_increment_skipped, instrumentation_increment_invalid,
  instrumentation_increment_type, instrumentation_update_subnet_activity,
}

-- The first question of a packet: the text of its owner, its class and its type.
pub record Question : Type 0 where
  pub owner : Option (List ℕ)
  pub class : ℕ
  pub qtype : ℕ

-- `Dnstap__Message`, as far as it is read.
pub record Message : Type 0 where
  pub is_client_query : Bool
  pub query_message : Option (List ℕ)
  pub query_address : Option (List ℕ)

abbrev pub rr_class_in : ℕ
rr_class_in = 1

-- The loop over `relevant_dns_types`.
unfoldable pub any_type : (qtype : ℕ) → List ℕ → Bool
any_type qtype [] = false
any_type qtype (t ∷ types) = qtype == t || any_type qtype types

abbrev pub relevant_dns_types : List ℕ
relevant_dns_types = rr_type_a ∷ rr_type_ns ∷ rr_type_mx ∷ rr_type_aaaa ∷ rr_type_ptr ∷ []

unfoldable pub query_is_valid_dns_type : (qtype : ℕ) → Bool
query_is_valid_dns_type qtype = any_type qtype relevant_dns_types

-- The source address; of any other length it stays as it was, all 0.
unfoldable pub client_of : Option (List ℕ) → InAddr46
client_of none = unsupported
client_of (some bytes) =
    if length bytes == 4
    then addr4 bytes
    else if length bytes == 16
    then addr6 bytes
    else unsupported

-- The state that is current, the counters of a dry run, and those of the instrumentation.
pub record Collector (Hll : Type 0) : Type 0 where
  pub run : Run Hll
  pub inst_data : Option Instrumentation

module _ {Hll : Type 0} (hll : Counting Hll) (sha256 : List ℕ → List ℕ)
    (ldns_wire2pkt : List ℕ → Option (Option Question)) (aggregate_subnets : Bool)
    (entity_of : InAddr46 → Option (List ℕ)) where
  -- The entity of a client, with the counters of the clients in subnets.
  unfoldable pub entity_for : InAddr46 → Option Instrumentation → List ℕ × Option Instrumentation
  entity_for client inst =
      if aggregate_subnets
      then elim (entity_of client) [
        | some name ↦ (take 128 (c_string name), instrumentation_update_subnet_activity inst 1 0)
        | none ↦ (codes "UNKNOWN", instrumentation_update_subnet_activity inst 0 1)
      ]
      else (codes "UNKNOWN", inst)

  unfoldable pub accept_query :
      (timestamp : ℕ)
      → InAddr46
      → (hostname : List ℕ) → (qtype : ℕ) → Collector Hll
      → Option (Collector Hll)
  accept_query timestamp client hostname qtype c =
      let (prefix, inst) = entity_for client c.inst_data in
      register_host_name_lookup hll sha256 timestamp client hostname (some prefix)
        (qtype == rr_type_ptr) c.run
      >>= λ run'. some (record {
        run = run';
        inst_data = instrumentation_increment_type (instrumentation_increment_accepted inst) qtype;
      })

  unfoldable pub process_question :
      (timestamp : ℕ) → InAddr46 → Option Question → Collector Hll → Option (Collector Hll)
  process_question timestamp client none c = some c
  process_question timestamp client (some q) c = elim q.owner [
    | none ↦ some c
    | some hostname ↦
        if q.class == rr_class_in && query_is_valid_dns_type q.qtype
        then accept_query timestamp client hostname q.qtype c
        else some c
  ]

  abbrev pub skip : Collector Hll → Option (Bool × Collector Hll)
  skip c = some (false, record c { inst_data = instrumentation_increment_skipped c.inst_data })

  unfoldable pub decode_packet :
      (timestamp : ℕ) → Message → Option (List ℕ) → Collector Hll → Option (Bool × Collector Hll)
  decode_packet timestamp m none c = skip c
  decode_packet timestamp m (some wire) c = elim (ldns_wire2pkt wire) [
    | none ↦ skip c
    | some question ↦
        process_question timestamp (client_of m.query_address) question c >>= λ c'. some (true, c')
  ]

  unfoldable pub decode_dnstap_message :
      (timestamp : ℕ) → Message → Collector Hll → Option (Bool × Collector Hll)
  decode_dnstap_message timestamp m c =
      (if m.is_client_query then decode_packet timestamp m m.query_message c else skip c)
      >>= λ (decoded, c').
          some (decoded, record c' { inst_data = instrumentation_increment_processed c'.inst_data })

  -- The end of `process_data_frame`: `unpack` is `dnstap__dnstap__unpack`, with the message if there
  -- is one. Where the content type is not the expected one, a message is logged and no more.
  unfoldable pub handle_payload :
      (unpack : List ℕ → Option (Option Message))
      → (timestamp : ℕ) → List ℕ
      → Collector Hll
      → Option (Collector Hll)
  handle_payload unpack timestamp bytes c = elim (unpack bytes) [
    | none ↦ some c
    | some message ↦ elim message [
      | none ↦ some c
      | some m ↦ decode_dnstap_message timestamp m c >>= λ (decoded, c'). some (
          if decoded
          then c'
          else record c' { inst_data = instrumentation_increment_invalid c'.inst_data })
    ]
  ]
