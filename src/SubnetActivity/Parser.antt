-- ===== src/SubnetActivity/Parser.antt =====
-- The callbacks of the JSON parser: a state machine over the context, and
-- `subnet_activity_initialize` around it.
pub mod Invariant
pub mod Steps
pub mod Callbacks
pub mod Runs
use honas.Common.{
  same_bytes, ℕ, zero, suc, ◌+◌, ◌-◌, ◌*◌, ◌≡◌, Bool, true, false, ◌&&◌, ◌||◌, List, [], ◌∷◌, ◌++◌,
  Option, none, some, ltb, leb, ◌==◌, if◌then◌else◌, min, max, length, drop, replicate, codes,
  get_or, set, ℤ, pos, negsuc, require, ◌>>=◌, ◌>>◌, u64,
}
use honas.Inet.{InAddr46, addr4, addr6, unsupported}
use honas.State.Register.Text.{c_string}
use honas.SubnetActivity.{
  Prefix, HashTable, SubnetActivity, SubnetActivityError, sa_ok, sa_invalid_argument,
  sa_open_file_failed, sa_alloc_failed, sa_json_map_failed, sa_json_end_map_failed,
  sa_json_array_failed, sa_json_end_array_failed, sa_json_map_key_failed, sa_ipaddress_parse_failed,
  sa_json_spec_string_failed, sa_json_spec_integer_failed, sa_invalid_prefix_length,
}

pub data SpecState : Type 0 where
  init subnet_activity_spec subnet_activity_spec_expect_mapping_array : SpecState
  subnet_mapping_array subnet_mapping subnet_mapping_expect_entity : SpecState
  subnet_mapping_expect_prefixes_array prefix_mapping_array prefix_mapping : SpecState
  prefix_mapping_expect_prefix prefix_mapping_expect_length : SpecState

-- `struct subnet_activity_spec_context`; the current entity by its index.
pub record SpecContext (Table : Type 0) : Type 0 where
  pub state : SpecState
  pub subnet_metadata : SubnetActivity Table
  pub sa_status_code : SubnetActivityError
  pub current_entity : ℕ
  pub current_ipaddr : InAddr46

-- The callbacks with their arguments.
pub data Event : Type 0 where
  integer : ℤ → Event
  string : List ℕ → Event
  map_key : List ℕ → Event
  start_map end_map start_array end_array : Event

-- The file that `subnet_activity_initialize` is given: a null pointer, one that cannot be opened,
-- one for which no parser can be allocated, or the callbacks that the parser makes on its contents.
pub data SubnetFile : Type 0 where
  no_file unreadable no_parser : SubnetFile
  parsed : List Event → SubnetFile

-- `strncpy` of as many bytes as the source has: what follows a terminator becomes 0.
pub strncpy : (source : List ℕ) → List ℕ
strncpy source = c_string source ++ replicate (length source - length (c_string source)) 0

-- The prefix length, if it is one of the family of the address.
pub prefix_length : InAddr46 → ℤ → Option ℕ
prefix_length (addr4 bytes) (pos n) = if leb n 32 then some n else none
prefix_length (addr6 bytes) (pos n) = if leb n 128 then some n else none
prefix_length _ _ = none

module _ {Table : Type 0} (table : HashTable Table) (alloc : SpecContext Table → Bool) where
  -- The bounds of the prefix lengths, of the family of the current address.
  pub widen_bounds : InAddr46 → ℕ → SubnetActivity Table → SubnetActivity Table
  widen_bounds (addr4 bytes) n m = record m {
    shortest_ipv4_prefix = min m.shortest_ipv4_prefix n;
    longest_ipv4_prefix = max m.longest_ipv4_prefix n;
  }
  widen_bounds _ n m = record m {
    shortest_ipv6_prefix = min m.shortest_ipv6_prefix n;
    longest_ipv6_prefix = max m.longest_ipv6_prefix n;
  }

  -- `alloc` tells whether an allocation succeeds. A prefix that is there already stays as it is.
  pub add_prefix_hh : SpecContext Table → InAddr46 → ℕ → SubnetActivityError × Table
  add_prefix_hh ctx addr plen =
      let p : Prefix = record { address = addr; length = plen } in
      let prefixes = ctx.subnet_metadata.prefixes in
      elim (table.find prefixes p) [
        | none ↦
            if alloc ctx
            then (sa_ok, table.add p ctx.current_entity prefixes)
            else (sa_alloc_failed, prefixes)
        | some entity ↦ (sa_ok, prefixes)
      ]

  -- The two assignments behind the call, for the two results that it can have.
  pub count_prefix :
      SubnetActivityError → Table → InAddr46 → ℕ → SubnetActivity Table → SubnetActivity Table
  unfolding widen_bounds
  count_prefix sa_ok prefixes addr plen m =
      widen_bounds addr plen
        (record m { prefixes = prefixes; registered_prefixes = u64 (m.registered_prefixes + 1) })
  count_prefix _ prefixes addr plen m = m

  -- The results of a callback: whether to go on, and the context. `none` is an access out of bounds.
  pub fails : SubnetActivityError → SpecContext Table → Option (Bool × SpecContext Table)
  fails code ctx = some (false, record ctx { sa_status_code = code })

  pub goes_on : SpecState → SpecContext Table → Option (Bool × SpecContext Table)
  goes_on next ctx = some (true, record ctx { state = next })

  pub add_length : SpecContext Table → ℕ → SpecContext Table
  unfolding add_prefix_hh count_prefix
  add_length ctx plen =
      let (code, prefixes) = add_prefix_hh ctx ctx.current_ipaddr plen in
      record ctx {
        sa_status_code = code;
        subnet_metadata = count_prefix code prefixes ctx.current_ipaddr plen ctx.subnet_metadata;
      }

  pub spec_integer : SpecState → ℤ → SpecContext Table → Option (Bool × SpecContext Table)
  unfolding fails goes_on add_length prefix_length
  spec_integer prefix_mapping_expect_length value ctx =
      elim (prefix_length ctx.current_ipaddr value) [
        | none ↦ fails sa_invalid_prefix_length ctx
        | some plen ↦ goes_on prefix_mapping (add_length ctx plen)
      ]
  spec_integer _ value ctx = fails sa_json_spec_integer_failed ctx

  -- The name of the last entity, of 128 bytes.
  pub name_entity : List ℕ → SubnetActivity Table → Option (SubnetActivity Table)
  unfolding strncpy
  name_entity value m = do
    require (ltb 0 m.registered_entities)
    require (leb (length value) 128)
    let name = get_or m.entities (m.registered_entities - 1) []
    let renamed = strncpy value ++ drop (length value) name
    some (record m { entities = set m.entities (m.registered_entities - 1) renamed })

  pub spec_string : SpecState → List ℕ → SpecContext Table → Option (Bool × SpecContext Table)
  unfolding fails goes_on name_entity
  spec_string subnet_mapping_expect_entity value ctx = do
    metadata ← name_entity value ctx.subnet_metadata
    goes_on subnet_mapping (record ctx { subnet_metadata = metadata })
  spec_string _ value ctx = fails sa_json_spec_string_failed ctx

  module _ (inet_pton4 inet_pton6 : List ℕ → Option (List ℕ)) where
    -- The address that a text of less than 128 bytes stands for.
    pub parse_address : List ℕ → InAddr46
    parse_address text = elim (inet_pton4 text) [
      | some bytes ↦ addr4 bytes
      | none ↦ elim (inet_pton6 text) [ some bytes ↦ addr6 bytes | none ↦ unsupported ]
    ]

    pub read_address : List ℕ → SpecContext Table → Option (Bool × SpecContext Table)
    unfolding fails goes_on parse_address
    read_address value ctx = do
      require (ltb (length value) 128)
      let address = parse_address (c_string value)
      let read = record ctx { current_ipaddr = address }
      elim address [
        | unsupported ↦ fails sa_ipaddress_parse_failed read
        | _ ↦ goes_on prefix_mapping_expect_length read
      ]

    pub spec_map_key : SpecState → List ℕ → SpecContext Table → Option (Bool × SpecContext Table)
    unfolding fails goes_on read_address
    spec_map_key subnet_activity_spec key ctx =
        if same_bytes key (codes "subnet_activity")
        then goes_on subnet_activity_spec_expect_mapping_array ctx
        else goes_on subnet_activity_spec ctx
    spec_map_key subnet_mapping key ctx =
        if same_bytes key (codes "entity")
        then goes_on subnet_mapping_expect_entity ctx
        else (if same_bytes key (codes "prefixes")
            then goes_on subnet_mapping_expect_prefixes_array ctx
            else goes_on subnet_mapping ctx)
    spec_map_key prefix_mapping key ctx = read_address key ctx
    spec_map_key _ key ctx = fails sa_json_map_key_failed ctx

  -- A new entity of 128 bytes 0. Where the allocation fails, the array holds a null pointer that
  -- is not counted, and there is no current entity.
  pub start_subnet : SpecContext Table → Option (Bool × SpecContext Table)
  unfolding fails goes_on
  start_subnet ctx =
      let m = ctx.subnet_metadata in
      let counted = record m {
        entities = m.entities ++ replicate 128 0 ∷ [];
        registered_entities = m.registered_entities + 1;
      } in
      do
        require (ltb m.registered_entities 1024)
        if alloc ctx
            then goes_on subnet_mapping
                (record ctx { subnet_metadata = counted; current_entity = m.registered_entities })
            else fails sa_alloc_failed ctx

  pub spec_start_map : SpecState → SpecContext Table → Option (Bool × SpecContext Table)
  unfolding fails goes_on start_subnet
  spec_start_map init ctx = goes_on subnet_activity_spec ctx
  spec_start_map subnet_mapping_array ctx = start_subnet ctx
  spec_start_map prefix_mapping_array ctx = goes_on prefix_mapping ctx
  spec_start_map _ ctx = fails sa_json_map_failed ctx

  pub spec_end_map : SpecState → SpecContext Table → Option (Bool × SpecContext Table)
  unfolding fails goes_on
  spec_end_map subnet_activity_spec ctx = goes_on init ctx
  spec_end_map subnet_mapping ctx = goes_on subnet_mapping_array ctx
  spec_end_map prefix_mapping ctx = goes_on prefix_mapping_array ctx
  spec_end_map _ ctx = fails sa_json_end_map_failed ctx

  pub spec_start_array : SpecState → SpecContext Table → Option (Bool × SpecContext Table)
  unfolding fails goes_on
  spec_start_array subnet_activity_spec_expect_mapping_array ctx = goes_on subnet_mapping_array ctx
  spec_start_array subnet_mapping_expect_prefixes_array ctx = goes_on prefix_mapping_array ctx
  spec_start_array _ ctx = fails sa_json_array_failed ctx

  pub spec_end_array : SpecState → SpecContext Table → Option (Bool × SpecContext Table)
  unfolding fails goes_on
  spec_end_array subnet_mapping_array ctx = goes_on subnet_activity_spec ctx
  spec_end_array prefix_mapping_array ctx = goes_on subnet_mapping ctx
  spec_end_array _ ctx = fails sa_json_end_array_failed ctx

  module _ (inet_pton4 inet_pton6 : List ℕ → Option (List ℕ)) where
    pub callback : Event → SpecContext Table → Option (Bool × SpecContext Table)
    unfolding spec_integer spec_string spec_map_key spec_start_map spec_end_map spec_start_array
        spec_end_array
    callback (integer value) ctx = spec_integer ctx.state value ctx
    callback (string value) ctx = spec_string ctx.state value ctx
    callback (map_key key) ctx = spec_map_key inet_pton4 inet_pton6 ctx.state key ctx
    callback start_map ctx = spec_start_map ctx.state ctx
    callback end_map ctx = spec_end_map ctx.state ctx
    callback start_array ctx = spec_start_array ctx.state ctx
    callback end_array ctx = spec_end_array ctx.state ctx

    -- The parser makes no more calls when one of them returns 0.
    pub run : List Event → SpecContext Table → Option (SpecContext Table)
    unfolding callback
    run [] ctx = some ctx
    run (event ∷ events) ctx = do
      (more, ctx') ← callback event ctx
      elim more [ true ↦ run events ctx' | false ↦ some ctx' ]

    -- The structure after `memset`, with the two bounds that lower.
    pub no_activity : SubnetActivity Table
    no_activity = record {
      entities = [];
      registered_entities = 0;
      prefixes = table.empty;
      registered_prefixes = 0;
      shortest_ipv4_prefix = 32;
      longest_ipv4_prefix = 0;
      shortest_ipv6_prefix = 128;
      longest_ipv6_prefix = 0;
    }

    pub start_context : SpecContext Table
    unfolding no_activity
    start_context = record {
      state = init;
      subnet_metadata = no_activity;
      sa_status_code = sa_ok;
      current_entity = 0;
      current_ipaddr = unsupported;
    }

    pub subnet_activity_initialize :
        SubnetFile → Option (SubnetActivityError × SubnetActivity Table)
    unfolding start_context run
    subnet_activity_initialize no_file = some (sa_invalid_argument, no_activity)
    subnet_activity_initialize unreadable = some (sa_open_file_failed, no_activity)
    subnet_activity_initialize no_parser = some (sa_ok, no_activity)
    subnet_activity_initialize (parsed events) = do
      ctx ← run events start_context
      some (ctx.sa_status_code, ctx.subnet_metadata)
