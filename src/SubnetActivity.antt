-- ===== src/SubnetActivity.antt =====
-- include/subnet_activity.h and src/subnet_activity.c: the prefixes of the entities that are
-- registered for testing. The hash table of uthash, `inet_pton`, the allocator and the JSON parser
-- are parameters; the last one is the sequence of callbacks that it makes.
pub mod Masks
pub mod Parser
pub mod Match
mod Examples
use honas.Common.{
  ℕ, ◌≡◌, Bool, true, false, ◌&&◌, List, [], ◌∷◌, Option, none, some, ◌==◌, same_bytes,
  if◌then◌else◌,
}
use honas.Inet.{InAddr46, addr4, addr6, unsupported}

-- `struct prefix`.
pub record Prefix : Type 0 where
  pub address : InAddr46
  pub length : ℕ

pub same_address : InAddr46 → InAddr46 → Bool
same_address (addr4 a) (addr4 b) = same_bytes a b
same_address (addr6 a) (addr6 b) = same_bytes a b
same_address unsupported unsupported = true
same_address _ _ = false

-- Two keys of the hash table are compared as memory; the padding is 0.
pub same_prefix : Prefix → Prefix → Bool
unfolding same_address
same_prefix p q = (p.length == q.length) && same_address p.address q.address

-- What the code relies on of a hash table of uthash: `add` stands for `HASH_ADD` of a key that is
-- not in it, with the associated entity, and `find` for `HASH_FIND`.
pub record HashTable (Table : Type 0) : Type 0 where
  pub empty : Table
  pub add : Prefix → ℕ → Table → Table
  pub find : Table → Prefix → Option ℕ
  pub find-empty : (p : Prefix) → find empty p ≡ none
  pub find-add :
      (p q : Prefix) (entity : ℕ) (table : Table)
      → find (add p entity table) q ≡ (if same_prefix p q then some entity else find table q)

-- `struct subnet_activity`: entities are names of 128 bytes.
pub record SubnetActivity (Table : Type 0) : Type 0 where
  pub entities : List (List ℕ)
  pub registered_entities : ℕ
  pub prefixes : Table
  pub registered_prefixes : ℕ
  pub shortest_ipv4_prefix : ℕ
  pub longest_ipv4_prefix : ℕ
  pub shortest_ipv6_prefix : ℕ
  pub longest_ipv6_prefix : ℕ

-- `enum subnet_activity_error`.
pub data SubnetActivityError : Type 0 where
  sa_ok sa_invalid_argument sa_open_file_failed sa_alloc_failed sa_json_map_failed :
      SubnetActivityError
  sa_json_end_map_failed sa_json_array_failed sa_json_end_array_failed : SubnetActivityError
  sa_json_map_key_failed sa_ipaddress_parse_failed sa_json_spec_string_failed : SubnetActivityError
  sa_json_spec_integer_failed sa_invalid_prefix_length : SubnetActivityError
