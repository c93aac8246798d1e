-- ===== src/Search/Job/Examples.antt =====
-- A group of two host names with one digest, in a state of which every filter is full.
use honas.Common.{ℕ, ◌≡◌, refl, true, false, List, [], ◌∷◌, ◌++◌, some, replicate, codes, arith}
use honas.BitSet.{create, byte_count, using_byte_slice}
use honas.BitSet.Bytes.{create-Shows}
use honas.State.Examples.{full, full-IsWellFormed, digest, digest-IsDigest}
use honas.State.Filters.Check.{check_host_name_lookups_lem}
use honas.State.Register.Text.{c_string}
use honas.JsonPrinter.{write_string, write_chars, write_char}
use honas.Search.{decode_string_hex, decode_pairs, decode_nibble}
use honas.Search.Context.{SearchContext, Searched, map_key, start_map, end_map, groups_array, group}
use honas.Search.Job.{run}
use honas.Search.Job.Group.{IsGroup}
use honas.Search.Job.Hits.{HostName, IsHostName, host_name_events, hits_of, group_run}

abbrev job : Searched ℕ
job = record {
  honas_state = full;
  group_address = 4096;
  host_name_address = 8192;
  print_unsigned = λ n. codes "1";
  node_version = codes "1.0";
  state_file_version = codes "1.0";
  approx_count = λ n. n;
  actual_fpr = λ n. codes "0.5";
}

abbrev zero_hits : List ℕ
zero_hits = (check_host_name_lookups_lem full (digest []) full-IsWellFormed (digest-IsDigest [])).0

abbrev host_name : (key : List ℕ) → HostName
host_name key = record {
  key = key;
  name = b'"' ∷ (key ++ b'"' ∷ []);
  text = replicate 64 b'0';
  digest = digest [];
  hits = zero_hits;
}

host_name-IsHostName :
    (key : List ℕ)
    → write_string (c_string key) ≡ some (b'"' ∷ (key ++ b'"' ∷ []))
    → IsHostName job (host_name key)
unfolding decode_string_hex decode_pairs decode_nibble
host_name-IsHostName key printable =
    let (hits, checked, rising, found, most) =
      check_host_name_lookups_lem full (digest []) full-IsWellFormed (digest-IsDigest []) in
    record {
      printable = printable;
      short = omega arith;
      decoded = refl;
      checked = checked;
      rising = rising;
    }

abbrev names : List HostName
names = host_name (codes "a.nl") ∷ host_name (codes "b.nl") ∷ []

abbrev at_groups : SearchContext
at_groups = record {
  state = groups_array;
  flatten_results = false;
  printer = record { depth = 3; first_element = true; out = [] };
  group_id = 0;
  group_has_results = false;
  group_all_host_names_found = false;
  group_filters_hit = create 2;
  host_name_filters_hit = create 2;
  host_name_key = [];
}

group_run_example :
    (ctx' : SearchContext) × (run job
        (start_map
          ∷ map_key (codes "hostnames")
          ∷ start_map
          ∷ host_name_events names (end_map ∷ []))
        at_groups
      ≡ some ctx')
    × IsGroup job false (hits_of names []) ctx'
    × (ctx'.state ≡ group)
unfolding byte_count using_byte_slice write_string write_chars write_char c_string
group_run_example =
    group_run job false (omega arith) (omega arith) names at_groups
      (host_name-IsHostName (codes "a.nl") refl, (host_name-IsHostName (codes "b.nl") refl, tt))
      refl refl (record { holds = λ j. 0; shows = create-Shows 2 (omega arith) })
      (record { holds = λ j. 0; shows = create-Shows 2 (omega arith) }) (omega arith)
