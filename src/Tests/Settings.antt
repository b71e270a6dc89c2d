-- ===== src/Tests/Settings.antt =====
-- backend/Backend.cpp, the settings, with a small library of documents.
use openbookfs.Prelude.{
  ℤ, pos, ltb_ℤ, true, if◌then◌else◌, ◌≡◌, refl, ap, ◌⊎◌, ◌≤◌, ◌<◌, List, [], ◌∷◌, Option, none,
  some, String, str_eq, length, replicate, arith, ◌+ℤ◌, ◌-ℤ◌,
}
use openbookfs.Database.Downloads.{Bytes}
use openbookfs.Backend.Arguments.{Packing, pack, pack_loop, mount_args}
use openbookfs.Backend.Fitting.{pack_lem}
use openbookfs.Backend.Config.{Yaml, unspec, inet, Settings, returned}
use openbookfs.Backend.Loading.{load_config, load_mounts, save_config}
use openbookfs.Backend.Restoring.{IsFaithful, lookup, restored}
use openbookfs.Backend.Saved.{load_config-save_config}

mutual
  data Node : Type 0 where
    leaf : String → Node
    raw : Bytes → Node
    items_of : Nodes → Node
    entries_of : Entries → Node

  data Nodes : Type 0 where
    no_node : Nodes
    more_nodes : Node → Nodes → Nodes

  data Entries : Type 0 where
    no_entry : Entries
    more_entries : String → Node → Entries → Entries

abbrev nodes : List Node → Nodes
nodes [] = no_node
nodes (n ∷ ns) = more_nodes n (nodes ns)

abbrev node_list : Nodes → List Node
node_list no_node = []
node_list (more_nodes n ns) = n ∷ node_list ns

abbrev entries : List (String × Node) → Entries
entries [] = no_entry
entries ((k, n) ∷ kvs) = more_entries k n (entries kvs)

abbrev search_entry : String → Entries → Option Node
search_entry k no_entry = none
search_entry k (more_entries k' n e) =
    let rest = search_entry k e in if str_eq k' k then some n else rest

abbrev at_key : Node → String → Option Node
at_key (leaf t) k = none
at_key (raw b) k = none
at_key (items_of ns) k = none
at_key (entries_of e) k = search_entry k e

abbrev items_in : Node → List Node
items_in (leaf t) = []
items_in (raw b) = []
items_in (items_of ns) = node_list ns
items_in (entries_of e) = []

abbrev text_of : Node → Option String
text_of (leaf t) = some t
text_of (raw b) = none
text_of (items_of ns) = none
text_of (entries_of e) = none

abbrev bytes_of : Node → Option Bytes
bytes_of (leaf t) = none
bytes_of (raw b) = some b
bytes_of (items_of ns) = none
bytes_of (entries_of e) = none

abbrev number : String → Option ℤ
number t =
    if str_eq t "20" then some (pos 20) else (if str_eq t "3030" then some (pos 3030) else none)

abbrev int_of : Node → Option ℤ
int_of (leaf t) = number t
int_of (raw b) = none
int_of (items_of ns) = none
int_of (entries_of e) = none

-- It knows two numbers.
abbrev documents : Yaml Node
documents = record {
  mapping = λ kvs. entries_of (entries kvs);
  sequence = λ ns. items_of (nodes ns);
  scalar = leaf;
  bytes_scalar = raw;
  at = at_key;
  items = items_in;
  text = text_of;
  bytes = bytes_of;
  int = int_of;
  decimal = λ n. if ltb_ℤ n (pos 100) then "20" else "3030";
}

search_entry-entries :
    (kvs : List (String × Node)) (k : String) → search_entry k (entries kvs) ≡ lookup k kvs
search_entry-entries [] k = refl
search_entry-entries ((k', n) ∷ kvs) k =
    ap (λ (o : Option Node). if str_eq k' k then some n else o) (search_entry-entries kvs k)

node_list-nodes : (ns : List Node) → node_list (nodes ns) ≡ ns
node_list-nodes [] = refl
node_list-nodes (n ∷ ns) = ap (λ (l : List Node). n ∷ l) (node_list-nodes ns)

documents-IsFaithful : IsFaithful documents
documents-IsFaithful = record {
  at-mapping = search_entry-entries;
  items-sequence = node_list-nodes;
  text-scalar = λ t. refl;
  bytes-bytes_scalar = λ b. refl;
}

abbrev debug : Bytes
debug = 45 ∷ 100 ∷ []

abbrev in_use : Settings
in_use = record {
  display_name = "Nadie";
  data_dir = "./data";
  local_service = "3030";
  remote_family = inet;
  remote_node = "";
  remote_service = "3031";
  client_family = inet;
  client_node = "here";
  max_peers = pos 20;
  capacity = pos 20;
  created = pos 20;
  mounts = record { mount = "./mountPoint"; reldir = "photos"; args = debug ∷ [] } ∷ [];
}

abbrev at_start : Settings
at_start = record {
  display_name = "Anonymous";
  data_dir = "./.obfs";
  local_service = "3030";
  remote_family = unspec;
  remote_node = "localhost";
  remote_service = "3031";
  client_family = unspec;
  client_node = "";
  max_peers = pos 10;
  capacity = pos 10;
  created = pos 10;
  mounts = [];
}

program : Unit {0}
unfolding ltb_ℤ ◌+ℤ◌ ◌-ℤ◌ load_config load_mounts save_config pack pack_loop
program = tt

restart_run :
    load_config documents (λ _. true) (λ _. true) (save_config documents in_use) at_start
    ≡ returned (record in_use {
      mounts = record { mount = "./mountPoint"; reldir = ""; args = debug ∷ [] } ∷ [];
    })
unfolding program
restart_run = refl

load_config-save_config_example :
    load_config documents (λ _. true) (λ _. true) (save_config documents in_use) at_start
    ≡ returned (restored in_use at_start)
load_config-save_config_example =
    load_config-save_config documents documents-IsFaithful in_use (λ _. true) (λ _. true) (pos 3030)
      at_start (unfold program in refl) (unfold program in refl) (unfold program in refl) refl refl
      refl (λ m. refl) (omega arith, tt)

pack_run : pack (replicate 101 (97 ∷ [])) ≡ none
unfolding program
pack_run = refl

pack_lem_example :
    ((p : Packing) × (pack (debug ∷ [] ∷ []) ≡ some p)
      × (mount_args p ≡ debug ∷ [] ∷ [])
      × (length p.buffer ≡ 256)
      × (2 ≤ 100))
    ⊎ ((pack (debug ∷ [] ∷ []) ≡ none) × (100 < 2))
pack_lem_example = pack_lem (debug ∷ [] ∷ [])
