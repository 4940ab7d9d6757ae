-- ===== src/NodeTree.antt =====
-- demo/node_tree/node_tree.c and h/node_tree/node_tree.h: the tables of services and `getProcess`,
-- which finds a service by its path. A pointer to a table is its name; a read behind the end of a
-- table is `none`.
pub mod Path
pub mod Lookup
pub mod Service
mod Tests
use embedded_linux_iot_gatew.Prelude.{
  ℕ, Bool, true, false, ◌&&◌, Option, none, some, List, [], ◌∷◌, ◌++◌, take, ◌==◌, if◌then◌else◌,
  ◌>>=◌, Text, text_eq,
}

-- The functions that nodes point to.
pub data Process : Type 0 where
  network system_config system_info log_info log_config_v2 log_info_v2 : Process

pub data TableName : Type 0 where
  root_table log_mgr_table system_table log_config_table : TableName

-- `node_t`, with the fields that `getProcess` reads.
pub record Node : Type 0 where
  pub servicename : Text
  pub process : Option Process
  pub nextnode : Option TableName

abbrev pub Tables : Type 0
Tables = TableName → List Node

abbrev pub node : Text → Option Process → Option TableName → Node
node name p next = record { servicename = name; process = p; nextnode = next }

abbrev pub root_node : List Node
root_node =
    node (b's' ∷ b'y' ∷ b's' ∷ b't' ∷ b'e' ∷ b'm' ∷ []) none (some system_table)
    ∷ node (b'l' ∷ b'o' ∷ b'g' ∷ b'I' ∷ b'n' ∷ b'f' ∷ b'o' ∷ []) none (some log_mgr_table)
    ∷ node (b'n' ∷ b'e' ∷ b't' ∷ b'w' ∷ b'o' ∷ b'r' ∷ b'k' ∷ []) (some network) none
    ∷ node (b'/' ∷ b'r' ∷ b'o' ∷ b'o' ∷ b't' ∷ b'_' ∷ b'n' ∷ b'o' ∷ b'd' ∷ b'e' ∷ []) none none
    ∷ []

abbrev pub log_mgr : List Node
log_mgr =
    node (b'c' ∷ b'o' ∷ b'n' ∷ b'f' ∷ b'i' ∷ b'g' ∷ []) none (some log_config_table)
    ∷ node (b'i' ∷ b'n' ∷ b'f' ∷ b'o' ∷ []) (some log_info) none
    ∷ node (b'/' ∷ b'l' ∷ b'o' ∷ b'g' ∷ b'I' ∷ b'n' ∷ b'f' ∷ b'o' ∷ []) none none
    ∷ []

abbrev pub system : List Node
system =
    node (b'c' ∷ b'o' ∷ b'n' ∷ b'f' ∷ b'i' ∷ b'g' ∷ []) (some system_config) none
    ∷ node (b'i' ∷ b'n' ∷ b'f' ∷ b'o' ∷ []) (some system_info) none
    ∷ node (b'/' ∷ b's' ∷ b'y' ∷ b's' ∷ b't' ∷ b'e' ∷ b'm' ∷ []) none none
    ∷ []

abbrev pub log_config : List Node
log_config =
    node (b'c' ∷ b'o' ∷ b'n' ∷ b'f' ∷ b'i' ∷ b'g' ∷ []) (some log_config_v2) none
    ∷ node (b'i' ∷ b'n' ∷ b'f' ∷ b'o' ∷ []) (some log_info_v2) none
    ∷ node (b'/' ∷ b's' ∷ b'y' ∷ b's' ∷ b't' ∷ b'e' ∷ b'm' ∷ []) none none
    ∷ []

abbrev pub source_tables : Tables
source_tables root_table = root_node
source_tables log_mgr_table = log_mgr
source_tables system_table = system
source_tables log_config_table = log_config

abbrev flush : Text → List Text → List Text
flush [] ts = ts
flush (c ∷ cs) ts = (c ∷ cs) ∷ ts

-- strtok(_, "/") until it returns NULL, after the characters of a token that has begun.
unfoldable pub tokens_from : Text → Text → List Text
tokens_from cur [] = flush cur []
tokens_from cur (c ∷ s) = elim (c == b'/') [
  | true ↦ flush cur (tokens_from [] s)
  | false ↦ tokens_from (cur ++ (c ∷ [])) s
]

-- The copy of the path has room for 127 characters.
unfoldable pub tokens : Text → List Text
unfolding tokens_from
tokens path = tokens_from [] (take 127 path)

-- The loop over a level, up to an empty name.
unfoldable pub find_node : List Node → Text → Option (Option Node)
unfolding text_eq
find_node [] token = none
find_node (n ∷ ns) token =
    let rest = find_node ns token in
    if text_eq n.servicename []
    then some none
    else (if text_eq n.servicename token then some (some n) else rest)

-- The node of the last token, if it has a process.
abbrev pub with_process : Node → Option Process → Option (Node × Process)
with_process n none = none
with_process n (some p) = some (n, p)

abbrev pub service : Node → Option (Node × Process)
service n = with_process n n.process

module _ (tables : Tables) where
  -- The loop over the tokens, from a level on; NULL is the inner `none`.
  unfoldable pub walk : Option TableName → List Text → Option (Option (Node × Process))
  unfolding find_node
  walk level [] = some none
  walk none (token ∷ ts) = some none
  walk (some level) (token ∷ ts) = find_node (tables level) token >>= λ found. elim found [
    | none ↦ some none
    | some n ↦ elim ts [ [] ↦ some (service n) | _ ∷ _ ↦ walk n.nextnode ts ]
  ]

  -- `getProcess`, with the node for `*targetNode`; a path `none` is NULL.
  unfoldable pub get_process : Option TableName → Option Text → Option (Option (Node × Process))
  unfolding tokens walk
  get_process none path = some none
  get_process (some level) none = some none
  get_process (some level) (some path) = walk (some level) (tokens path)
