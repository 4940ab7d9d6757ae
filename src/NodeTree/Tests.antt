-- ===== src/NodeTree/Tests.antt =====
-- Paths in the tables of the source, and the theorems at an input.
use embedded_linux_iot_gatew.Prelude.{
  Text, text_eq, ◌≡◌, refl, ◌↔◌, none, some, List, [], ◌∷◌, arith, true,
}
use embedded_linux_iot_gatew.NodeTree.{
  network, log_config_v2, TableName, root_table, Node, node, Tables, source_tables, tokens,
  tokens_from, find_node, walk, get_process,
}
use embedded_linux_iot_gatew.NodeTree.Path.{join, no_slash, AreNames}
use embedded_linux_iot_gatew.NodeTree.Lookup.{Leads, ends}
use embedded_linux_iot_gatew.NodeTree.Service.{get_process-Leads}

abbrev names : List Text
names =
    (b'c' ∷ b'o' ∷ b'n' ∷ b'f' ∷ b'i' ∷ b'g' ∷ [])
    ∷ (b'c' ∷ b'o' ∷ b'n' ∷ b'f' ∷ b'i' ∷ b'g' ∷ [])
    ∷ []

names-AreNames : AreNames names
unfolding no_slash
names-AreNames = (omega arith, refl, (omega arith, refl, tt))

-- /logInfo/config/config
found_config :
    get_process source_tables
      (some root_table)
      (some (join ((b'l' ∷ b'o' ∷ b'g' ∷ b'I' ∷ b'n' ∷ b'f' ∷ b'o' ∷ []) ∷ names)))
    ≡ some (
        some (
          node (b'c' ∷ b'o' ∷ b'n' ∷ b'f' ∷ b'i' ∷ b'g' ∷ []) (some log_config_v2) none,
          log_config_v2,
        ))
unfolding get_process walk tokens tokens_from find_node text_eq join
found_config = refl

abbrev network_node : Node
network_node = node (b'n' ∷ b'e' ∷ b't' ∷ b'w' ∷ b'o' ∷ b'r' ∷ b'k' ∷ []) (some network) none

get_process-Leads_example :
    (get_process source_tables (some root_table) (some network_node.servicename)
      ≡ some (some (network_node, network)))
    ↔ (Leads source_tables root_table (tokens network_node.servicename) network_node
        × (network_node.process ≡ some network))
get_process-Leads_example =
    get_process-Leads source_tables root_table network_node.servicename network_node network

-- The tables with an empty name behind the others.
abbrev closed_tables : Tables
closed_tables level = network_node ∷ node [] none none ∷ []

closed_tables-ends : (l : TableName) → ends (closed_tables l) ≡ true
unfolding ends text_eq
closed_tables-ends l = refl
