-- ===== src/NodeTree/Service.antt =====
-- What `getProcess` answers for a path.
use embedded_linux_iot_gatew.Prelude.{
  Text, text_eq, ◌≡◌, refl, ◌↔◌, true, false, Option, none, some, List, [], ◌∷◌, arith, ◌≤◌, length,
}
use embedded_linux_iot_gatew.NodeTree.{
  Process, TableName, root_table, log_mgr_table, system_table, log_config_table, Node, Tables,
  source_tables, tokens, find_node, walk, get_process,
}
use embedded_linux_iot_gatew.NodeTree.Path.{join, AreNames, tokens-join}
use embedded_linux_iot_gatew.NodeTree.Lookup.{Leads, ends, has_name, walk-Leads, walk_total}

-- `getProcess` returns a process exactly if the path's tokens lead, level by level through the first
-- node of each name, to a node with that process, which it hands over too.
pub get_process-Leads :
    (tables : Tables) (level : TableName) (path : Text) (n : Node) (p : Process)
    → (get_process tables (some level) (some path) ≡ some (some (n, p)))
      ↔ (Leads tables level (tokens path) n × (n.process ≡ some p))
unfolding get_process
get_process-Leads tables level path n p = walk-Leads tables n p level (tokens path)

-- A path joined from names leads where the names lead.
pub get_process-join :
    (tables : Tables) (level : TableName) (ns : List Text) (n : Node) (p : Process)
    → AreNames ns
    → length (join ns) ≤ 127
    → (get_process tables (some level) (some (join ns)) ≡ some (some (n, p)))
      ↔ (Leads tables level ns n × (n.process ≡ some p))
unfolding get_process
get_process-join tables level ns n p names short =
    rw (tokens-join ns names short) (walk-Leads tables n p level ns)

-- With an empty name in every table, `getProcess` reads no table behind its end, whatever the path.
pub get_process_inside :
    (tables : Tables) (level : Option TableName) (path : Option Text)
    → ((l : TableName) → ends (tables l) ≡ true)
    → (r : Option (Node × Process)) × (get_process tables level path ≡ some r)
unfolding get_process
get_process_inside tables none path closed = (none, refl)
get_process_inside tables (some level) none closed = (none, refl)
get_process_inside tables (some level) (some path) closed =
    walk_total tables (some level) (tokens path) closed

find_node-unknown :
    (ns : List Node) (token : Text)
    → ends ns ≡ false
    → has_name token ns ≡ false
    → find_node ns token ≡ none
unfolding find_node ends has_name
find_node-unknown [] token open_end unknown = refl
find_node-unknown (n ∷ ns) token open_end unknown =
    let full : text_eq n.servicename [] ≡ false = ground arith in
    let other : text_eq n.servicename token ≡ false = ground arith in
    rw (full, other) (find_node-unknown ns token (ground arith) (ground arith))

source_tables-ends : (l : TableName) → ends (source_tables l) ≡ false
unfolding ends text_eq
source_tables-ends root_table = refl
source_tables-ends log_mgr_table = refl
source_tables-ends system_table = refl
source_tables-ends log_config_table = refl

-- No table of the source has an empty name: from any of them on, a path whose first token is none of
-- the table's names makes `getProcess` read behind the end of the table.
pub unknown_name_overruns :
    (level : TableName) (path token : Text) (ts : List Text)
    → tokens path ≡ token ∷ ts
    → has_name token (source_tables level) ≡ false
    → get_process source_tables (some level) (some path) ≡ none
unfolding get_process walk
unknown_name_overruns level path token ts e unknown =
    rw (e, find_node-unknown (source_tables level) token (source_tables-ends level) unknown, walk)
      refl
