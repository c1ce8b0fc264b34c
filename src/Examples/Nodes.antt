-- ===== src/Examples/Nodes.antt =====
-- The node registry at work: a session that may know two nodes remembers three files.
use quic_kfs.Prelude.{ℕ, ◌≡◌, refl, List, [], ◌∷◌}
use quic_kfs.Locks.{FileIdentity}
use quic_kfs.Registry.Tables.{
  Nodes, root_node, max_references, take_first, node_of, known_node, change_node, forget_identity,
  taken_by_other,
}
use quic_kfs.Registry.Nodes.{
  NodeCall, remember_path, forget, node_calls, node_call, remember, then_do, reserve_node,
  acquire_session_permit, evict_unreferenced_session_node, evict_unreferenced_global_node,
  reserve_global, take_global_permit, remember_reserved, remember_new, insert_node, track_node,
  track_node_with_permit, forget_nodes, drop_known, release_all, release_node_reference,
}
use quic_kfs.Registry.Balance.{IsBalanced, node_calls-IsBalanced}

abbrev file : ℕ → FileIdentity
file n = record { device = 1; inode = n }

abbrev number : FileIdentity → ℕ
number identity = identity.inode

abbrev fresh : Nodes
fresh = record {
  by_node =
      (root_node, record { identity = file 0; paths = 0 ∷ []; session_references = max_references })
      ∷ [];
  by_identity = (file 0, root_node) ∷ [];
  global_permits = 2;
  known_nodes = root_node ∷ [];
  node_permits = 1;
  pinned = [];
}

abbrev three_files : List NodeCall
three_files =
    remember_path (file 7) 1
    ∷ remember_path (file 8) 2
    ∷ forget (8 ∷ 8 ∷ [])
    ∷ remember_path (file 9) 3
    ∷ []

three_files_lem : (node_calls number three_files fresh).known_nodes ≡ 9 ∷ root_node ∷ []
unfolding node_calls node_call remember then_do reserve_node acquire_session_permit
    evict_unreferenced_session_node evict_unreferenced_global_node reserve_global take_global_permit
    remember_reserved remember_new insert_node track_node track_node_with_permit forget_nodes
    drop_known release_all release_node_reference take_first node_of known_node change_node
    forget_identity taken_by_other
three_files_lem = refl

node_calls-IsBalanced_example : IsBalanced 2 3 (node_calls number three_files fresh)
node_calls-IsBalanced_example = node_calls-IsBalanced number 2 3 three_files fresh (refl, refl)
