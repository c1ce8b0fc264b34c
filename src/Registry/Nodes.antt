-- ===== src/Registry/Nodes.antt =====
-- reserve_node, acquire_session_permit, the evictions, remember, track_node and forget_nodes of
-- crates/server-core/src/lib.rs, for one session; `stable_node_id` is a parameter.
use quic_kfs.Prelude.{
  ℕ, zero, suc, ◌+◌, ◌-◌, Bool, true, false, not, ◌&&◌, ◌||◌, none, some, List, [], ◌∷◌, ltb, ◌==◌,
  if◌then◌else◌, length,
}
use quic_kfs.Locks.{FileIdentity}
use quic_kfs.Errors.{
  too_many_nodes, state_unavailable, invalid_node, invalid_request, Result, err, ok,
}
use quic_kfs.Registry.Tables.{
  Nodes, KnownNode, root_node, max_forget_nodes, max_references, take_first, knows, node_of,
  known_node, change_node, forget_identity, add_reference, unreference, add_path, taken_by_other,
}

-- The session's permit of the node goes back with its entry.
unfoldable pub evict_unreferenced_session_node : Nodes → Nodes × Bool
evict_unreferenced_session_node s =
    elim (take_first (λ node. not (node == root_node) && not (knows node s.pinned)) s.known_nodes) [
      | none ↦ (s, false)
      | some (node, others) ↦ (
        record s {
          known_nodes = others;
          node_permits = s.node_permits + 1;
          by_node = change_node node unreference s.by_node;
        },
        true,
      )
    ]

-- The export's permit of the node goes back with its entry.
unfoldable pub evict_unreferenced_global_node : Nodes → Nodes × Bool
evict_unreferenced_global_node s =
    elim (take_first (λ e. not (e.0 == root_node) && e.1.session_references == 0) s.by_node) [
      | none ↦ (s, false)
      | some (entry, others) ↦ (
        record s {
          by_node = others;
          by_identity = forget_identity entry.1.identity s.by_identity;
          global_permits = s.global_permits + 1;
        },
        true,
      )
    ]

-- The loop, in turns: an eviction gives the next turn its permit.
unfoldable pub acquire_session_permit : ℕ → Nodes → Nodes × Result (Unit {0})
acquire_session_permit zero s = (s, err too_many_nodes)
acquire_session_permit (suc turns) s =
    let evicted = evict_unreferenced_session_node s in
    let again = acquire_session_permit turns evicted.0 in
    if ltb 0 s.node_permits
    then (record s { node_permits = s.node_permits - 1 }, ok tt)
    else if evicted.1
    then again
    else (evicted.0, err too_many_nodes)

unfoldable pub take_global_permit : Nodes → Nodes × Result (Unit {0})
take_global_permit s =
    if ltb 0 s.global_permits
    then (record s { global_permits = s.global_permits - 1 }, ok tt)
    else (record s { node_permits = s.node_permits + 1 }, err too_many_nodes)

-- What follows the session's permit, which goes back on an error.
unfoldable pub reserve_global : Nodes → Nodes × Result (Unit {0})
reserve_global s =
    let evicted = evict_unreferenced_global_node s in
    if ltb 0 s.global_permits
    then take_global_permit s
    else if evicted.1
    then take_global_permit evicted.0
    else (record evicted.0 { node_permits = evicted.0.node_permits + 1 }, err too_many_nodes)

abbrev pub two : ℕ
two = 2

unfoldable pub then_do :
    {R : Type 0} → Nodes × Result (Unit {0}) → (Nodes → Nodes × Result R) → Nodes × Result R
then_do (s, err e) rest = (s, err e)
then_do (s, ok _) rest = rest s

abbrev pub returning : ℕ → Nodes × Result (Unit {0}) → Nodes × Result ℕ
returning node r = then_do r (λ s. (s, ok node))

unfoldable pub reserve_node : Nodes → Nodes × Result (Unit {0})
reserve_node s = then_do (acquire_session_permit two s) reserve_global

-- The session's permit is taken already: it is kept with the entry, or goes back.
unfoldable pub track_node_with_permit : ℕ → Nodes → Nodes × Result (Unit {0})
track_node_with_permit node s =
    let back = record s { node_permits = s.node_permits + 1 } in
    if knows node s.known_nodes then (back, ok tt) else elim (known_node node s.by_node) [
      | none ↦ (back, err invalid_node)
      | some known ↦
          if ltb known.session_references max_references
          then (
            record s {
              by_node = change_node node add_reference s.by_node;
              known_nodes = node ∷ s.known_nodes;
            },
            ok tt,
          )
          else (back, err state_unavailable)
    ]

unfoldable pub track_node : ℕ → Nodes → Nodes × Result (Unit {0})
track_node node s =
    if knows node s.known_nodes
    then (s, ok tt)
    else then_do (acquire_session_permit two s) (track_node_with_permit node)

-- HashMap::insert: an entry that is replaced gives its permit back.
unfoldable pub insert_node : ℕ → KnownNode → Nodes → Nodes
insert_node node known s = elim (take_first (λ e. e.0 == node) s.by_node) [
  | none ↦ record s { by_node = (node, known) ∷ s.by_node }
  | some (old, others) ↦ record s {
    by_node = (node, known) ∷ others;
    global_permits = s.global_permits + 1;
  }
]

module _ (stable_node_id : FileIdentity → ℕ) where
  -- A node that is not in the registry. Both permits are taken already.
  unfoldable pub remember_new : FileIdentity → ℕ → Nodes → Nodes × Result ℕ
  remember_new identity path s =
      let node = stable_node_id identity in
      if node == root_node || taken_by_other identity (known_node node s.by_node)
      then (
        record s { node_permits = s.node_permits + 1; global_permits = s.global_permits + 1 },
        err state_unavailable,
      )
      else returning node (
          track_node_with_permit node (
            insert_node node
              (record { identity = identity; paths = path ∷ []; session_references = 0 })
              (record s { by_identity = (identity, node) ∷ s.by_identity })))

  -- Both permits are taken already.
  unfoldable pub remember_reserved : FileIdentity → ℕ → Nodes → Nodes × Result ℕ
  remember_reserved identity path s = elim (node_of identity s.by_identity) [
    | some node ↦ returning node (
        track_node_with_permit node (record s {
          by_node = change_node node (add_path path) s.by_node;
          global_permits = s.global_permits + 1;
        }))
    | none ↦ remember_new identity path s
  ]

  unfoldable pub remember : FileIdentity → ℕ → Nodes → Nodes × Result ℕ
  remember identity path s = elim (node_of identity s.by_identity) [
    | some node ↦
        returning node
          (track_node node (record s { by_node = change_node node (add_path path) s.by_node }))
    | none ↦ then_do (reserve_node s) (remember_reserved identity path)
  ]

-- The nodes that the session knows among the requested ones are forgotten, with their permits.
unfoldable pub drop_known : List ℕ → Nodes → Nodes × List ℕ
drop_known [] s = (s, [])
drop_known (node ∷ nodes) s =
    elim (take_first (λ other. not (other == root_node) && other == node) s.known_nodes) [
      | none ↦ drop_known nodes s
      | some (_, others) ↦
          let rest =
            drop_known nodes
              (record s { known_nodes = others; node_permits = s.node_permits + 1 }) in
          (rest.0, node ∷ rest.1)
    ]

unfoldable pub release_node_reference : ℕ → Nodes → Nodes × Result (Unit {0})
release_node_reference node s =
    if node == root_node then (s, ok tt) else elim (known_node node s.by_node) [
      | none ↦ (s, ok tt)
      | some known ↦
          if ltb 0 known.session_references
          then (record s { by_node = change_node node unreference s.by_node }, ok tt)
          else (s, err state_unavailable)
    ]

unfoldable pub release_all : List ℕ → Nodes → Nodes × Result (Unit {0})
release_all [] s = (s, ok tt)
release_all (node ∷ nodes) s = then_do (release_node_reference node s) (release_all nodes)

unfoldable pub forget_nodes : List ℕ → Nodes → Nodes × Result (Unit {0})
forget_nodes requested s =
    if ltb max_forget_nodes (length requested)
    then (s, err invalid_request)
    else (let dropped = drop_known requested s in release_all dropped.1 dropped.0)

-- What a session asks of its nodes.
pub data NodeCall : Type 0 where
  remember_path : FileIdentity → ℕ → NodeCall
  track : ℕ → NodeCall
  forget : List ℕ → NodeCall

module _ (stable_node_id : FileIdentity → ℕ) where
  unfoldable pub node_call : NodeCall → Nodes → Nodes
  node_call (remember_path identity path) s = (remember stable_node_id identity path s).0
  node_call (track node) s = (track_node node s).0
  node_call (forget requested) s = (forget_nodes requested s).0

  unfoldable pub node_calls : List NodeCall → Nodes → Nodes
  node_calls [] s = s
  node_calls (c ∷ cs) s = node_calls cs (node_call c s)
