-- ===== src/Registry/Balance.antt =====
-- The permits of the nodes that a session knows, in crates/server-core/src/lib.rs, over its calls.
use quic_kfs.Prelude.{
  ℕ, ◌+◌, ◌*◌, ◌≡◌, refl, Bool, List, [], ◌∷◌, length, arith, ltb, ◌==◌, not, ◌&&◌, ◌||◌,
  Option-cases, Bool-cases, inl, inr,
}
use quic_kfs.Locks.{FileIdentity}
use quic_kfs.Errors.{Result, err, ok}
use quic_kfs.Registry.Tables.{
  Nodes, KnownNode, root_node, max_forget_nodes, max_references, take_first, knows, node_of,
  known_node, change_node, add_reference, unreference, add_path, taken_by_other,
}
use quic_kfs.Registry.Nodes.{
  acquire_session_permit, reserve_global, then_do, reserve_node, track_node_with_permit, track_node,
  insert_node, remember_new, remember_reserved, remember, drop_known, NodeCall, node_call,
  node_calls, remember_path, track, forget, returning, release_node_reference, release_all,
  forget_nodes, two,
}
use quic_kfs.Registry.Permits.{
  session_total, export_total, Keeps, granted, length-take_first, length-change_node, acquire-Keeps,
  reserve_global-Keeps,
}

abbrev requested : ℕ → ℕ → Bool
requested node other = not (other == root_node) && other == node

-- What a step that follows keeps, where it starts with the permits that were granted.
then_do-Keeps :
    {R : Type 0} (w : ℕ) (s : Nodes) (r : Nodes × Result (Unit {0})) (f : Nodes → Nodes × Result R)
    → Keeps 0 0 s (granted r.1) (w * granted r.1) r.0
    → ((t : Nodes) → Keeps 1 w t 0 0 (f t).0)
    → Keeps 0 0 s 0 0 (then_do r f).0
unfolding then_do
then_do-Keeps w s (t, err e) f h next = (h.0, omega (arith, h.1))
then_do-Keeps w s (t, ok _) f h next =
    (omega (arith, h.0, (next t).0), omega (arith, h.1, (next t).1))

then_also-Keeps :
    (s : Nodes) (r : Nodes × Result (Unit {0})) (f : Nodes → Nodes × Result (Unit {0}))
    → Keeps 0 0 s 0 0 r.0
    → ((t : Nodes) → Keeps 0 0 t 0 0 (f t).0)
    → Keeps 0 0 s 0 0 (then_do r f).0
unfolding then_do
then_also-Keeps s (t, err e) f h next = h
then_also-Keeps s (t, ok _) f h next =
    (omega (arith, h.0, (next t).0), omega (arith, h.1, (next t).1))

returning-Keeps :
    (s : Nodes) (k g j h : ℕ) (node : ℕ) (r : Nodes × Result (Unit {0}))
    → Keeps k g s j h r.0
    → Keeps k g s j h (returning node r).0
unfolding then_do
returning-Keeps s k g j h node (t, err e) p = p
returning-Keeps s k g j h node (t, ok _) p = p

then_reserve-Keeps :
    (s : Nodes) (r : Nodes × Result (Unit {0}))
    → Keeps 0 0 s (granted r.1) 0 r.0
    → let q = then_do r reserve_global in Keeps 0 0 s (granted q.1) (granted q.1) q.0
unfolding then_do
then_reserve-Keeps s (t, err e) h = h
then_reserve-Keeps s (t, ok _) h =
    let k = reserve_global-Keeps t in (omega (arith, h.0, k.0), omega (arith, h.1, k.1))

reserve-Keeps : (s : Nodes) → let r = reserve_node s in Keeps 0 0 s (granted r.1) (granted r.1) r.0
unfolding reserve_node
reserve-Keeps s = then_reserve-Keeps s (acquire_session_permit two s) (acquire-Keeps two s)

track_with_permit-Keeps : (node : ℕ) (s : Nodes) → Keeps 1 0 s 0 0 (track_node_with_permit node s).0
unfolding track_node_with_permit
track_with_permit-Keeps node s = elim (Bool-cases (knows node s.known_nodes)) [
  | inl e ↦ rw e (omega arith, refl)
  | inr e ↦ elim (Option-cases (known_node node s.by_node)) [
    | inl d ↦ rw (e, d) (omega arith, refl)
    | inr (known, d) ↦ elim (Bool-cases (ltb known.session_references max_references)) [
      | inl c ↦
          rw (e, d, c)
            (omega arith, ground (arith, length-change_node node add_reference s.by_node))
      | inr c ↦ rw (e, d, c) (omega arith, refl)
    ]
  ]
]

track-Keeps : (node : ℕ) (s : Nodes) → Keeps 0 0 s 0 0 (track_node node s).0
unfolding track_node
track-Keeps node s = elim (Bool-cases (knows node s.known_nodes)) [
  | inl e ↦ rw e (refl, refl)
  | inr e ↦
      let k = acquire-Keeps two s in
      rw e (
        then_do-Keeps 0 s (acquire_session_permit two s) (track_node_with_permit node)
          (k.0, omega (arith, k.1)) (track_with_permit-Keeps node))
]

insert-Keeps :
    (node : ℕ) (known : KnownNode) (s : Nodes) → Keeps 0 1 s 0 0 (insert_node node known s)
unfolding insert_node
insert-Keeps node known s = elim (Option-cases (take_first (λ e. e.0 == node) s.by_node)) [
  | inl e ↦ rw (insert_node, e) (refl, omega arith)
  | inr ((old, others), e) ↦
      let n = length-take_first (λ e. e.0 == node) s.by_node old others e in
      rw (insert_node, e) (refl, omega (arith, n))
]

module _ (stable_node_id : FileIdentity → ℕ) where
  remember_new-Keeps :
      (identity : FileIdentity) (path : ℕ) (s : Nodes)
      → Keeps 1 1 s 0 0 (remember_new stable_node_id identity path s).0
  unfolding remember_new
  remember_new-Keeps identity path s =
      let node = stable_node_id identity in
      let new : KnownNode = record {
        identity = identity;
        paths = path ∷ [];
        session_references = 0;
      } in
      let s' = record s { by_identity = (identity, node) ∷ s.by_identity } in
      let t = insert_node node new s' in
      let n = insert-Keeps node new s' in
      let k = track_with_permit-Keeps node t in
      elim (Bool-cases (node == root_node || taken_by_other identity (known_node node s.by_node))) [
        | inl e ↦ rw e (omega arith, omega arith)
        | inr e ↦ rw e (
            returning-Keeps s 1 1 0 0 node (track_node_with_permit node t)
              (omega (arith, k.0, n.0), omega (arith, k.1, n.1)))
      ]

  remember_reserved-Keeps :
      (identity : FileIdentity) (path : ℕ) (s : Nodes)
      → Keeps 1 1 s 0 0 (remember_reserved stable_node_id identity path s).0
  unfolding remember_reserved
  remember_reserved-Keeps identity path s = elim (Option-cases (node_of identity s.by_identity)) [
    | inl e ↦ rw (remember_reserved, e) (remember_new-Keeps identity path s)
    | inr (node, e) ↦
        let t = record s {
          by_node = change_node node (add_path path) s.by_node;
          global_permits = s.global_permits + 1;
        } in
        let n = length-change_node node (add_path path) s.by_node in
        let k = track_with_permit-Keeps node t in
        rw (remember_reserved, e)
          (returning-Keeps s 1 1 0 0 node (track_node_with_permit node t)
            (k.0, omega (arith, k.1, n)))
  ]

  remember-Keeps :
      (identity : FileIdentity) (path : ℕ) (s : Nodes)
      → Keeps 0 0 s 0 0 (remember stable_node_id identity path s).0
  unfolding remember
  remember-Keeps identity path s = elim (Option-cases (node_of identity s.by_identity)) [
    | inl e ↦
        let k = reserve-Keeps s in
        rw (remember, e)
          (then_do-Keeps 1 s (reserve_node s) (remember_reserved stable_node_id identity path)
            (k.0, omega (arith, k.1)) (remember_reserved-Keeps identity path))
    | inr (node, e) ↦
        let t = record s { by_node = change_node node (add_path path) s.by_node } in
        let n = length-change_node node (add_path path) s.by_node in
        let k = track-Keeps node t in
        rw (remember, e)
          (returning-Keeps s 0 0 0 0 node (track_node node t) (k.0, omega (arith, k.1, n)))
  ]

drop-Keeps : (nodes : List ℕ) (s : Nodes) → Keeps 0 0 s 0 0 (drop_known nodes s).0
unfolding drop_known
drop-Keeps [] s = (refl, refl)
drop-Keeps (node ∷ nodes) s = elim (Option-cases (take_first (requested node) s.known_nodes)) [
  | inl e ↦ rw (drop_known, e) (drop-Keeps nodes s)
  | inr ((other, others), e) ↦
      let t = record s { known_nodes = others; node_permits = s.node_permits + 1 } in
      let k = drop-Keeps nodes t in
      let n = length-take_first (requested node) s.known_nodes other others e in
      rw (drop_known, e) (omega (arith, k.0, n), k.1)
]

release-Keeps : (node : ℕ) (s : Nodes) → Keeps 0 0 s 0 0 (release_node_reference node s).0
unfolding release_node_reference
release-Keeps node s = elim (Bool-cases (node == root_node)) [
  | inl e ↦ rw e (refl, refl)
  | inr e ↦ elim (Option-cases (known_node node s.by_node)) [
    | inl d ↦ rw (e, d) (refl, refl)
    | inr (known, d) ↦ elim (Bool-cases (ltb 0 known.session_references)) [
      | inl c ↦ rw (e, d, c) (refl, ground (arith, length-change_node node unreference s.by_node))
      | inr c ↦ rw (e, d, c) (refl, refl)
    ]
  ]
]

release_all-Keeps : (nodes : List ℕ) (s : Nodes) → Keeps 0 0 s 0 0 (release_all nodes s).0
unfolding release_all
release_all-Keeps [] s = (refl, refl)
release_all-Keeps (node ∷ nodes) s =
    then_also-Keeps s (release_node_reference node s) (release_all nodes) (release-Keeps node s)
      (release_all-Keeps nodes)

forget-Keeps : (nodes : List ℕ) (s : Nodes) → Keeps 0 0 s 0 0 (forget_nodes nodes s).0
unfolding forget_nodes
forget-Keeps nodes s =
    let d = drop_known nodes s in
    let h = drop-Keeps nodes s in
    let k = release_all-Keeps d.1 d.0 in
    elim (Bool-cases (ltb max_forget_nodes (length nodes))) [
      | inl e ↦ rw e (refl, refl)
      | inr e ↦ rw e (omega (arith, h.0, k.0), omega (arith, h.1, k.1))
    ]

-- The nodes that a session knows and its free permits are as many as it may know, and so for the
-- nodes of the export.
abbrev pub IsBalanced : ℕ → ℕ → Nodes → Type 0
IsBalanced session_nodes export_nodes s =
    (session_total s ≡ session_nodes) × (export_total s ≡ export_nodes)

module _ (stable_node_id : FileIdentity → ℕ) where
  node_call-Keeps : (c : NodeCall) (s : Nodes) → Keeps 0 0 s 0 0 (node_call stable_node_id c s)
  unfolding node_call
  node_call-Keeps (remember_path identity path) s = remember-Keeps stable_node_id identity path s
  node_call-Keeps (track node) s = track-Keeps node s
  node_call-Keeps (forget nodes) s = forget-Keeps nodes s

  -- Where the nodes and the free permits of a session, and those of the export, add up to given
  -- numbers, they add up to the same numbers after any calls of the session that remember, track and
  -- forget nodes, whatever these return: no permit is lost and none is made.
  pub node_calls-IsBalanced :
      (session_nodes export_nodes : ℕ) (calls : List NodeCall) (s : Nodes)
      → IsBalanced session_nodes export_nodes s
      → IsBalanced session_nodes export_nodes (node_calls stable_node_id calls s)
  unfolding node_calls
  node_calls-IsBalanced m n [] s h = h
  node_calls-IsBalanced m n (c ∷ cs) s h =
      let k = node_call-Keeps c s in
      node_calls-IsBalanced m n cs (node_call stable_node_id c s)
        (omega (arith, k.0, h.0), omega (arith, k.1, h.1))
