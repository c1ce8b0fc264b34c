-- ===== src/Registry/Permits.antt =====
-- The permits that the calls of a session take in crates/server-core/src/lib.rs.
use quic_kfs.Prelude.{
  ℕ, zero, suc, ◌+◌, ◌≡◌, refl, sym, ◌∙◌, ◌-◌, Bool, true, some, List, [], ◌∷◌, length, arith, ltb,
  ◌==◌, not, ◌&&◌, Option-cases, Bool-cases, inl, inr,
}
use quic_kfs.Errors.{Result, err, ok}
use quic_kfs.Registry.Tables.{
  Nodes, KnownNode, root_node, take_first, knows, change_node, unreference,
}
use quic_kfs.Registry.Nodes.{
  evict_unreferenced_session_node, evict_unreferenced_global_node, acquire_session_permit,
  take_global_permit, reserve_global, two,
}

abbrev pub session_total : Nodes → ℕ
session_total s = s.node_permits + length s.known_nodes

abbrev pub export_total : Nodes → ℕ
export_total s = s.global_permits + length s.by_node

-- With k of the session's permits and g of the export's in hand at first, and j and h at last.
abbrev pub Keeps : ℕ → ℕ → Nodes → ℕ → ℕ → Nodes → Type 0
Keeps k g s j h t =
    (j + session_total t ≡ k + session_total s) × (h + export_total t ≡ g + export_total s)

abbrev pub granted : {R : Type 0} → Result R → ℕ
granted (ok _) = 1
granted (err _) = 0

pub length-take_first :
    {A : Type 0} (p : A → Bool) (xs : List A) (x : A) (rest : List A)
    → take_first p xs ≡ some (x, rest)
    → length xs ≡ suc (length rest)
unfolding take_first
length-take_first p [] x rest h = ground arith
length-take_first p (y ∷ ys) x rest h = elim (Option-cases (take_first p ys)) [
  | inl e ↦ ground (arith, h, e)
  | inr ((z, zs), e) ↦ ground (arith, h, e, length-take_first p ys z zs e)
]

pub length-change_node :
    (node : ℕ) (f : KnownNode → KnownNode) (l : List (ℕ × KnownNode))
    → length (change_node node f l) ≡ length l
unfolding change_node
length-change_node node f [] = refl
length-change_node node f ((other, known) ∷ rest) = ground (arith, length-change_node node f rest)

abbrev unpinned : Nodes → ℕ → Bool
unpinned s node = not (node == root_node) && not (knows node s.pinned)

abbrev unreferenced : ℕ × KnownNode → Bool
unreferenced e = not (e.0 == root_node) && e.1.session_references == 0

evict_session-Keeps : (s : Nodes) → Keeps 0 0 s 0 0 (evict_unreferenced_session_node s).0
unfolding evict_unreferenced_session_node
evict_session-Keeps s = elim (Option-cases (take_first (unpinned s) s.known_nodes)) [
  | inl e ↦ rw (evict_unreferenced_session_node, e) (refl, refl)
  | inr ((node, others), e) ↦
      let n = length-take_first (unpinned s) s.known_nodes node others e in
      let m = length-change_node node unreference s.by_node in
      rw (evict_unreferenced_session_node, e) (omega (arith, n), omega (arith, m))
]

evict_global-Keeps : (s : Nodes) → Keeps 0 0 s 0 0 (evict_unreferenced_global_node s).0
unfolding evict_unreferenced_global_node
evict_global-Keeps s = elim (Option-cases (take_first unreferenced s.by_node)) [
  | inl e ↦ rw (evict_unreferenced_global_node, e) (refl, refl)
  | inr ((entry, others), e) ↦
      let n = length-take_first unreferenced s.by_node entry others e in
      rw (evict_unreferenced_global_node, e) (omega arith, omega (arith, n))
]

pub acquire-Keeps :
    (turns : ℕ) (s : Nodes)
    → let r = acquire_session_permit turns s in Keeps 0 0 s (granted r.1) 0 r.0
unfolding acquire_session_permit
acquire-Keeps zero s = (refl, refl)
acquire-Keeps (suc turns) s =
    let evicted = evict_unreferenced_session_node s in
    let k = evict_session-Keeps s in
    let again = acquire-Keeps turns evicted.0 in
    elim (Bool-cases (ltb 0 s.node_permits)) [
      | inl e ↦ rw e (ground (arith, e), refl)
      | inr e ↦ elim (Bool-cases evicted.1) [
        | inl d ↦ rw (e, d) (omega (arith, k.0, again.0), omega (arith, k.1, again.1))
        | inr d ↦ rw (e, d) k
      ]
    ]

take_global-Keeps :
    (s : Nodes) → let r = take_global_permit s in Keeps 1 0 s (granted r.1) (granted r.1) r.0
unfolding take_global_permit
take_global-Keeps s = elim (Bool-cases (ltb 0 s.global_permits)) [
  | inl e ↦ rw e (omega arith, ground (arith, e))
  | inr e ↦ rw e (omega arith, refl)
]

pub reserve_global-Keeps :
    (s : Nodes) → let r = reserve_global s in Keeps 1 0 s (granted r.1) (granted r.1) r.0
unfolding reserve_global
reserve_global-Keeps s =
    let evicted = evict_unreferenced_global_node s in
    let k = evict_global-Keeps s in
    let t = take_global-Keeps evicted.0 in
    elim (Bool-cases (ltb 0 s.global_permits)) [
      | inl e ↦ rw e (take_global-Keeps s)
      | inr e ↦ elim (Bool-cases evicted.1) [
        | inl d ↦ rw (e, d) (omega (arith, k.0, t.0), omega (arith, k.1, t.1))
        | inr d ↦ rw (e, d) (omega (arith, k.0), k.1)
      ]
    ]

evict_session-frees :
    (s : Nodes)
    → let r = evict_unreferenced_session_node s in r.1 ≡ true → ltb 0 r.0.node_permits ≡ true
unfolding evict_unreferenced_session_node
evict_session-frees s h = elim (Option-cases (take_first (unpinned s) s.known_nodes)) [
  | inl e ↦ ground (arith, h, e)
  | inr (_, e) ↦ rw (evict_unreferenced_session_node, e) (ground arith)
]

acquire-free :
    (n : ℕ) (s : Nodes)
    → ltb 0 s.node_permits ≡ true
    → acquire_session_permit (suc n) s ≡ (record s { node_permits = s.node_permits - 1 }, ok tt)
unfolding acquire_session_permit
acquire-free n s h = rw h refl

-- An eviction frees the permit that the second turn takes: more turns change nothing.
pub acquire_session_permit-two :
    (n : ℕ) (s : Nodes) → acquire_session_permit (suc (suc n)) s ≡ acquire_session_permit two s
unfolding acquire_session_permit
acquire_session_permit-two n s =
    let evicted = evict_unreferenced_session_node s in
    elim (Bool-cases (ltb 0 s.node_permits)) [
      | inl e ↦ rw e refl
      | inr e ↦ elim (Bool-cases evicted.1) [
        | inl d ↦
            let free = evict_session-frees s d in
            rw (e, d) (acquire-free n evicted.0 free ∙ sym (acquire-free 0 evicted.0 free))
        | inr d ↦ rw (e, d) refl
      ]
    ]
