-- ===== src/Registry/Tables.antt =====
-- NodeRegistry of crates/server-core/src/lib.rs with what a session knows of it. A map is the list of
-- its entries in the order in which it is walked; its keys are unique, so that the entry that is found
-- is the one that is removed. A path is a number.
use quic_kfs.Prelude.{
  ℕ, ◌+◌, ◌-◌, Bool, false, not, Option, none, some, List, [], ◌∷◌, ◌==◌, if◌then◌else◌, any,
}
use quic_kfs.Locks.{FileIdentity, identity_eq}

pub record KnownNode : Type 0 where
  pub identity : FileIdentity
  pub paths : List ℕ
  pub session_references : ℕ

-- The registry of an export with its free permits, and what a session knows with the permits that
-- it has left and the nodes of its open handles.
pub record Nodes : Type 0 where
  pub by_node : List (ℕ × KnownNode)
  pub by_identity : List (FileIdentity × ℕ)
  pub global_permits : ℕ
  pub known_nodes : List ℕ
  pub node_permits : ℕ
  pub pinned : List ℕ

abbrev pub root_node : ℕ
root_node = 0

abbrev pub max_forget_nodes : ℕ
max_forget_nodes = 65536

-- usize::MAX
abbrev pub max_references : ℕ
max_references = 18446744073709551615

-- The first entry that passes a test, and the others.
unfoldable pub take_first : {A : Type 0} → (A → Bool) → List A → Option (A × List A)
take_first p [] = none
take_first p (x ∷ xs) =
    let rest = take_first p xs in
    if p x then some (x, xs) else elim rest [ none ↦ none | some (y, ys) ↦ some (y, x ∷ ys) ]

abbrev pub knows : ℕ → List ℕ → Bool
knows node nodes = any (λ other. other == node) nodes

unfoldable pub node_of : FileIdentity → List (FileIdentity × ℕ) → Option ℕ
node_of identity [] = none
node_of identity ((other, node) ∷ rest) =
    if identity_eq other identity then some node else node_of identity rest

unfoldable pub known_node : ℕ → List (ℕ × KnownNode) → Option KnownNode
known_node node [] = none
known_node node ((other, known) ∷ rest) = if other == node then some known else known_node node rest

unfoldable pub change_node :
    ℕ → (KnownNode → KnownNode) → List (ℕ × KnownNode) → List (ℕ × KnownNode)
change_node node f [] = []
change_node node f ((other, known) ∷ rest) =
    let others = change_node node f rest in
    if other == node then (other, f known) ∷ others else (other, known) ∷ others

unfoldable pub forget_identity : FileIdentity → List (FileIdentity × ℕ) → List (FileIdentity × ℕ)
forget_identity identity [] = []
forget_identity identity ((other, node) ∷ rest) =
    let others = forget_identity identity rest in
    if identity_eq other identity then others else (other, node) ∷ others

abbrev pub add_reference : KnownNode → KnownNode
add_reference known = record known { session_references = known.session_references + 1 }

abbrev pub unreference : KnownNode → KnownNode
unreference known = record known { session_references = known.session_references - 1 }

abbrev pub add_path : ℕ → KnownNode → KnownNode
add_path path known = record known {
  paths = if knows path known.paths then known.paths else path ∷ known.paths;
}

-- Whether another file has the node's number.
unfoldable pub taken_by_other : FileIdentity → Option KnownNode → Bool
taken_by_other identity none = false
taken_by_other identity (some known) = not (identity_eq known.identity identity)
