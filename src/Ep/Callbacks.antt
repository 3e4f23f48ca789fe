-- ===== src/Ep/Callbacks.antt =====
-- The callbacks of src/iree_ep.cc that do one thing: `GetNameImpl`, `GetCapabilityImpl`,
-- `ReleaseNodeComputeInfosImpl` with the destructor of `IreeNodeComputeInfo`, `CreateStateImpl` and
-- `ReleaseStateImpl`.
use onnxruntime_ep_iree.Common.{ℕ, Bool, true, List, [], ◌∷◌, Option, none, some, Text}
use onnxruntime_ep_iree.Wrappers.{Status}
use onnxruntime_ep_iree.MlirGen.Graph.{Graph, Node}
use onnxruntime_ep_iree.Factory.CreateEp.{IreeEp}

unfoldable pub get_name : IreeEp → Text
get_name ep = ep.name

-- The nodes of a call of `EpGraphSupportInfo_AddNodesToFuse`, and its option.
pub record Fusion : Type 0 where
  pub nodes : List Node
  pub drop_constant_initializers : Bool

-- `add_nodes_to_fuse` is the status of that call. With the status comes the call, if there is one.
unfoldable pub get_capability :
    (Fusion → Option Status) → IreeEp → Graph → Option Status × Option Fusion
get_capability add_nodes_to_fuse ep graph =
    let fusion : Fusion = record { nodes = graph.nodes; drop_constant_initializers = true } in
    elim graph.nodes [ [] ↦ (none, none) | node ∷ nodes ↦ (add_nodes_to_fuse fusion, some fusion) ]

-- A compute info is its session, which its destructor resets. The result has the sessions that were
-- released before and by this call, latest first.
unfoldable pub release_node_compute_infos : List (Option ℕ) → List ℕ → List ℕ
release_node_compute_infos [] released = released
release_node_compute_infos (none ∷ infos) released = release_node_compute_infos infos released
release_node_compute_infos (some session ∷ infos) released =
    release_node_compute_infos infos (session ∷ released)

-- The state of a computation, and the status.
unfoldable pub create_state : Option Status × Option ℕ
create_state = (none, none)
