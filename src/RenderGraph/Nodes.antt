-- ===== src/RenderGraph/Nodes.antt =====
-- The nodes of a recorded graph, PassNode and ResourceNode of RenderGraph_internal.h. A list stands
-- for each intrusive list, in its order. What compile() computes about a node (its dependencies, its
-- place in the order, its lifetime) is kept apart, by pass index and by resource id.
use alpenite.Prelude.{ℕ, Bool, List}
use alpenite.RenderGraph.Access.{ResourceHandle, ResourceAccess}

pub data PassKind : Type 0 where
  no_kind graphics compute transfer : PassKind

pub record InitTarget : Type 0 where
  pub target : ResourceHandle
  pub hash : ℕ

pub record PassNode : Type 0 where
  pub kind : PassKind
  pub index : ℕ
  pub accesses : List ResourceAccess
  pub init_targets : List InitTarget
  pub force_keep : Bool
  pub skip_init : Bool

pub data TextureDimension : Type 0 where
  dim_undefined dim_1d dim_2d dim_3d : TextureDimension
