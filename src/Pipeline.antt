-- ===== src/Pipeline.antt =====
-- unikvs/src/_pipeline-graph.types.ts: the pipeline that turns the destinations' chains of
-- middlewares into one rooted tree. A middleware and a storage are objects of their own; of them
-- the tree reads the identity of a middleware and the two names.
--
-- A node of the source is known by its identity. Since siblings never share a middleware, the row of middlewares from the root names it, and `path` holds that row
-- in place of the row of nodes.
pub mod Levels
pub mod Compile
pub mod Sorted
pub mod Order
pub mod Full
pub mod Registered
pub mod Distinct
pub mod Contract
pub mod Decode
pub mod LeafResolver
pub mod Encode
pub mod Plain
pub mod Placed
pub mod Gathered
pub mod Delivery
mod Tests
use unikvs.Prelude.{ℕ, Bool, String, Option, List}

-- What the graph reads of the plugins.
pub record Plugins : Type 1 where
  pub Middleware : Type 0
  pub Storage : Type 0
  pub middleware_name : Middleware → String
  pub storage_name : Storage → String

-- `PipelineDestination`
pub record Destination (p : Plugins) : Type 0 where
  pub storage : p.Storage
  pub middlewares : List p.Middleware

-- `PipelineLeaf`; `nameNames` is the list of its name.
pub record Leaf (p : Plugins) : Type 0 where
  pub storage : p.Storage
  pub index : ℕ
  pub name : String
  pub can_repair : Bool
  pub path : List p.Middleware

-- `MutableNode`: a middleware with its level, the leaves and the child nodes below it. The root is a
-- level without a middleware.
mutual
  pub data Level (p : Plugins) : Type 0 where
    level : List (Leaf p) → Children p → Level p

  pub data Children (p : Plugins) : Type 0 where
    childless : Children p
    child : p.Middleware → Level p → Children p → Children p

-- `PipelineEntry`, and the row of the entries of a node in registration order.
mutual
  pub data Entry (p : Plugins) : Type 0 where
    leaf_entry : Leaf p → Entry p
    node_entry : p.Middleware → Entries p → Entry p

  pub data Entries (p : Plugins) : Type 0 where
    no_entries : Entries p
    entry : Entry p → Entries p → Entries p
