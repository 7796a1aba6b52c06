-- ===== src/DataModel.antt =====
-- src/core: the registered nodes and paths of the data model, its object instances, and the
-- transactions that change them.
pub mod Instances
pub mod Paths
pub mod Registry
pub mod Access
pub mod Objects
pub mod Trans
