-- ===== src/Collections.antt =====
-- The standard library's containers that the code keeps its state in.
pub mod BTreeMap
