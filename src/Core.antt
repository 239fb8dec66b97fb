-- ===== src/Core.antt =====
-- primus-core: the node.
pub mod Crystal
pub mod Framing
pub mod State
pub mod Run
pub mod Atom
pub mod Gravity
pub mod Chamber
pub mod Storage
pub mod Engine
pub mod Mining
pub mod Ingress
pub mod Processor
