-- ===== src/Examples.antt =====
-- Concrete runs of the definitions, and the properties applied to them.
mod Data
mod Types
mod Gas
mod Vm
mod Contract
mod Trie
mod Core
mod Mempool
mod Chain
mod Crystals
mod Network
mod Sdk
mod Ingress
mod Nodes
