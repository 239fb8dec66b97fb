-- ===== src/Storage.antt =====
-- primus-storage: the write set of a crystal, undo logs, the trie and the mempool.
pub mod Changeset
pub mod Mpt
pub mod Mempool
