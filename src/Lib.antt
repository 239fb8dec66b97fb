-- ===== src/Lib.antt =====
-- Obsidian Nexus: a chain whose accounts are atoms with a mass and whose transactions are signed
-- reactions, gathered into crystals.
--
-- A node takes reactions from the network (primus-net-opt), holds them in a mempool
-- (primus-storage), executes them against the atoms (primus-vm), and keeps the atoms in a
-- Merkle-Patricia trie (primus-storage) whose root a crystal commits to (primus-core). The types
-- that all of these share are in primus-types. Execution reads the state through `StateView` and
-- writes a `Changeset`; contract calls run in a WASM engine, which reads the state through host
-- functions and asks for transfers, and the dispatcher applies these to the changeset.
--
-- Files, and the code that each models:
--   Types/Atom, Payload, Reaction, Physics, Proof, Galactic, Constants: primus-types/src, the
--     structs as records, the enums as data types, each method as a function of the same name.
--     `validate_structure` and `signing_digest` stand for the archived variants too.
--   Vm/Physics, Gas, Error, Context: primus-vm/src/physics.rs, wasm/gas.rs, error.rs, context.rs.
--   Vm/Evolution: `apply_decay` and `evolve` of primus-vm/src/pvm.rs.
--   Vm/Pvm: `PVM::execute_single` and `execute_payload`. The source is one function that changes a
--     changeset and two accumulators in place; here each numbered step is a definition, `Batch`
--     holds the changeset and the accumulators, and an error drops them, as the source's callers do.
--   Vm/Host: primus-vm/src/wasm/host.rs and the host functions of wasm/wasmtime_backend.rs.
--   Vm/Dispatch: primus-vm/src/dispatch.rs.
--   Storage/Changeset: primus-storage/src/changeset.rs and types.rs.
--   Storage/Mpt: primus-storage/src/mpt.rs: nodes and hashes (Mpt), `get`, `insert` and `delete`
--     (Mpt/Trie), proofs (Mpt/Prove).
--   Storage/Mempool: `push_bytes`, `push` and `drain_resonant` of primus-storage/src/mempool_v2.rs, step by step.
--   Core/Framing: primus-core/src/framing.rs.
--   Storage/Mpt/Collect: `gc_since` of primus-storage/src/mpt.rs.
--   Core/Crystal: primus-types/src/crystal.rs, primus-core/src/crystal.rs and the nonce search of
--     engine.rs. Core/State: state.rs and the undo logs of processor.rs. Core/Atom: atom.rs.
--   Core/Gravity: gravity.rs and physics_shim.rs. Core/Chamber: chamber.rs.
--   Core/Storage: storage.rs, the keys as the source formats them; Core/Storage/Commit:
--     `commit_changeset` and `prune_undo_window`.
--   Core/Engine: the state of engine.rs, the bridge pvm.rs, and `finalize_solidification` of
--     processor.rs, step by step. Core/Processor: the rest of processor.rs.
--   Core/Run: calls that change a state and may fail. A failure keeps what was changed before it,
--     as `?` does in the source.
--   Core/Mining: the genesis and `mine_block` of engine.rs.
--   Types/Peer: primus-types/src/peer.rs. Net/Dht, Net/Peers: primus-net-opt/src/dht.rs. `insert`
--     takes the lock of its bucket twice and pings in between; Net/Dht/Placed has the steps of tasks
--     that share a table as a relation. Net/Lookup: `find_node` of lib.rs. Net/Gossip: gossip.rs.
--     Net/Shield: gravity_shield.rs. Net/Message, Net/Handler: network.rs, the messages and what a
--     node does with each of them.
--   Sdk/Transaction: primus-sdk/src/transaction/mod.rs. Each setter of a builder is `with_` and its
--     name.
--   Sdk/Proof: primus-sdk/src/proof.rs; its `key_to_nibbles` is that of Storage/Mpt.
--   Core/Ingress: the bridge `CoreHandleImpl` of primus-core/src/main.rs, which is the core that
--     Net/Handler asks for. An envelope can hold an envelope: `on_crystal` has fuel for each, and stops
--     with an error where it runs out.
--   Storage/Mpt/Sled: primus-storage/src/mpt_store.rs.
--   Machine: Rust's `u64`, bytes, and IEEE 754 `f32` and `f64`, as bit patterns with correct rounding.
--   Collections/BTreeMap: `BTreeMap`, a sorted association list.
--   Base: shared names, lists over native numbers, results, orders. Examples: runs and witnesses.
--
-- A number of the source is a native number; arithmetic that saturates, wraps or is checked in the
-- source is written out as such. A WASM word is its bit pattern. A trie's recursion follows hashes
-- through the store, so it runs on fuel: one unit for each nibble of the key and one more, which is
-- enough where every extension has a prefix, as the results for tries show. Every other recursion
-- is on a list, on the key or on fuel that is named below.
--
-- Parameters: the hash functions (crates sha3 and blake3), the signature check (ml-dsa), the byte
-- encoding of nodes, reactions and proofs (bincode, `ProofCodec`), the trees of sled (`SledTree`,
-- `NodeTree`), the node store (the trait `MptStore`, which Storage/Mpt/Sled implements over a tree of
-- sled), the WASM engine (wasmtime), the database of the node (`SledDb`), the encodings of its entries (`Codecs`) and of what
-- comes from the network (`Wire`), the square root and the logarithm of the platform (`Libm`), and the
-- key pair of a wallet (`Wallet`). Of the network these are the answers of other nodes (`Peers`), the
-- core behind `CoreHandle`, and the texts of messages and addresses (`Encoding`, `Texts`). A search for
-- a nonce has its attempts, and the collection of trie nodes its fuel, as a number; a lookup in the
-- network has fuel for its rounds, and stops where it runs out. A call on the trie that fails is
-- modelled as one that adds no nodes. The result for tries asks of a store that a put succeeds, and
-- that what is in it stays under its hash while the store is sound. The store of Storage/Mpt/Sled is
-- sound as long as no write replaces a node by another one with its hash. The clock of the framing is a number that each feed is
-- given.
--
-- Not modelled: the zero-copy decoding and serialisation (rkyv, serde), formatted error texts, the
-- compiled-module cache, logging, threads and I/O, and the crates that are not named above. Of the
-- repository's own crates the command line tools have no model here, nor have the wallets of the SDK,
-- the sessions and sockets of primus-net-opt, and of primus-core the entry,
-- the console, the set-up and the keys.
pub mod Base
pub mod Machine
pub mod Collections
pub mod Types
pub mod Storage
pub mod Vm
pub mod Core
pub mod Net
pub mod Sdk
pub mod Examples
