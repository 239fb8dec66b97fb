-- ===== src/Core/Ingress.antt =====
-- The bridge of primus-core/src/main.rs: what the core does with bytes that the network hands over. The
-- locks of the source are taken one call at a time.
pub mod Admitted
pub mod Phantom
use package.primus_project.Base.{
  ℕ, zero, suc, ◌+◌, ◌%◌, ◌^◌, Bool, true, false, not, ◌&&◌, ◌||◌, Option, none, some, List, [],
  ◌∷◌, ◌++◌, ltb, if◌then◌else◌, length,
}
use package.primus_project.Base.Outcome.{Result, ok, err}
use package.primus_project.Base.Ord.{same, bytes_ord}
use package.primus_project.Machine.Word.{Bytes}
use package.primus_project.Machine.Float.{F32}
use package.primus_project.Types.Atom.{Atom, Element}
use package.primus_project.Types.Proof.{MerkleProof}
use package.primus_project.Types.Reaction.{SignedReaction}
use package.primus_project.Storage.Mempool
use package.primus_project.Storage.Mempool.{SledTree, ReactionCodec, SectoralMempool, MempoolError}
use package.primus_project.Core.Crystal.{Crystal}
use package.primus_project.Core.State.{get_atom}
use package.primus_project.Core.Storage.{
  CoreError, PrimusStorage, load_atom, get_crystal, get_crystal_latest,
}
use package.primus_project.Core.Engine.{PrimusEngine, Platform, Step, flatten_ok}
use package.primus_project.Core.Framing.{ChunkEnvelope, Streams, FrameError, app_max_message, feed}
use package.primus_project.Core.Processor.{process_network_reaction, process_network_crystal}
use package.primus_project.Net.Message.{PrimusMessage, new_reaction}
use package.primus_project.Net.Handler.{CoreHandle}

-- `CoreHandleImpl`. The network is the messages that are broadcast, once there is one.
pub record CoreHandleImpl (D S T : Type 0) : Type 0 where
  pub engine : PrimusEngine D S
  pub mempool : SectoralMempool T
  pub streams : Streams
  pub frame_drops : ℕ
  pub connected : Bool
  pub broadcasts : List PrimusMessage

-- `rkyv` on reactions and envelopes, `bincode` on crystals, and the name of an element.
pub record Wire : Type 0 where
  pub reaction : Bytes → Option SignedReaction
  pub envelope : Bytes → Option ChunkEnvelope
  pub crystal : Bytes → Option Crystal
  pub element_text : Element → Bytes

pub data IngressError (E : Type 0) : Type 0 where
  payload_too_large : ℕ → ℕ → IngressError E
  malformed_frame : IngressError E
  mempool_refused : MempoolError E → IngressError E
  crystal_undecodable : IngressError E
  core_failed : CoreError E → IngressError E
  atom_not_found : IngressError E
  out_of_fuel : IngressError E

-- The time of one call: the nanoseconds of the framing, and the seconds of
-- the mempool.
pub record Clock : Type 0 where
  pub instant : ℕ
  pub seconds : Option ℕ

abbrev pub has_mass : Option Atom → Bool
has_mass none = false
has_mass (some a) = ltb 0 a.mass

module _ {D S T E : Type 0} (p : Platform D S E) (sled : SledTree T E) (codec : ReactionCodec)
    (wire : Wire) where
  abbrev pub Handled : Type 0 → Type 0
  Handled A = Result (IngressError E) A × CoreHandleImpl D S T

  unfoldable pub count_drop : CoreHandleImpl D S T → CoreHandleImpl D S T
  count_drop c = record c { frame_drops = (c.frame_drops + 1) % 2 ^ 64 }

  -- A call on the engine.
  unfoldable pub on_engine : Step D S E (Unit {0}) → CoreHandleImpl D S T → Handled (Unit {0})
  on_engine step c =
      let (r, engine') = step c.engine in
      let c' : CoreHandleImpl D S T = record c { engine = engine' } in
      elim r [ err e ↦ (err (core_failed e), c') | ok _ ↦ (ok tt, c') ]

  unfoldable pub on_reaction : SignedReaction → CoreHandleImpl D S T → Handled (Unit {0})
  on_reaction rx = on_engine (process_network_reaction p rx)

  -- The message that an envelope completes. A stream that fails counts as a drop.
  unfoldable pub feed_envelope :
      Clock → ChunkEnvelope → CoreHandleImpl D S T → Option Bytes × CoreHandleImpl D S T
  feed_envelope clock envelope c =
      let (r, streams') = feed p.hashes clock.instant envelope c.streams in
      let c' : CoreHandleImpl D S T = record c { streams = streams' } in
      elim r [ err _ ↦ (none, count_drop c') | ok message ↦ (message, c') ]

  unfoldable pub direct_crystal : Bytes → CoreHandleImpl D S T → Handled (Unit {0})
  direct_crystal crystal_bytes c = elim (wire.crystal crystal_bytes) [
    | none ↦ (err crystal_undecodable, c)
    | some crystal ↦ on_engine (process_network_crystal p crystal) c
  ]

  -- A message that is complete comes back here, on fuel for the envelopes within envelopes.
  unfoldable pub on_crystal : ℕ → Clock → Bytes → CoreHandleImpl D S T → Handled (Unit {0})
  on_crystal zero clock crystal_bytes c = (err out_of_fuel, c)
  on_crystal (suc fuel) clock crystal_bytes c = elim (wire.envelope crystal_bytes) [
    | none ↦ direct_crystal crystal_bytes c
    | some envelope ↦
        (let (message, c') = feed_envelope clock envelope c in
          elim message [ none ↦ (ok tt, c') | some full ↦ on_crystal fuel clock full c' ])
  ]

  unfoldable pub get_crystal_bytes : ℕ → CoreHandleImpl D S T → Option Bytes
  get_crystal_bytes index c =
      elim (flatten_ok (get_crystal p.sled p.codecs.crystal index c.engine.storage).0) [
        | none ↦ none
        | some crystal ↦ p.codecs.crystal.serialize crystal
      ]

  abbrev pub energy_of : Option Crystal → F32
  energy_of none = 0
  energy_of (some c) = c.cumulative_energy

  unfoldable pub local_state : CoreHandleImpl D S T → ℕ × F32 × F32
  local_state c = (
    c.engine.state.current_crystal_index,
    c.engine.state.global_metrics.entropy,
    energy_of (flatten_ok (get_crystal_latest p.sled p.codecs.crystal c.engine.storage).0),
  )

  unfoldable pub set_sync_target : ℕ → CoreHandleImpl D S T → CoreHandleImpl D S T
  set_sync_target height c = record c {
    engine = record c.engine { is_syncing = true; sync_target = height };
  }

  unfoldable pub finish_sync : CoreHandleImpl D S T → CoreHandleImpl D S T
  finish_sync c = record c { engine = record c.engine { is_syncing = false } }

  -- The bytes to process: those that came, or the message that they complete.
  unfoldable pub bytes_to_process :
      Clock → Bytes → CoreHandleImpl D S T → Option Bytes × CoreHandleImpl D S T
  bytes_to_process clock bytes c = elim (wire.reaction bytes) [
    | some _ ↦ (some bytes, c)
    | none ↦ elim (wire.envelope bytes) [
      | none ↦ (some bytes, c)
      | some envelope ↦ feed_envelope clock envelope c
    ]
  ]

  -- Layer 5 of the shield: the Architect, or an account in the storage that has a mass.
  unfoldable pub is_solvent : Bytes → PrimusEngine D S → Bool
  is_solvent sender_pubkey e =
      same sender_pubkey e.architect_pk
      || has_mass (flatten_ok (load_atom p.sled p.codecs.atom sender_pubkey e.storage).0)

  abbrev pub announce : Bool → Bytes → CoreHandleImpl D S T → CoreHandleImpl D S T
  announce is_new bytes c =
      if is_new && c.connected
      then record c { broadcasts = c.broadcasts ++ new_reaction bytes 8 ∷ [] }
      else c

  -- The push into the mempool; what is new is broadcast.
  unfoldable pub enter : Clock → Bytes → SignedReaction → CoreHandleImpl D S T → Handled Bool
  enter clock bytes rx c =
      let (pushed, mempool') = Mempool.push sled codec p.hashes clock.seconds rx c.mempool in
      let c' : CoreHandleImpl D S T = record c { mempool = mempool' } in
      elim pushed [
        | err e ↦ (err (mempool_refused e), c')
        | ok is_new ↦ (ok is_new, announce is_new bytes c')
      ]

  abbrev pub done : Handled Bool → Handled (Unit {0})
  done (err e, c) = (err e, c)
  done (ok _, c) = (ok tt, c)

  -- From the check of the sender on.
  unfoldable pub admit_reaction :
      Clock → Bytes → SignedReaction → CoreHandleImpl D S T → Handled (Unit {0})
  admit_reaction clock bytes rx c =
      if is_solvent rx.sender.public_key c.engine
      then done (enter clock bytes rx c)
      else (ok tt, count_drop c)

  -- From the check of the bytes on.
  unfoldable pub admit : Clock → Bytes → CoreHandleImpl D S T → Handled (Unit {0})
  admit clock bytes c = elim (wire.reaction bytes) [
    | none ↦ (err malformed_frame, count_drop c)
    | some rx ↦ admit_reaction clock bytes rx c
  ]

  -- From the bytes to process on; `none` is a message that lacks chunks.
  unfoldable pub process_message : Clock → Option Bytes → CoreHandleImpl D S T → Handled (Unit {0})
  process_message clock none c = (ok tt, c)
  process_message clock (some bytes) c = admit clock bytes c

  -- `push_bytes` of `CoreHandle`.
  unfoldable pub push_bytes : Clock → Bytes → CoreHandleImpl D S T → Handled (Unit {0})
  push_bytes clock bytes c =
      if ltb app_max_message (length bytes)
      then (err (payload_too_large (length bytes) app_max_message), count_drop c)
      else (let (message, c') = bytes_to_process clock bytes c in process_message clock message c')

  -- `push_bytes` of `MempoolIngress`.
  unfoldable pub ingress_push_bytes : Clock → Bytes → CoreHandleImpl D S T → Handled Bool
  ingress_push_bytes clock bytes c =
      if ltb app_max_message (length bytes)
      then (err (payload_too_large (length bytes) app_max_message), c)
      else elim (wire.reaction bytes) [
        | none ↦ (err malformed_frame, c)
        | some rx ↦ enter clock bytes rx c
      ]

  unfoldable pub get_atom_state :
      Bytes → CoreHandleImpl D S T → Result (IngressError E) (ℕ × ℕ × Bytes × Bytes)
  get_atom_state addr c = elim (get_atom addr c.engine.state) [
    | none ↦ err atom_not_found
    | some a ↦ ok (a.mass, a.nonce, a.last_reaction_hash, wire.element_text a.element)
  ]

  abbrev pub texted :
      {A : Type 0} → (IngressError E → Bytes) → Result (IngressError E) A → Result Bytes A
  texted text (err e) = err (text e)
  texted text (ok a) = ok a

  -- The bridge as the core of a node: the proofs come from elsewhere.
  abbrev pub core_handle :
      (IngressError E → Bytes)
      → ℕ
      → Clock
      → (Bytes → CoreHandleImpl D S T → Result Bytes MerkleProof)
      → CoreHandle (CoreHandleImpl D S T)
  core_handle text fuel clock proof = record {
    on_crystal = λ b c. let (r, c') = on_crystal fuel clock b c in (texted text r, c');
    local_state = local_state;
    get_crystal_bytes = get_crystal_bytes;
    set_sync_target = set_sync_target;
    is_syncing = λ c. c.engine.is_syncing;
    finish_sync = finish_sync;
    get_atom_state = λ addr c. texted text (get_atom_state addr c);
    push_bytes = λ b c. let (r, c') = push_bytes clock b c in (texted text r, c');
    on_get_proof = proof;
  }
