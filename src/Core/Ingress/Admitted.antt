-- ===== src/Core/Ingress/Admitted.antt =====
-- What enters the mempool.
use primus_project.Base.{
  ◌≡◌, ◌<◌, ◌⊎◌, inl, inr, refl, sym, ap, subst, ◌∙◌, true, Bool, false, Option, none, some, arith,
  length, ltb, ◌||◌, Option-cases, Bool-cases,
}
use primus_project.Base.Outcome.{Result, ok, err}
use primus_project.Base.Ord.{same, same_iff, bytes_ord}
use primus_project.Machine.Word.{Bytes}
use primus_project.Types.Atom.{Atom}
use primus_project.Types.Reaction.{SignedReaction}
use primus_project.Storage.Mempool
use primus_project.Storage.Mempool.{SledTree, ReactionCodec, SectoralMempool}
use primus_project.Core.Storage.{load_atom}
use primus_project.Core.Engine.{PrimusEngine, Platform, flatten_ok}
use primus_project.Core.Framing.{ChunkEnvelope, app_max_message}
use primus_project.Core.Ingress.{
  CoreHandleImpl, Wire, Clock, has_mass, count_drop, feed_envelope, bytes_to_process, is_solvent,
  enter, done, admit_reaction, admit, process_message, push_bytes,
}

has_mass-flatten_ok :
    {X : Type 0} (r : Result X (Option Atom))
    → has_mass (flatten_ok r) ≡ true
    → (a : Atom) × (r ≡ ok (some a)) × (0 < a.mass)
has_mass-flatten_ok (err e) funded = ground arith
has_mass-flatten_ok (ok none) funded = ground arith
has_mass-flatten_ok (ok (some a)) funded = (a, refl, ground arith)

or-split : (b c : Bool) → (b || c) ≡ true → (b ≡ true) ⊎ (c ≡ true)
or-split true c e = inl refl
or-split false c e = inr e

module _ {D S T E : Type 0} (p : Platform D S E) (sled : SledTree T E) (codec : ReactionCodec)
    (wire : Wire) where
  -- The sender is the Architect, or has a mass in the storage.
  abbrev pub IsSolvent : Bytes → PrimusEngine D S → Type 0
  IsSolvent pk e =
      (pk ≡ e.architect_pk)
      ⊎ ((a : Atom) × ((load_atom p.sled p.codecs.atom pk e.storage).0 ≡ ok (some a))
          × (0 < a.mass))

  -- One push, of a reaction from bytes that decode to it, by a solvent sender.
  pub record IsAdmitted (clock : Clock) (bytes : Bytes) (c c' : CoreHandleImpl D S T) : Type 0 where
    pub rx : SignedReaction
    pub decoded : wire.reaction bytes ≡ some rx
    pub solvent : IsSolvent rx.sender.public_key c.engine
    pub pushed : c'.mempool ≡ (Mempool.push sled codec p.hashes clock.seconds rx c.mempool).1

  pub is_solvent-IsSolvent :
      (pk : Bytes) (e : PrimusEngine D S)
      → is_solvent p sled codec wire pk e ≡ true
      → IsSolvent pk e
  unfolding is_solvent
  is_solvent-IsSolvent pk e solvent =
      elim (or-split (same pk e.architect_pk)
        (has_mass (flatten_ok (load_atom p.sled p.codecs.atom pk e.storage).0)) solvent) [
          | inl architect ↦ inl ((same_iff pk e.architect_pk).0 architect)
          | inr funded ↦
              inr (has_mass-flatten_ok (load_atom p.sled p.codecs.atom pk e.storage).0 funded)
        ]

  mempool-enter :
      (clock : Clock) (bytes : Bytes) (rx : SignedReaction) (c : CoreHandleImpl D S T)
      → (done p sled codec wire (enter p sled codec wire clock bytes rx c)).1.mempool
        ≡ (Mempool.push sled codec p.hashes clock.seconds rx c.mempool).1
  unfolding enter
  mempool-enter clock bytes rx c = ground arith

  feed_envelope-keeps :
      (clock : Clock) (envelope : ChunkEnvelope) (c : CoreHandleImpl D S T)
      → ((feed_envelope p sled codec wire clock envelope c).1.mempool ≡ c.mempool)
        × ((feed_envelope p sled codec wire clock envelope c).1.engine ≡ c.engine)
  unfolding feed_envelope count_drop
  feed_envelope-keeps clock envelope c = ground arith

  bytes_to_process-keeps :
      (clock : Clock) (bytes : Bytes) (c : CoreHandleImpl D S T)
      → ((bytes_to_process p sled codec wire clock bytes c).1.mempool ≡ c.mempool)
        × ((bytes_to_process p sled codec wire clock bytes c).1.engine ≡ c.engine)
  unfolding bytes_to_process
  bytes_to_process-keeps clock bytes c = elim (Option-cases (wire.reaction bytes)) [
    | inr direct ↦ rw (direct.1, bytes_to_process) (refl, refl)
    | inl other ↦ elim (Option-cases (wire.envelope bytes)) [
      | inl raw ↦ rw (other, raw, bytes_to_process) (refl, refl)
      | inr chunk ↦ rw (other, chunk.1, bytes_to_process) (feed_envelope-keeps clock chunk.0 c)
    ]
  ]

  admit_reaction-IsAdmitted :
      (clock : Clock) (bytes : Bytes) (rx : SignedReaction) (c : CoreHandleImpl D S T)
      → wire.reaction bytes ≡ some rx
      → ((admit_reaction p sled codec wire clock bytes rx c).1.mempool ≡ c.mempool)
        ⊎ IsAdmitted clock bytes c (admit_reaction p sled codec wire clock bytes rx c).1
  unfolding admit_reaction count_drop
  admit_reaction-IsAdmitted clock bytes rx c decoded =
      elim (Bool-cases (is_solvent p sled codec wire rx.sender.public_key c.engine)) [
        | inl solvent ↦ inr (record {
          rx = rx;
          decoded = decoded;
          solvent = is_solvent-IsSolvent rx.sender.public_key c.engine solvent;
          pushed = rw solvent (mempool-enter clock bytes rx c);
        })
        | inr poor ↦ inl (rw poor refl)
      ]

  pub admit-decoded :
      (clock : Clock) (bytes : Bytes) (rx : SignedReaction) (c : CoreHandleImpl D S T)
      → wire.reaction bytes ≡ some rx
      → admit p sled codec wire clock bytes c ≡ admit_reaction p sled codec wire clock bytes rx c
  unfolding admit
  admit-decoded clock bytes rx c decoded = rw (decoded, admit) refl

  mempool-admit_malformed :
      (clock : Clock) (bytes : Bytes) (c : CoreHandleImpl D S T)
      → wire.reaction bytes ≡ none
      → (admit p sled codec wire clock bytes c).1.mempool ≡ c.mempool
  unfolding admit count_drop
  mempool-admit_malformed clock bytes c malformed = rw (malformed, admit) refl

  admit-IsAdmitted :
      (clock : Clock) (bytes : Bytes) (c : CoreHandleImpl D S T)
      → ((admit p sled codec wire clock bytes c).1.mempool ≡ c.mempool)
        ⊎ IsAdmitted clock bytes c (admit p sled codec wire clock bytes c).1
  admit-IsAdmitted clock bytes c = elim (Option-cases (wire.reaction bytes)) [
    | inl malformed ↦ inl (mempool-admit_malformed clock bytes c malformed)
    | inr (rx, decoded) ↦
        subst (λ r. (r.1.mempool ≡ c.mempool) ⊎ IsAdmitted clock bytes c r.1)
          (sym (admit-decoded clock bytes rx c decoded))
          (admit_reaction-IsAdmitted clock bytes rx c decoded)
  ]

  -- The same from another state with the mempool and the engine of `c`.
  carry :
      (clock : Clock) (bytes : Bytes) (c d c' : CoreHandleImpl D S T)
      → (d.mempool ≡ c.mempool) × (d.engine ≡ c.engine)
      → (c'.mempool ≡ d.mempool) ⊎ IsAdmitted clock bytes d c'
      → (c'.mempool ≡ c.mempool) ⊎ IsAdmitted clock bytes c c'
  carry clock bytes c d c' same_parts (inl kept) = inl (kept ∙ same_parts.0)
  carry clock bytes c d c' same_parts (inr a) = inr (record {
    rx = a.rx;
    decoded = a.decoded;
    solvent = subst (IsSolvent a.rx.sender.public_key) same_parts.1 a.solvent;
    pushed =
        a.pushed
        ∙ ap (λ pool. (Mempool.push sled codec p.hashes clock.seconds a.rx pool).1) same_parts.0;
  })

  -- A message is there, and a reaction that it decodes to was pushed.
  abbrev pub IsProcessed :
      Clock → Option Bytes → CoreHandleImpl D S T → CoreHandleImpl D S T → Type 0
  IsProcessed clock message c c' =
      (bytes : Bytes) × (message ≡ some bytes) × IsAdmitted clock bytes c c'

  process :
      (clock : Clock) (message : Option Bytes) (c d : CoreHandleImpl D S T)
      → (d.mempool ≡ c.mempool) × (d.engine ≡ c.engine)
      → ((process_message p sled codec wire clock message d).1.mempool ≡ c.mempool)
        ⊎ IsProcessed clock message c (process_message p sled codec wire clock message d).1
  unfolding process_message
  process clock none c d same_parts = inl same_parts.0
  process clock (some b) c d same_parts =
      elim (carry clock b c d (admit p sled codec wire clock b d).1 same_parts
        (admit-IsAdmitted clock b d)) [
          | inl kept ↦ inl kept
          | inr admitted ↦ inr (b, refl, admitted)
        ]

  pub push_bytes-small :
      (clock : Clock) (bytes : Bytes) (c : CoreHandleImpl D S T)
      → ltb app_max_message (length bytes) ≡ false
      → push_bytes p sled codec wire clock bytes c
        ≡ process_message p sled codec wire clock
            (bytes_to_process p sled codec wire clock bytes c).0
            (bytes_to_process p sled codec wire clock bytes c).1
  unfolding push_bytes
  push_bytes-small clock bytes c small = rw (small, push_bytes) refl

  mempool-push_bytes_large :
      (clock : Clock) (bytes : Bytes) (c : CoreHandleImpl D S T)
      → ltb app_max_message (length bytes) ≡ true
      → (push_bytes p sled codec wire clock bytes c).1.mempool ≡ c.mempool
  unfolding push_bytes count_drop
  mempool-push_bytes_large clock bytes c large = rw (large, push_bytes) refl

  -- Bytes that a peer's message hands to `push_bytes` of `CoreHandle` leave the mempool as it is, or push one reaction into it: one that they, or
  -- the message that they complete, decode to, whose sender is the Architect or an account of the
  -- storage with a mass. Bytes that are too long leave it as it is.
  pub push_bytes-IsAdmitted :
      (clock : Clock) (bytes : Bytes) (c : CoreHandleImpl D S T)
      → (((push_bytes p sled codec wire clock bytes c).1.mempool ≡ c.mempool)
          ⊎ IsProcessed clock
              (bytes_to_process p sled codec wire clock bytes c).0
              c
              (push_bytes p sled codec wire clock bytes c).1)
        × (app_max_message < length bytes
            → (push_bytes p sled codec wire clock bytes c).1.mempool ≡ c.mempool)
  push_bytes-IsAdmitted clock bytes c = elim (Bool-cases (ltb app_max_message (length bytes))) [
    | inl large ↦ let kept = mempool-push_bytes_large clock bytes c large in (inl kept, λ _. kept)
    | inr small ↦ (
      subst
          (λ r.
            (r.1.mempool ≡ c.mempool)
            ⊎ IsProcessed clock (bytes_to_process p sled codec wire clock bytes c).0 c r.1)
          (sym (push_bytes-small clock bytes c small))
          (process clock (bytes_to_process p sled codec wire clock bytes c).0 c
            (bytes_to_process p sled codec wire clock bytes c).1
            (bytes_to_process-keeps clock bytes c)),
      λ long. ground (arith, small, long),
    )
  ]
