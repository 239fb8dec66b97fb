-- ===== src/Core/Ingress/Phantom.antt =====
-- What the two entries of the mempool do with a sender of no account.
use primus_project.Base.{◌≡◌, ◌≤◌, refl, ap, ◌∙◌, true, false, some, arith, length, ltb}
use primus_project.Base.Ord.{bytes_ord}
use primus_project.Machine.Word.{Bytes}
use primus_project.Types.Reaction.{SignedReaction}
use primus_project.Storage.Mempool
use primus_project.Storage.Mempool.{SledTree, ReactionCodec, SectoralMempool}
use primus_project.Core.Engine.{Platform}
use primus_project.Core.Framing.{app_max_message}
use primus_project.Core.Ingress.{
  CoreHandleImpl, Wire, Clock, count_drop, bytes_to_process, is_solvent, enter, admit_reaction,
  admit, process_message, push_bytes, ingress_push_bytes,
}
use primus_project.Core.Ingress.Admitted.{
  IsSolvent, is_solvent-IsSolvent, push_bytes-small, admit-decoded,
}

module _ {D S T E : Type 0} (p : Platform D S E) (sled : SledTree T E) (codec : ReactionCodec)
    (wire : Wire) where
  mempool-enter_bare :
      (clock : Clock) (bytes : Bytes) (rx : SignedReaction) (c : CoreHandleImpl D S T)
      → (enter p sled codec wire clock bytes rx c).1.mempool
        ≡ (Mempool.push sled codec p.hashes clock.seconds rx c.mempool).1
  unfolding enter
  mempool-enter_bare clock bytes rx c = ground arith

  mempool-admit_poor :
      (clock : Clock) (bytes : Bytes) (rx : SignedReaction) (c : CoreHandleImpl D S T)
      → is_solvent p sled codec wire rx.sender.public_key c.engine ≡ false
      → (admit_reaction p sled codec wire clock bytes rx c).1.mempool ≡ c.mempool
  unfolding admit_reaction count_drop
  mempool-admit_poor clock bytes rx c poor = rw poor refl

  bytes_to_process-direct :
      (clock : Clock) (bytes : Bytes) (rx : SignedReaction) (c : CoreHandleImpl D S T)
      → wire.reaction bytes ≡ some rx
      → bytes_to_process p sled codec wire clock bytes c ≡ (some bytes, c)
  unfolding bytes_to_process
  bytes_to_process-direct clock bytes rx c decoded = rw (decoded, bytes_to_process) refl

  process_message-some :
      (clock : Clock) (bytes : Bytes) (c : CoreHandleImpl D S T)
      → process_message p sled codec wire clock (some bytes) c
        ≡ admit p sled codec wire clock bytes c
  unfolding process_message
  process_message-some clock bytes c = refl

  ingress_push_bytes-decoded :
      (clock : Clock) (bytes : Bytes) (rx : SignedReaction) (c : CoreHandleImpl D S T)
      → ltb app_max_message (length bytes) ≡ false
      → wire.reaction bytes ≡ some rx
      → ingress_push_bytes p sled codec wire clock bytes c
        ≡ enter p sled codec wire clock bytes rx c
  unfolding ingress_push_bytes
  ingress_push_bytes-decoded clock bytes rx c small decoded =
      rw (small, ingress_push_bytes) (rw decoded refl)

  -- A reaction of a sender who is neither the Architect nor an account of the storage with a mass
  -- leaves the mempool as it is when its bytes come to `push_bytes` of `CoreHandle`, and is pushed
  -- into it when the same bytes come to `push_bytes` of `MempoolIngress`. This is for bytes that are
  -- not too long.
  pub ingress_push_bytes-phantom :
      (clock : Clock) (bytes : Bytes) (rx : SignedReaction) (c : CoreHandleImpl D S T)
      → length bytes ≤ app_max_message
      → wire.reaction bytes ≡ some rx
      → ¬ IsSolvent p sled codec wire rx.sender.public_key c.engine
      → ((push_bytes p sled codec wire clock bytes c).1.mempool ≡ c.mempool)
        × ((ingress_push_bytes p sled codec wire clock bytes c).1.mempool
            ≡ (Mempool.push sled codec p.hashes clock.seconds rx c.mempool).1)
  ingress_push_bytes-phantom clock bytes rx c fits decoded phantom =
      let small : ltb app_max_message (length bytes) ≡ false = ground (arith, fits) in
      let poor : is_solvent p sled codec wire rx.sender.public_key c.engine ≡ false = ground (
        arith,
        λ (e : is_solvent p sled codec wire rx.sender.public_key c.engine ≡ true).
            phantom (is_solvent-IsSolvent p sled codec wire rx.sender.public_key c.engine e),
      ) in
      (
        ap (λ r. r.1.mempool)
              (push_bytes-small p sled codec wire clock bytes c small
                ∙ ap (λ t. process_message p sled codec wire clock t.0 t.1)
                    (bytes_to_process-direct clock bytes rx c decoded)
                ∙ process_message-some clock bytes c
                ∙ admit-decoded p sled codec wire clock bytes rx c decoded)
            ∙ mempool-admit_poor clock bytes rx c poor,
        ap (λ r. r.1.mempool) (ingress_push_bytes-decoded clock bytes rx c small decoded)
            ∙ mempool-enter_bare clock bytes rx c,
      )
