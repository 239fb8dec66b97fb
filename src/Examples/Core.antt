-- ===== src/Examples/Core.antt =====
-- Messages in chunks.
use primus_project.Base.{
  ℕ, ◌+◌, ◌%◌, length-replicate, ◌-◌, ◌≡◌, refl, none, some, [], ◌∷◌, arith, length, replicate,
}
use primus_project.Base.Outcome.{ok, err}
use primus_project.Base.Ord.{nat_ord, bytes_ord}
use primus_project.Machine.Word.{Bytes}
use primus_project.Collections.BTreeMap
use primus_project.Core.Framing.{
  Streams, noise_max_payload, ChunkEnvelope, hash_mismatch, chunks_within, chunks, evict_expired,
  reassemble, entry, store, finish, settle, feed,
}
use primus_project.Core.Framing.Outcome.{AllYoung, IsSettled, updated, feed_lem}
use primus_project.Core.Framing.Deliver.{deliver}
use primus_project.Core.Framing.Roundtrip.{transmit, whole_at_last, transmit_lem}
use primus_project.Examples.Data.{hashes}

abbrev part : ℕ → Bytes → ChunkEnvelope
part i b = record {
  stream_id = 1 ∷ [];
  chunk_index = i;
  total_chunks = 2;
  payload_hash = 1 ∷ 2 ∷ 3 ∷ [];
  data_of = b;
}

chunks_test : chunks_within 3 2 (1 ∷ 2 ∷ 3 ∷ []) ≡ (1 ∷ 2 ∷ []) ∷ (3 ∷ []) ∷ []
unfolding chunks_within
chunks_test = refl

-- The parts may come in either order.
swapped_test :
    deliver hashes (λ i. i) 0 (part 1 (3 ∷ []) ∷ part 0 (1 ∷ 2 ∷ []) ∷ []) []
    ≡ ok none ∷ ok (some (1 ∷ 2 ∷ 3 ∷ [])) ∷ []
unfolding deliver feed evict_expired entry store settle finish reassemble BTreeMap.get
    BTreeMap.insert BTreeMap.remove nat_ord bytes_ord
swapped_test = refl

-- A part that was changed on the way.
changed_test :
    deliver hashes (λ i. i) 0 (part 0 (1 ∷ 2 ∷ []) ∷ part 1 (4 ∷ []) ∷ []) []
    ≡ ok none ∷ err (hash_mismatch (1 ∷ 2 ∷ 3 ∷ []) (1 ∷ 2 ∷ 4 ∷ [])) ∷ []
unfolding deliver feed evict_expired entry store settle finish reassemble BTreeMap.get
    BTreeMap.insert BTreeMap.remove nat_ord bytes_ord
changed_test = refl

transmit_lem_example :
    transmit hashes (λ i. 10 + i % 5) (replicate 70000 7) (1 ∷ []) []
    ≡ ok (
        whole_at_last
          (length (chunks noise_max_payload (replicate 70000 7)) - 1)
          (replicate 70000 7))
unfolding BTreeMap.get
transmit_lem_example =
    transmit_lem hashes (λ i. 10 + i % 5) (replicate 70000 7) (1 ∷ []) []
      (omega (arith, length-replicate {A = ℕ} 70000 7))
      (omega (arith, length-replicate {A = ℕ} 70000 7)) refl (λ i less. omega arith)

-- The second part of a message, with its first part there and another stream too old.
abbrev waiting : Streams
waiting =
    BTreeMap.insert (1 ∷ [])
      (record {
        total_chunks = 2;
        expected_hash = 1 ∷ 2 ∷ 3 ∷ [];
        received = (0, 1 ∷ 2 ∷ []) ∷ [];
        first_seen = 40_000_000_000;
      })
      ((2 ∷ [], record { total_chunks = 2; expected_hash = 5 ∷ []; received = []; first_seen = 0 })
        ∷ [])

feed_lem_example :
    AllYoung 50_000_000_000 (feed hashes 50_000_000_000 (part 1 (3 ∷ [])) waiting).1
    × IsSettled hashes
        (1 ∷ [])
        (updated 50_000_000_000 (part 1 (3 ∷ [])) waiting)
        (feed hashes 50_000_000_000 (part 1 (3 ∷ [])) waiting).0
        (feed hashes 50_000_000_000 (part 1 (3 ∷ [])) waiting).1
feed_lem_example = feed_lem hashes 50_000_000_000 (part 1 (3 ∷ [])) waiting

waiting_test :
    feed hashes 50_000_000_000 (part 1 (3 ∷ [])) waiting ≡ (ok (some (1 ∷ 2 ∷ 3 ∷ [])), [])
unfolding feed evict_expired entry store settle finish reassemble BTreeMap.get BTreeMap.insert
    BTreeMap.remove nat_ord bytes_ord
waiting_test = refl
