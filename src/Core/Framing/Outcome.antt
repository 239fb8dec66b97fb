-- ===== src/Core/Framing/Outcome.antt =====
-- What one feed returns, and which streams it keeps.
use primus_project.Base.{ℕ, ◌-◌, ◌<◌, ◌≡◌, Option, none, some, [], ◌∷◌, arith, length, ==_iff}
use primus_project.Base.Outcome.{Result, ok, err}
use primus_project.Base.Ord.{same_iff, same_refl, bytes_ord, nat_ord}
use primus_project.Machine.Word.{Bytes}
use primus_project.Collections.BTreeMap
use primus_project.Collections.BTreeMap.Laws.{get-insert_self, get-remove}
use primus_project.Types.Crypto.{Hashes}
use primus_project.Core.Framing.{
  chunk_stream_ttl, ChunkEnvelope, FrameError, message_too_large, hash_mismatch, stream_expired,
  as_u32, PartialStream, Streams, evict_expired, entry, store, settle, finish, feed, reassemble,
}

abbrev IsYoung : ℕ → PartialStream → Type 0
IsYoung now s = now - s.first_seen < chunk_stream_ttl

abbrev pub AllYoung : ℕ → Streams → Type 0
AllYoung now [] = Unit
AllYoung now ((_, s) ∷ streams) = IsYoung now s × AllYoung now streams

AllYoung-evict_expired : (now : ℕ) (streams : Streams) → AllYoung now (evict_expired now streams)
unfolding evict_expired
AllYoung-evict_expired now [] = tt
AllYoung-evict_expired now ((id, s) ∷ streams) = ground (arith, AllYoung-evict_expired now streams)

AllYoung-insert :
    (now : ℕ) (id : Bytes) (s : PartialStream) (streams : Streams)
    → IsYoung now s
    → AllYoung now streams
    → AllYoung now (BTreeMap.insert id s streams)
unfolding BTreeMap.insert
AllYoung-insert now id s [] young all = (young, tt)
AllYoung-insert now id s ((j, t) ∷ streams) young all =
    ground (arith, AllYoung-insert now id s streams)

AllYoung-remove :
    (now : ℕ) (id : Bytes) (streams : Streams)
    → AllYoung now streams
    → AllYoung now (BTreeMap.remove id streams)
unfolding BTreeMap.remove
AllYoung-remove now id [] all = tt
AllYoung-remove now id ((j, t) ∷ streams) all = ground (arith, AllYoung-remove now id streams)

-- What `get` gives is young, when it gives a stream.
abbrev IsYoungIfAny : ℕ → Option PartialStream → Type 0
IsYoungIfAny now none = Unit
IsYoungIfAny now (some s) = IsYoung now s

get-IsYoungIfAny :
    (now : ℕ) (id : Bytes) (streams : Streams)
    → AllYoung now streams
    → IsYoungIfAny now (BTreeMap.get id streams)
unfolding BTreeMap.get
get-IsYoungIfAny now id [] all = tt
get-IsYoungIfAny now id ((j, t) ∷ streams) all = ground (arith, get-IsYoungIfAny now id streams)

store-IsYoung :
    (now : ℕ) (env : ChunkEnvelope) (found : Option PartialStream)
    → IsYoungIfAny now found
    → IsYoung now (store env (entry now env found))
unfolding store entry
store-IsYoung now env none young = omega arith
store-IsYoung now env (some s) young = young

-- What the outcome for the stream `s` of `id` says of it and of the streams that are kept.
abbrev pub IsSettled :
    Hashes → Bytes → PartialStream → Result FrameError (Option Bytes) → Streams → Type 0
IsSettled h id s (ok none) kept =
    (¬ (as_u32 (length s.received) ≡ s.total_chunks)) × (BTreeMap.get id kept ≡ some s)
IsSettled h id s (ok (some data_of)) kept =
    (as_u32 (length s.received) ≡ s.total_chunks)
    × (h.blake3 data_of ≡ s.expected_hash)
    × (BTreeMap.get id kept ≡ none)
IsSettled h id s (err (hash_mismatch expected got)) kept =
    (as_u32 (length s.received) ≡ s.total_chunks)
    × (expected ≡ s.expected_hash)
    × (¬ (got ≡ expected))
    × (BTreeMap.get id kept ≡ none)
IsSettled h id s (err (message_too_large _ _)) kept = ⊥
IsSettled h id s (err stream_expired) kept = ⊥

get-remove_self :
    (id : Bytes) (streams : Streams) → BTreeMap.get id (BTreeMap.remove id streams) ≡ none
get-remove_self id streams = simp (get-remove, same_refl)

finish-IsSettled :
    (h : Hashes) (id : Bytes) (s : PartialStream) (streams : Streams)
    → as_u32 (length s.received) ≡ s.total_chunks
    → IsSettled h id s (finish h id s streams).0 (finish h id s streams).1
unfolding finish
finish-IsSettled h id s streams all = ground (
  arith,
  all,
  same_iff (h.blake3 (reassemble s.total_chunks 0 s.received)) s.expected_hash,
  get-remove_self id streams,
)

settle-IsSettled :
    (h : Hashes) (id : Bytes) (s : PartialStream) (streams : Streams)
    → BTreeMap.get id streams ≡ some s
    → IsSettled h id s (settle h id s streams).0 (settle h id s streams).1
unfolding settle
settle-IsSettled h id s streams stored = ground (
  arith,
  stored,
  finish-IsSettled h id s streams,
  ==_iff (as_u32 (length s.received)) s.total_chunks,
)

finish-AllYoung :
    (now : ℕ) (h : Hashes) (id : Bytes) (s : PartialStream) (streams : Streams)
    → AllYoung now streams
    → AllYoung now (finish h id s streams).1
unfolding finish
finish-AllYoung now h id s streams all = ground (arith, AllYoung-remove now id streams all)

settle-AllYoung :
    (now : ℕ) (h : Hashes) (id : Bytes) (s : PartialStream) (streams : Streams)
    → AllYoung now streams
    → AllYoung now (settle h id s streams).1
unfolding settle
settle-AllYoung now h id s streams all = ground (arith, finish-AllYoung now h id s streams all)

-- The stream of an envelope once its chunk is stored.
abbrev pub updated : ℕ → ChunkEnvelope → Streams → PartialStream
updated now env streams =
    store env (entry now env (BTreeMap.get env.stream_id (evict_expired now streams)))

-- A feed keeps only streams that are younger than the limit. Without a message, the stream of the
-- envelope is incomplete and kept. With one, the stream was complete, the message has its hash
-- and the stream is dropped. The only error is a complete stream with another hash, which is
-- dropped too.
pub feed_lem :
    (h : Hashes) (now : ℕ) (env : ChunkEnvelope) (streams : Streams)
    → AllYoung now (feed h now env streams).1
      × IsSettled h env.stream_id
          (updated now env streams)
          (feed h now env streams).0
          (feed h now env streams).1
unfolding feed
feed_lem h now env streams =
    let s = updated now env streams in
    let live = evict_expired now streams in
    (
      settle-AllYoung now h env.stream_id s (BTreeMap.insert env.stream_id s live) (
          AllYoung-insert now env.stream_id s live
            (store-IsYoung now env (BTreeMap.get env.stream_id live)
              (get-IsYoungIfAny now env.stream_id live (AllYoung-evict_expired now streams)))
            (AllYoung-evict_expired now streams)),
      settle-IsSettled h env.stream_id s (BTreeMap.insert env.stream_id s live)
          (get-insert_self env.stream_id s live),
    )
