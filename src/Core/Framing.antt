-- ===== src/Core/Framing.antt =====
-- primus-core/src/framing.rs: messages in chunks that fit a Noise frame. A `HashMap` is the ordered
-- map of Collections/BTreeMap, since no order is read from it. Times are nanoseconds of the clock
-- behind `Instant`, which one feed reads once.
pub mod Chunks
pub mod Deliver
pub mod Outcome
pub mod Roundtrip
use package.primus_project.Base.{
  ℕ, zero, suc, ◌+◌, ◌-◌, ◌*◌, ◌%◌, ◌^◌, Bool, not, Option, none, some, List, [], ◌∷◌, ◌++◌, ltb,
  ◌==◌, if◌then◌else◌, length, take, drop,
}
use package.primus_project.Base.Outcome.{Result, ok, err, ◌>>◌, reject_if}
use package.primus_project.Base.Ord.{same, nat_ord, bytes_ord}
use package.primus_project.Machine.Word.{Bytes}
use package.primus_project.Collections.BTreeMap
use package.primus_project.Collections.BTreeMap.{BTreeMap}
use package.primus_project.Types.Crypto.{Hashes}

abbrev pub noise_max_payload : ℕ
noise_max_payload = 65519

abbrev pub app_max_message : ℕ
app_max_message = 16 * 1024 * 1024

-- 30 seconds.
abbrev pub chunk_stream_ttl : ℕ
chunk_stream_ttl = 30 * 1_000_000_000

pub record ChunkEnvelope : Type 0 where
  pub stream_id : Bytes
  pub chunk_index : ℕ
  pub total_chunks : ℕ
  pub payload_hash : Bytes
  pub data_of : Bytes

pub data FrameError : Type 0 where
  message_too_large : ℕ → ℕ → FrameError
  hash_mismatch : Bytes → Bytes → FrameError
  stream_expired : FrameError

-- `data.chunks(n)`: at most one chunk for each byte.
unfoldable pub chunks_within : ℕ → ℕ → Bytes → List Bytes
chunks_within zero n data_of = []
chunks_within (suc fuel) n [] = []
chunks_within (suc fuel) n (b ∷ data_of) =
    take n (b ∷ data_of) ∷ chunks_within fuel n (drop n (b ∷ data_of))

unfoldable pub chunks : ℕ → Bytes → List Bytes
chunks n data_of = chunks_within (length data_of) n data_of

abbrev pub as_u32 : ℕ → ℕ
as_u32 i = i % 2 ^ 32

-- The envelopes from the index `i` on.
unfoldable pub envelopes : Bytes → ℕ → Bytes → ℕ → List Bytes → List ChunkEnvelope
envelopes id total hash i [] = []
envelopes id total hash i (chunk ∷ rest) =
    record {
      stream_id = id;
      chunk_index = as_u32 i;
      total_chunks = total;
      payload_hash = hash;
      data_of = chunk;
    }
    ∷ envelopes id total hash (suc i) rest

unfoldable pub chunk_message : Hashes → Bytes → Bytes → Result FrameError (List ChunkEnvelope)
chunk_message h data_of id = do
  reject_if (ltb app_max_message (length data_of))
      (message_too_large (length data_of) app_max_message)
  let raw_chunks = chunks noise_max_payload data_of
  ok (envelopes id (as_u32 (length raw_chunks)) (h.blake3 data_of) 0 raw_chunks)

pub record PartialStream : Type 0 where
  pub total_chunks : ℕ
  pub expected_hash : Bytes
  pub received : BTreeMap ℕ Bytes
  pub first_seen : ℕ

abbrev pub Streams : Type 0
Streams = BTreeMap Bytes PartialStream

-- `retain` on the streams that are younger than the limit.
unfoldable pub evict_expired : ℕ → Streams → Streams
evict_expired now [] = []
evict_expired now ((id, s) ∷ streams) =
    let rest = evict_expired now streams in
    if ltb (now - s.first_seen) chunk_stream_ttl then (id, s) ∷ rest else rest

abbrev pub or_empty : Option Bytes → Bytes
or_empty none = []
or_empty (some b) = b

-- `(i..i + n).flat_map(|i| received.remove(&i).unwrap_or_default())`
unfoldable pub reassemble : ℕ → ℕ → BTreeMap ℕ Bytes → Bytes
reassemble zero i received = []
reassemble (suc n) i received =
    or_empty (BTreeMap.get i received) ++ reassemble n (suc i) (BTreeMap.remove i received)

-- `entry(id).or_insert_with(..)`
unfoldable pub entry : ℕ → ChunkEnvelope → Option PartialStream → PartialStream
entry now env (some s) = s
entry now env none = record {
  total_chunks = env.total_chunks;
  expected_hash = env.payload_hash;
  received = [];
  first_seen = now;
}

unfoldable pub finish :
    Hashes → Bytes → PartialStream → Streams → Result FrameError (Option Bytes) × Streams
finish h id s streams =
    let reassembled = reassemble s.total_chunks 0 s.received in
    let got_hash = h.blake3 reassembled in
    let rest = BTreeMap.remove id streams in
    if same got_hash s.expected_hash
    then (ok (some reassembled), rest)
    else (err (hash_mismatch s.expected_hash got_hash), rest)

unfoldable pub store : ChunkEnvelope → PartialStream → PartialStream
store env s = record s { received = BTreeMap.insert env.chunk_index env.data_of s.received }

-- The test for the last chunk, with `s` stored under `id` in `streams`.
unfoldable pub settle :
    Hashes → Bytes → PartialStream → Streams → Result FrameError (Option Bytes) × Streams
settle h id s streams =
    if as_u32 (length s.received) == s.total_chunks
    then finish h id s streams
    else (ok none, streams)

-- Returns the outcome and the streams that the reassembler keeps.
unfoldable pub feed :
    Hashes → ℕ → ChunkEnvelope → Streams → Result FrameError (Option Bytes) × Streams
feed h now env streams =
    let live = evict_expired now streams in
    let s = store env (entry now env (BTreeMap.get env.stream_id live)) in
    settle h env.stream_id s (BTreeMap.insert env.stream_id s live)
