-- ===== src/Core/Framing/Deliver.antt =====
-- Feeding the envelopes of a message in order.
use primus_project.Base.{
  ℕ, suc, ◌+◌, ◌-◌, ◌<◌, ◌≡◌, ◌∙◌, refl, ap, Option, none, some, List, [], ◌∷◌, ◌++◌, arith, length,
  replicate, length-append,
}
use primus_project.Base.Outcome.{Result, ok}
use primus_project.Base.Ord.{same_refl, bytes_ord, nat_ord}
use primus_project.Machine.Word.{Bytes}
use primus_project.Collections.BTreeMap
use primus_project.Collections.BTreeMap.Laws.{get-insert_self}
use primus_project.Types.Crypto.{Hashes}
use primus_project.Core.Framing.{
  chunk_stream_ttl, ChunkEnvelope, FrameError, as_u32, envelopes, PartialStream, Streams,
  evict_expired, entry, store, settle, finish, feed,
}
use primus_project.Core.Framing.Chunks.{
  concat, indexed, length-indexed, insert-indexed, reassemble-indexed,
}

-- The outcomes of feeding envelopes one after another, the i-th of them at `time i`.
unfoldable pub deliver :
    Hashes → (ℕ → ℕ) → ℕ → List ChunkEnvelope → Streams → List (Result FrameError (Option Bytes))
deliver h time i [] streams = []
deliver h time i (env ∷ envs) streams =
    let (outcome, streams') = feed h (time i) env streams in
    outcome ∷ deliver h time (suc i) envs streams'

pub get-evict_none :
    (now : ℕ) (id : Bytes) (streams : Streams)
    → BTreeMap.get id streams ≡ none
    → BTreeMap.get id (evict_expired now streams) ≡ none
unfolding evict_expired BTreeMap.get
get-evict_none now id [] e = refl
get-evict_none now id ((j, s) ∷ streams) e = ground (arith, get-evict_none now id streams)

get-evict_some :
    (now : ℕ) (id : Bytes) (s : PartialStream) (streams : Streams)
    → now - s.first_seen < chunk_stream_ttl
    → BTreeMap.get id streams ≡ some s
    → BTreeMap.get id (evict_expired now streams) ≡ some s
unfolding evict_expired BTreeMap.get
get-evict_some now id s [] young e = cc
get-evict_some now id s ((j, t) ∷ streams) young e =
    ground (arith, get-evict_some now id s streams young)

-- The stream of a message of which the chunks `cs` have arrived.
abbrev pub stream_of : ℕ → Bytes → ℕ → List Bytes → PartialStream
stream_of total hash start cs = record {
  total_chunks = total;
  expected_hash = hash;
  received = indexed 0 cs;
  first_seen = start;
}

abbrev pub envelope : Bytes → ℕ → Bytes → ℕ → Bytes → ChunkEnvelope
envelope id total hash i c = record {
  stream_id = id;
  chunk_index = as_u32 i;
  total_chunks = total;
  payload_hash = hash;
  data_of = c;
}

append-snoc : (cs : List Bytes) (c : Bytes) (ds : List Bytes) → (cs ++ c ∷ []) ++ ds ≡ cs ++ c ∷ ds
append-snoc [] c ds = refl
append-snoc (b ∷ cs) c ds = ap (λ r. b ∷ r) (append-snoc cs c ds)

module _ (h : Hashes) (id hash : Bytes) (total start : ℕ) (small : total < 0x1_0000_0000) where
  -- What the feed of the chunk `c`, with the index `n`, finds.
  abbrev pub Finds : ℕ → ℕ → List Bytes → Bytes → Streams → Type 0
  Finds now n arrived c streams =
      entry now (envelope id total hash n c) (BTreeMap.get id (evict_expired now streams))
      ≡ stream_of total hash start arrived

  store-stream_of :
      (n : ℕ) (arrived : List Bytes) (c : Bytes)
      → n ≡ length arrived
      → n < total
      → store (envelope id total hash n c) (stream_of total hash start arrived)
        ≡ stream_of total hash start (arrived ++ c ∷ [])
  unfolding store
  store-stream_of n arrived c e room =
      ap
        (λ m. record {
          total_chunks = total;
          expected_hash = hash;
          received = m;
          first_seen = start;
        })
        (insert-indexed 0 (as_u32 n) c arrived (omega arith))

  abbrev next_streams : ℕ → List Bytes → Bytes → Streams → Streams
  next_streams now arrived c streams =
      BTreeMap.insert id (stream_of total hash start (arrived ++ c ∷ []))
        (evict_expired now streams)

  feed-settle :
      (now n : ℕ) (arrived : List Bytes) (c : Bytes) (streams : Streams)
      → n ≡ length arrived
      → n < total
      → Finds now n arrived c streams
      → feed h now (envelope id total hash n c) streams
        ≡ settle h id
            (stream_of total hash start (arrived ++ c ∷ []))
            (next_streams now arrived c streams)
  unfolding feed
  feed-settle now n arrived c streams e room finds =
      ap
        (λ s.
          settle h id (store (envelope id total hash n c) s)
            (BTreeMap.insert id (store (envelope id total hash n c) s) (evict_expired now streams)))
        finds
      ∙ ap (λ s. settle h id s (BTreeMap.insert id s (evict_expired now streams)))
          (store-stream_of n arrived c e room)

  settle-more :
      (arrived : List Bytes) (streams : Streams)
      → length arrived < total
      → settle h id (stream_of total hash start arrived) streams ≡ (ok none, streams)
  unfolding settle
  settle-more arrived streams room = ground (arith, length-indexed 0 arrived)

  settle-last :
      (arrived : List Bytes) (streams : Streams)
      → length arrived ≡ total
      → h.blake3 (concat arrived) ≡ hash
      → (settle h id (stream_of total hash start arrived) streams).0 ≡ ok (some (concat arrived))
  unfolding settle finish
  settle-last arrived streams last hashed =
      ground (arith, length-indexed 0 arrived, reassemble-indexed 0 arrived, same_refl hash)

  Finds-next :
      (now later n : ℕ) (arrived : List Bytes) (c d : Bytes) (streams : Streams)
      → later - start < chunk_stream_ttl
      → Finds later n (arrived ++ c ∷ []) d (next_streams now arrived c streams)
  unfolding entry
  Finds-next now later n arrived c d streams young = ap (entry later (envelope id total hash n d)) (
      get-evict_some later id (stream_of total hash start (arrived ++ c ∷ []))
        (next_streams now arrived c streams) young
        (get-insert_self id (stream_of total hash start (arrived ++ c ∷ []))
          (evict_expired now streams)))

  pub deliver-envelopes :
      (time : ℕ → ℕ) (n : ℕ) (arrived : List Bytes) (c : Bytes) (rest : List Bytes)
      (streams : Streams)
      → n ≡ length arrived
      → n + suc (length rest) ≡ total
      → h.blake3 (concat (arrived ++ c ∷ rest)) ≡ hash
      → ((i : ℕ) → i < total → time i - start < chunk_stream_ttl)
      → Finds (time n) n arrived c streams
      → deliver h time n (envelopes id total hash n (c ∷ rest)) streams
        ≡ replicate (length rest) (ok none) ++ ok (some (concat (arrived ++ c ∷ rest))) ∷ []
  unfolding deliver envelopes
  deliver-envelopes time n arrived c [] streams e all hashed young finds =
      ap (λ o. o ∷ [])
        (ap (λ r. r.0) (feed-settle (time n) n arrived c streams e (omega arith) finds)
          ∙ settle-last (arrived ++ c ∷ []) (next_streams (time n) arrived c streams)
              (omega (arith, length-append arrived (c ∷ []))) hashed)
  deliver-envelopes time n arrived c (d ∷ rest) streams e all hashed young finds =
      ap (λ r. r.0 ∷ deliver h time (suc n) (envelopes id total hash (suc n) (d ∷ rest)) r.1)
        (feed-settle (time n) n arrived c streams e (omega arith) finds
          ∙ settle-more (arrived ++ c ∷ []) (next_streams (time n) arrived c streams)
              (omega (arith, length-append arrived (c ∷ []))))
      ∙ ap (λ r. ok none ∷ r)
          (deliver-envelopes time (suc n) (arrived ++ c ∷ []) d rest
            (next_streams (time n) arrived c streams)
            (omega (arith, length-append arrived (c ∷ []))) (omega arith)
            (ap (λ cs. h.blake3 (concat cs)) (append-snoc arrived c (d ∷ rest)) ∙ hashed) young
            (Finds-next (time n) (time (suc n)) (suc n) arrived c d streams
              (young (suc n) (omega arith))))
      ∙ ap (λ cs. ok none ∷ replicate (length rest) (ok none) ++ ok (some (concat cs)) ∷ [])
          (append-snoc arrived c (d ∷ rest))
