-- ===== src/Core/Framing/Roundtrip.antt =====
-- A message that is cut into chunks and fed in order comes out whole.
use primus_project.Base.{
  ℕ, suc, ◌-◌, ◌≤◌, ◌<◌, ◌≡◌, ◌∙◌, refl, ap, Option, none, some, List, [], ◌∷◌, ◌++◌, arith, length,
  replicate,
}
use primus_project.Base.Outcome.{Result, ok, ◌>>=◌}
use primus_project.Base.Ord.{bytes_ord, nat_ord}
use primus_project.Machine.Word.{Bytes}
use primus_project.Collections.BTreeMap
use primus_project.Types.Crypto.{Hashes}
use primus_project.Core.Framing.{
  noise_max_payload, app_max_message, chunk_stream_ttl, FrameError, chunks, as_u32, envelopes,
  chunk_message, Streams, entry,
}
use primus_project.Core.Framing.Chunks.{concat, AllFit-chunks, concat-chunks, length-le-concat}
use primus_project.Core.Framing.Deliver.{deliver, get-evict_none, envelope, deliver-envelopes}

-- Cutting a message into chunks, then feeding them in order.
unfoldable pub transmit :
    Hashes
    → (ℕ → ℕ)
    → Bytes
    → Bytes
    → Streams
    → Result FrameError (List (Result FrameError (Option Bytes)))
transmit h time data_of id streams = do
  envs ← chunk_message h data_of id
  ok (deliver h time 0 envs streams)

-- The outcomes of a message of which `n` chunks come before the last.
abbrev pub whole_at_last : ℕ → Bytes → List (Result FrameError (Option Bytes))
whole_at_last n data_of = replicate n (ok none) ++ ok (some data_of) ∷ []

deliver-chunks :
    (h : Hashes) (time : ℕ → ℕ) (data_of id : Bytes) (streams : Streams) (cs : List Bytes)
    → concat cs ≡ data_of
    → 0 < length data_of
    → length cs < 0x1_0000_0000
    → BTreeMap.get id streams ≡ none
    → ((i : ℕ) → i < length cs → time i - time 0 < chunk_stream_ttl)
    → deliver h time 0 (envelopes id (as_u32 (length cs)) (h.blake3 data_of) 0 cs) streams
      ≡ whole_at_last (length cs - 1) data_of
unfolding entry
deliver-chunks h time data_of id streams [] e positive small fresh young =
    absurd (omega (arith, ap length e))
deliver-chunks h time data_of id streams (c ∷ cs) e positive small fresh young =
    deliver-envelopes h id (h.blake3 data_of) (as_u32 (suc (length cs))) (time 0) (omega arith) time
      0 [] c cs streams refl (omega arith) (ap h.blake3 e) (λ i less. young i (omega arith))
      (ap (entry (time 0) (envelope id (as_u32 (suc (length cs))) (h.blake3 data_of) 0 c))
        (get-evict_none (time 0) id streams fresh))
    ∙ ap (whole_at_last (length cs)) e
    ∙ ap (λ n. whole_at_last n data_of) (omega arith)

-- A message of between 1 byte and 16 MiB is cut into chunks, and their feeding in order, to
-- streams without the identifier and in less time than the limit, gives no outcome but "not yet"
-- for all but the last, and for the last the message as it was.
pub transmit_lem :
    (h : Hashes) (time : ℕ → ℕ) (data_of id : Bytes) (streams : Streams)
    → 0 < length data_of
    → length data_of ≤ app_max_message
    → BTreeMap.get id streams ≡ none
    → ((i : ℕ) → i < length (chunks noise_max_payload data_of) → time i - time 0 < chunk_stream_ttl)
    → transmit h time data_of id streams
      ≡ ok (whole_at_last (length (chunks noise_max_payload data_of) - 1) data_of)
unfolding transmit chunk_message
transmit_lem h time data_of id streams positive small fresh young = ground (
  arith,
  deliver-chunks h time data_of id streams (chunks noise_max_payload data_of)
      (concat-chunks data_of) positive
      (omega (
        arith,
        length-le-concat noise_max_payload (chunks noise_max_payload data_of)
            (AllFit-chunks data_of),
        ap length (concat-chunks data_of),
      ))
      fresh young,
)
