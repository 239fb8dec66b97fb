-- ===== src/Core/Framing/Chunks.antt =====
-- The chunks of a message, and the map of those that have arrived.
use primus_project.Base.{
  ℕ, zero, suc, ◌+◌, ◌≤◌, ◌<◌, ◌≡◌, ◌∙◌, refl, ap, List, [], ◌∷◌, ◌++◌, arith, length, take, drop,
  length-append, length-take, length-drop, take-append-drop,
}
use primus_project.Base.Ord.{nat_ord}
use primus_project.Machine.Word.{Bytes}
use primus_project.Collections.BTreeMap
use primus_project.Collections.BTreeMap.{BTreeMap}
use primus_project.Core.Framing.{noise_max_payload, chunks_within, chunks, reassemble}

abbrev pub concat : List Bytes → Bytes
concat [] = []
concat (c ∷ cs) = c ++ concat cs

-- Chunks of between 1 and `n` bytes.
abbrev pub AllFit : ℕ → List Bytes → Type 0
AllFit n [] = Unit
AllFit n (c ∷ cs) = ((0 < length c) × (length c ≤ n)) × AllFit n cs

concat-chunks_within :
    (fuel n : ℕ) (data_of : Bytes)
    → 0 < n
    → length data_of ≤ fuel
    → concat (chunks_within fuel n data_of) ≡ data_of
unfolding chunks_within
concat-chunks_within zero n [] positive enough = refl
concat-chunks_within zero n (b ∷ data_of) positive enough = absurd (omega arith)
concat-chunks_within (suc fuel) n [] positive enough = refl
concat-chunks_within (suc fuel) n (b ∷ data_of) positive enough =
    ap (λ r. take n (b ∷ data_of) ++ r)
      (concat-chunks_within fuel n (drop n (b ∷ data_of)) positive
        (omega (arith, length-drop n (b ∷ data_of))))
    ∙ take-append-drop n (b ∷ data_of)

AllFit-chunks_within :
    (fuel n : ℕ) (data_of : Bytes) → 0 < n → AllFit n (chunks_within fuel n data_of)
unfolding chunks_within
AllFit-chunks_within zero n data_of positive = tt
AllFit-chunks_within (suc fuel) n [] positive = tt
AllFit-chunks_within (suc fuel) n (b ∷ data_of) positive = (
  (omega (arith, length-take n (b ∷ data_of)), omega (arith, length-take n (b ∷ data_of))),
  AllFit-chunks_within fuel n (drop n (b ∷ data_of)) positive,
)

pub AllFit-chunks : (data_of : Bytes) → AllFit noise_max_payload (chunks noise_max_payload data_of)
unfolding chunks
AllFit-chunks data_of =
    AllFit-chunks_within (length data_of) noise_max_payload data_of (omega arith)

pub concat-chunks : (data_of : Bytes) → concat (chunks noise_max_payload data_of) ≡ data_of
unfolding chunks
concat-chunks data_of =
    concat-chunks_within (length data_of) noise_max_payload data_of (omega arith) (omega arith)

-- There are at most as many chunks as bytes.
pub length-le-concat : (n : ℕ) (cs : List Bytes) → AllFit n cs → length cs ≤ length (concat cs)
length-le-concat n [] fit = omega arith
length-le-concat n (c ∷ cs) fit =
    omega (arith, fit.0.0, length-append c (concat cs), length-le-concat n cs fit.1)

-- The chunks from the index `i` on, in the map of a stream.
abbrev pub indexed : ℕ → List Bytes → BTreeMap ℕ Bytes
indexed i [] = []
indexed i (c ∷ cs) = (i, c) ∷ indexed (suc i) cs

pub length-indexed : (i : ℕ) (cs : List Bytes) → length (indexed i cs) ≡ length cs
length-indexed i [] = refl
length-indexed i (c ∷ cs) = ap suc (length-indexed (suc i) cs)

pub insert-indexed :
    (i j : ℕ) (c : Bytes) (cs : List Bytes)
    → j ≡ i + length cs
    → BTreeMap.insert j c (indexed i cs) ≡ indexed i (cs ++ c ∷ [])
unfolding BTreeMap.insert nat_ord
insert-indexed i j c [] e = ground arith
insert-indexed i j c (d ∷ cs) e = ground (arith, insert-indexed (suc i) j c cs)

remove-indexed :
    (i j : ℕ) (cs : List Bytes) → j < i → BTreeMap.remove j (indexed i cs) ≡ indexed i cs
unfolding BTreeMap.remove nat_ord
remove-indexed i j [] small = refl
remove-indexed i j (c ∷ cs) small = ground (arith, remove-indexed (suc i) j cs)

pub reassemble-indexed :
    (i : ℕ) (cs : List Bytes) → reassemble (length cs) i (indexed i cs) ≡ concat cs
unfolding reassemble BTreeMap.get BTreeMap.remove nat_ord
reassemble-indexed i [] = refl
reassemble-indexed i (c ∷ cs) =
    ground (arith, reassemble-indexed (suc i) cs, remove-indexed (suc i) i cs)
