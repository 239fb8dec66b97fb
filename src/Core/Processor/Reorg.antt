-- ===== src/Core/Processor/Reorg.antt =====
-- How far a reorganisation rolls back, and what is left of one that fails.
use primus_project.Base.{
  ℕ, zero, suc, ◌+◌, ◌-◌, ◌≡◌, ◌∙◌, refl, ap, subst, false, Option, none, some, List, [], ◌∷◌,
  arith, length,
}
use primus_project.Base.Outcome.{Result, ok, err}
use primus_project.Base.Ord.{same, bytes_ord}
use primus_project.Machine.Word.{Bytes}
use primus_project.Storage.Changeset.{UndoLog}
use primus_project.Core.Run.{then_run}
use primus_project.Core.Crystal.{Crystal, calculate_density, check_proof_of_work}
use primus_project.Core.Gravity.{vm_temperature}
use primus_project.Core.Storage.{CoreError, PrimusStorage, pow_invalid, get_crystal}
use primus_project.Core.Engine.{PrimusEngine, Platform}
use primus_project.Core.Processor.{
  verify_pow, find_ancestor, collect_undo_logs, undo_crystals, apply_chain, cool, rollback_depth,
  replace_chain, test_depth, reorganise,
}

module _ {D S E : Type 0} (p : Platform D S E) where
  -- A read that finds nothing, or a crystal with another density.
  abbrev pub ReadsOther : Result (CoreError E) (Option Crystal) → Bytes → Type 0
  ReadsOther (err _) prev_hash = ⊥
  ReadsOther (ok none) prev_hash = Unit
  ReadsOther (ok (some c)) prev_hash = same prev_hash (calculate_density p.hashes c) ≡ false

  -- No crystal up to `n` that the storage reads has this density, and every read succeeds.
  abbrev pub HasNoParent : PrimusStorage D S → Bytes → ℕ → Type 0
  HasNoParent s prev_hash zero = ReadsOther (get_crystal p.sled p.codecs.crystal 0 s).0 prev_hash
  HasNoParent s prev_hash (suc n) =
      ReadsOther (get_crystal p.sled p.codecs.crystal (suc n) s).0 prev_hash
      × HasNoParent s prev_hash n

  find_ancestor-HasNoParent :
      (s : PrimusStorage D S) (prev_hash : Bytes) (fallback n : ℕ)
      → HasNoParent s prev_hash n
      → find_ancestor p s prev_hash fallback n ≡ 0
  unfolding find_ancestor
  find_ancestor-HasNoParent s prev_hash fallback zero other = ground (arith, other)
  find_ancestor-HasNoParent s prev_hash fallback (suc n) other =
      ground (arith, other.0, find_ancestor-HasNoParent s prev_hash fallback n other.1)

  abbrev HasLength : ℕ → Result (CoreError E) (List (ℕ × UndoLog)) → Type 0
  HasLength n (err _) = Unit
  HasLength n (ok logs) = length logs ≡ n

  collect_undo_logs-HasLength :
      (s : PrimusStorage D S) (rounds h : ℕ) → HasLength rounds (collect_undo_logs p s rounds h)
  unfolding collect_undo_logs
  collect_undo_logs-HasLength s zero h = refl
  collect_undo_logs-HasLength s (suc rounds) h =
      ground (arith, collect_undo_logs-HasLength s rounds (h - 1))

  length-collect_undo_logs :
      (s : PrimusStorage D S) (rounds h : ℕ) (logs : List (ℕ × UndoLog))
      → collect_undo_logs p s rounds h ≡ ok logs
      → length logs ≡ rounds
  length-collect_undo_logs s rounds h logs e =
      subst (HasLength rounds) e (collect_undo_logs-HasLength s rounds h)

  replace_chain_lem :
      (ancestor : ℕ) (chain : List Crystal) (e : PrimusEngine D S) (logs : List (ℕ × UndoLog))
      → collect_undo_logs p e.storage
          (e.state.current_crystal_index - ancestor)
          e.state.current_crystal_index
        ≡ ok logs
      → replace_chain p ancestor chain e
        ≡ then_run
            (undo_crystals p logs ancestor e)
            (λ _ e1. then_run (apply_chain p chain e1) (λ _ e2. (ok tt, cool p e2)))
  unfolding replace_chain
  replace_chain_lem ancestor chain e logs collected = rw (collected, replace_chain) refl

  -- A crystal that claims the height after the tip, and whose parent is not stored, passes the test
  -- of the depth. Where the storage can be read, everything from the tip to the first crystal is
  -- undone, if the undo logs are there: as many crystals as the height of the tip, which can be more
  -- than the finality depth.
  pub reorganise-past_finality :
      (e : PrimusEngine D S) (c : Crystal) (logs : List (ℕ × UndoLog))
      → c.index ≡ e.state.current_crystal_index + 1
      → HasNoParent e.storage c.prev_hash e.state.current_crystal_index
      → collect_undo_logs p e.storage e.state.current_crystal_index e.state.current_crystal_index
        ≡ ok logs
      → (reorganise p c (c ∷ []) e
          ≡ then_run
              (undo_crystals p logs 0 e)
              (λ _ e1. then_run (apply_chain p (c ∷ []) e1) (λ _ e2. (ok tt, cool p e2))))
        × (length logs ≡ e.state.current_crystal_index)
  unfolding reorganise rollback_depth test_depth
  reorganise-past_finality e c logs next other collected =
      let tip = e.state.current_crystal_index in
      let depth : tip - (c.index - 1) ≡ 0 = omega arith in
      let start : c.index - 1 ≡ tip = omega arith in
      let all : tip - 0 ≡ tip = omega arith in
      (
        ap
              (λ d.
                test_depth p d (find_ancestor p e.storage c.prev_hash (c.index - 1) (c.index - 1))
                  (c ∷ []) e)
              depth
            ∙ ap (λ a. replace_chain p a (c ∷ []) e)
                (ap (λ n. find_ancestor p e.storage c.prev_hash n n) start
                  ∙ find_ancestor-HasNoParent e.storage c.prev_hash tip tip other)
            ∙ replace_chain_lem 0 (c ∷ []) e logs
                (ap (λ n. collect_undo_logs p e.storage n tip) all ∙ collected),
        length-collect_undo_logs e.storage tip tip logs collected,
      )

  -- The proof of work is tested in front of everything else.
  pub apply_chain-unworked :
      (e : PrimusEngine D S) (c : Crystal) (rest : List Crystal)
      → check_proof_of_work p.hashes c (vm_temperature e.chamber.temperature) e.epoch_difficulty
        ≡ false
      → apply_chain p (c ∷ rest) e ≡ (err (pow_invalid c.index), e)
  unfolding apply_chain verify_pow
  apply_chain-unworked e c rest unworked = rw unworked refl
