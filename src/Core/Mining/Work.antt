-- ===== src/Core/Mining/Work.antt =====
-- What the work of a mined crystal is on.
use primus_project.Base.{
  ℕ, zero, suc, ◌≡◌, ◌≢◌, ◌∙◌, refl, sym, ap, true, false, Bool-cases, inl, inr, Option, none, some,
  ◌++◌, arith, length, length-append,
}
use primus_project.Base.Outcome.{Result, ok, err}
use primus_project.Machine.Word.{Bytes, le_bytes}
use primus_project.Types.Physics.{encode}
use primus_project.Types.Reaction.Digest.{append_inj}
use primus_project.Core.Run.Post.{Post, Post-weaken, then_run-Post}
use primus_project.Core.Crystal.{
  Crystal, zero_root, density_input, check_proof_of_work, search_nonce, wrapping_suc, flatten,
}
use primus_project.Core.Crystal.Pow.{nonce_after, search_nonce_sound}
use primus_project.Core.Gravity.{vm_temperature}
use primus_project.Core.Engine.{PrimusEngine, Platform, on_storage, finalize_solidification}
use primus_project.Core.Engine.Solidify.{KeepsAtoms, IsAccepted, finalize_solidification-Post}
use primus_project.Core.Mining.{max_nonce_attempts, solve}
use primus_project.Core.Storage.{CoreError, db_flush}

-- The crystal before it got its root.
abbrev pub unrooted : Crystal → Crystal
unrooted c = record c { state_root = zero_root }

nonce_after-root : (k : ℕ) (c : Crystal) → (nonce_after k c).state_root ≡ c.state_root
nonce_after-root zero c = refl
nonce_after-root (suc k) c = nonce_after-root k (record c { nonce = wrapping_suc c.nonce })

-- What ends two equal strings alike begins them alike.
append_before : (xs ys zs : Bytes) → xs ++ zs ≡ ys ++ zs → xs ≡ ys
append_before xs ys zs e =
    (append_inj xs ys zs zs (omega (arith, length-append xs zs, length-append ys zs, ap length e))
      e).0

-- The bytes that are hashed say what the root is.
density_input-root :
    (c : Crystal) → density_input c ≡ density_input (unrooted c) → c.state_root ≡ zero_root
unfolding density_input
density_input-root c e =
    let after =
      flatten c.reactions
      ++ (le_bytes 8 (encode c.cumulative_energy)
          ++ (le_bytes 8 (encode c.final_temp) ++ le_bytes 8 (encode c.final_entropy))) in
    append_before c.state_root zero_root after
      (append_inj (le_bytes 8 c.nonce) (le_bytes 8 c.nonce) _ _ refl
        (append_inj (le_bytes 8 c.timestamp) (le_bytes 8 c.timestamp) _ _ refl
          (append_inj c.prev_hash c.prev_hash _ _ refl
            (append_inj (le_bytes 8 c.index) (le_bytes 8 c.index) _ _ refl e).1).1).1).1

module _ {D S E : Type 0} (p : Platform D S E) where
  abbrev pub NoClaim : PrimusEngine D S → Type 0
  NoClaim e = Unit

  no_claim :
      {A : Type 0} (r : Result (CoreError E) A × PrimusEngine D S) → Post NoClaim (λ _ _. Unit) r
  no_claim (err _, s) = tt
  no_claim (ok _, s) = tt

  -- A mined crystal: it has no root while it meets the target of the engine `e`, and what is hashed
  -- once it has one is something else. No crystal: the search for a nonce fails, and the engine is as it
  -- was.
  abbrev pub IsWorked : PrimusEngine D S → Crystal → Option Crystal → PrimusEngine D S → Type 0
  IsWorked e crystal none e' =
      ((search_nonce p.hashes (vm_temperature e.chamber.temperature) e.epoch_difficulty
          max_nonce_attempts crystal).0
        ≡ false)
      × (e' ≡ e)
  IsWorked e crystal (some c) e' =
      (check_proof_of_work p.hashes (unrooted c) (vm_temperature e.chamber.temperature)
          e.epoch_difficulty
        ≡ true)
      × (c.state_root ≢ zero_root → density_input c ≢ density_input (unrooted c))

  IsWorked-from :
      (crystal found c : Crystal) (e e' : PrimusEngine D S)
      → found.state_root ≡ zero_root
      → check_proof_of_work p.hashes found (vm_temperature e.chamber.temperature) e.epoch_difficulty
        ≡ true
      → record c { state_root = found.state_root } ≡ found
      → IsWorked e crystal (some c) e'
  IsWorked-from crystal found c e e' empty good rooted =
      let bare : unrooted c ≡ found = ap (λ r. record c { state_root = r }) (sym empty) ∙ rooted in
      (
        ap
              (λ x.
                check_proof_of_work p.hashes x (vm_temperature e.chamber.temperature)
                  e.epoch_difficulty)
              bare
            ∙ good,
        λ given alike. given (density_input-root c alike),
      )

  solve-found :
      (crystal : Crystal) (e : PrimusEngine D S)
      → crystal.state_root ≡ zero_root
      → (search_nonce p.hashes
          (vm_temperature e.chamber.temperature)
          e.epoch_difficulty
          max_nonce_attempts
          crystal).0
        ≡ true
      → Post NoClaim (IsWorked e crystal) (solve p crystal e)
  unfolding solve
  solve-found crystal e empty solved =
      let temp = vm_temperature e.chamber.temperature in
      let s =
        search_nonce_sound p.hashes temp e.epoch_difficulty max_nonce_attempts crystal solved in
      let found = (search_nonce p.hashes temp e.epoch_difficulty max_nonce_attempts crystal).1 in
      rw solved (
        then_run-Post NoClaim (λ c s'. record c { state_root = found.state_root } ≡ found)
          (IsWorked e crystal) (finalize_solidification p found e) _
          (Post-weaken (KeepsAtoms p e found) NoClaim (IsAccepted p e found) _
            (finalize_solidification p found e) (finalize_solidification-Post p e found)
            (λ s' kept. tt) (λ c s' accepted. accepted.5))
          (λ c s' rooted.
            then_run-Post NoClaim (λ _ _. Unit) (IsWorked e crystal)
              (on_storage p (db_flush p.sled) s') _ (no_claim (on_storage p (db_flush p.sled) s'))
              (λ _ s'' _.
                IsWorked-from crystal found c e s''
                  (ap (λ x. x.state_root) s.2 ∙ nonce_after-root s.0 crystal ∙ empty)
                  (ap (λ x. check_proof_of_work p.hashes x temp e.epoch_difficulty) s.2 ∙ s.3)
                  rooted)))

  -- The work of a crystal that is mined meets the target of the engine's temperature and difficulty,
  -- for the crystal without its root. Those who verify it hash its root too: other bytes, unless the
  -- root is zero. Where no crystal is mined, the search for a nonce has failed, and the engine is as
  -- it was. This is for a crystal that has no root yet.
  pub solve-IsWorked :
      (crystal : Crystal) (e : PrimusEngine D S)
      → crystal.state_root ≡ zero_root
      → Post NoClaim (IsWorked e crystal) (solve p crystal e)
  unfolding solve
  solve-IsWorked crystal e empty =
      elim (Bool-cases
        (search_nonce p.hashes (vm_temperature e.chamber.temperature) e.epoch_difficulty
          max_nonce_attempts crystal).0) [
            | inl solved ↦ solve-found crystal e empty solved
            | inr unsolved ↦ rw unsolved (unsolved, refl)
          ]
