-- ===== src/Core/Run/Post.antt =====
-- Postconditions of calls: `Fails` of the state that an error leaves, `Done` of a result and the state
-- with it.
use primus_project.Base.Outcome.{Result, ok, err}
use primus_project.Core.Run.{Run, then_run}

abbrev pub Post : {E S A : Type 0} → (S → Type 0) → (A → S → Type 0) → Result E A × S → Type 0
Post Fails Done (err _, s) = Fails s
Post Fails Done (ok a, s) = Done a s

module _ {E S A B : Type 0} (Fails : S → Type 0) where
  pub then_run-Post :
      (Done : A → S → Type 0) (After : B → S → Type 0) (r : Result E A × S) (next : A → Run E S B)
      → Post Fails Done r
      → ((a : A) (s : S) → Done a s → Post Fails After (next a s))
      → Post Fails After (then_run r next)
  then_run-Post Done After (err e, s) next done step = done
  then_run-Post Done After (ok a, s) next done step = step a s done

pub Post-weaken :
    {E S A : Type 0} (Fails Fails' : S → Type 0) (Done Done' : A → S → Type 0) (r : Result E A × S)
    → Post Fails Done r
    → ((s : S) → Fails s → Fails' s)
    → ((a : A) (s : S) → Done a s → Done' a s)
    → Post Fails' Done' r
Post-weaken Fails Fails' Done Done' (err e, s) post f d = f s post
Post-weaken Fails Fails' Done Done' (ok a, s) post f d = d a s post
