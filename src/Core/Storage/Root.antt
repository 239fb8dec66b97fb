-- ===== src/Core/Storage/Root.antt =====
-- The root that readers see after a commit.
use primus_project.Base.{ℕ, ◌≡◌, refl, subst, arith, Option, none, some, List, [], ◌∷◌}
use primus_project.Base.Outcome.{Result, ok, err}
use primus_project.Machine.Word.{Bytes}
use primus_project.Collections.BTreeMap.{BTreeMap}
use primus_project.Types.Crypto.{Hashes}
use primus_project.Types.Atom.{Atom}
use primus_project.Storage.Changeset.{Changeset}
use primus_project.Storage.Mpt.{Hash32, MptStore}
use primus_project.Core.Run.{of_option}
use primus_project.Core.Run.Post.{Post, then_run-Post}
use primus_project.Core.Storage.{
  SledDb, Codec, CoreError, serialization_failed, PrimusStorage, of_sled, db_insert, write,
  save_contract, contract_key, atom_key, mpt_root_key, history_key, current_root,
}
use primus_project.Core.Storage.Commit.{
  Update, updates, insert_updates, log_old_root, save_atoms, save_contracts, commit_trie, persist,
  commit_changeset,
}

abbrev NoClaim : {S : Type 0} → S → Type 0
NoClaim s = Unit

abbrev HasRoot : {D S A : Type 0} → Option Hash32 → A → PrimusStorage D S → Type 0
HasRoot r _ s = s.root ≡ r

module _ {D S E : Type 0} (sled : SledDb D E) (r : Option Hash32) where
  of_sled-HasRoot :
      {A : Type 0} (s : PrimusStorage D S) (out : Result E A × D)
      → s.root ≡ r
      → Post NoClaim (HasRoot r) (of_sled out.0, record s { db = out.1 })
  of_sled-HasRoot s (err e, db) has = tt
  of_sled-HasRoot s (ok a, db) has = has

  db_insert-HasRoot :
      (key value : Bytes) (s : PrimusStorage D S)
      → s.root ≡ r
      → Post NoClaim (HasRoot r) (db_insert sled key value s)
  unfolding db_insert
  db_insert-HasRoot key value s has = of_sled-HasRoot s (sled.insert key value s.db) has

  encoded-HasRoot :
      (b : Option Bytes) (s : PrimusStorage D S)
      → s.root ≡ r
      → Post {E = CoreError E} NoClaim (HasRoot r) (of_option serialization_failed b s)
  encoded-HasRoot none s has = tt
  encoded-HasRoot (some b) s has = has

  write-HasRoot :
      {A : Type 0} (codec : Codec A) (key : Bytes) (a : A) (s : PrimusStorage D S)
      → s.root ≡ r
      → Post NoClaim (HasRoot r) (write sled codec key a s)
  unfolding write
  write-HasRoot codec key a s has =
      then_run-Post NoClaim (HasRoot r) (HasRoot r)
        (of_option serialization_failed (codec.serialize a) s) _
        (encoded-HasRoot (codec.serialize a) s has) (λ b s' has'. db_insert-HasRoot key b s' has')

  save_atoms-HasRoot :
      (codec : Codec Atom) (us : List Update) (s : PrimusStorage D S)
      → s.root ≡ r
      → Post NoClaim (HasRoot r) (save_atoms sled codec us s)
  unfolding save_atoms
  save_atoms-HasRoot codec [] s has = has
  save_atoms-HasRoot codec (u ∷ us) s has =
      then_run-Post NoClaim (HasRoot r) (HasRoot r)
        (write sled codec (atom_key u.public_key) u.atom s) _
        (write-HasRoot codec (atom_key u.public_key) u.atom s has)
        (λ _ s' has'. save_atoms-HasRoot codec us s' has')

  save_contracts-HasRoot :
      (contracts : BTreeMap Bytes Bytes) (s : PrimusStorage D S)
      → s.root ≡ r
      → Post NoClaim (HasRoot r) (save_contracts sled contracts s)
  unfolding save_contracts save_contract
  save_contracts-HasRoot [] s has = has
  save_contracts-HasRoot ((hash, code) ∷ contracts) s has =
      then_run-Post NoClaim (HasRoot r) (HasRoot r) (db_insert sled (contract_key hash) code s) _
        (db_insert-HasRoot (contract_key hash) code s has)
        (λ _ s' has'. save_contracts-HasRoot contracts s' has')

-- A commit that succeeds returns the root that readers see after it.
abbrev ReturnsRoot : {D S : Type 0} → Hash32 → PrimusStorage D S → Type 0
ReturnsRoot root s = s.root ≡ some root

module _ {D S E : Type 0} (sled : SledDb D E) (h : Hashes) (codec : Codec Atom)
    (store : MptStore S) where
  persist-ReturnsRoot :
      (changeset : Changeset) (index : ℕ) (us : List Update) (root : Hash32) (s : PrimusStorage D S)
      → s.root ≡ some root
      → Post NoClaim ReturnsRoot (persist sled codec changeset index (us, root) s)
  unfolding persist
  persist-ReturnsRoot changeset index us root s has =
      then_run-Post NoClaim (HasRoot (some root)) ReturnsRoot (save_atoms sled codec us s) _
        (save_atoms-HasRoot sled (some root) codec us s has)
        (λ _ s1 h1.
          then_run-Post NoClaim (HasRoot (some root)) ReturnsRoot
            (save_contracts sled changeset.contracts s1) _
            (save_contracts-HasRoot sled (some root) changeset.contracts s1 h1)
            (λ _ s2 h2.
              then_run-Post NoClaim (HasRoot (some root)) ReturnsRoot
                (db_insert sled mpt_root_key root s2) _
                (db_insert-HasRoot sled (some root) mpt_root_key root s2 h2)
                (λ _ s3 h3.
                  then_run-Post NoClaim (HasRoot (some root)) ReturnsRoot
                    (db_insert sled (history_key index) root s3) _
                    (db_insert-HasRoot sled (some root) (history_key index) root s3 h3)
                    (λ _ s4 h4. h4))))

  claims_nothing :
      {A : Type 0} (r : Result (CoreError E) A × PrimusStorage D S)
      → Post NoClaim (λ _ _. Unit {0}) r
  claims_nothing (err e, s) = tt
  claims_nothing (ok a, s) = tt

  commit_trie-ReturnsRoot :
      (changeset : Changeset) (index : ℕ) (s : PrimusStorage D S)
      → Post NoClaim (λ c s'. ReturnsRoot c.1 s') (commit_trie sled h codec store changeset index s)
  unfolding commit_trie
  commit_trie-ReturnsRoot changeset index s =
      then_run-Post NoClaim (λ _ _. Unit {0}) (λ c s'. ReturnsRoot c.1 s')
        (updates h codec changeset.inner s) _ (claims_nothing _)
        (λ us s1 _.
          then_run-Post NoClaim (λ _ _. Unit {0}) (λ c s'. ReturnsRoot c.1 s')
            (insert_updates store us s1) _ (claims_nothing _)
            (λ _ s2 _.
              then_run-Post NoClaim (λ _ _. Unit {0}) (λ c s'. ReturnsRoot c.1 s')
                (log_old_root sled index s1.mpt_root s2) _ (claims_nothing _) (λ _ s3 _. refl)))

  commit_changeset-Post :
      (changeset : Changeset) (index : ℕ) (s : PrimusStorage D S)
      → Post NoClaim ReturnsRoot (commit_changeset sled h codec store changeset index s)
  unfolding commit_changeset
  commit_changeset-Post changeset index s =
      then_run-Post NoClaim (λ c s'. ReturnsRoot c.1 s') ReturnsRoot
        (commit_trie sled h codec store changeset index s) _
        (commit_trie-ReturnsRoot changeset index s)
        (λ c s1 h1. persist-ReturnsRoot changeset index c.0 c.1 s1 h1)

  pub current_root-commit_changeset :
      (changeset : Changeset) (index : ℕ) (s s' : PrimusStorage D S) (root : Hash32)
      → commit_changeset sled h codec store changeset index s ≡ (ok root, s')
      → current_root s' ≡ root
  unfolding current_root
  current_root-commit_changeset changeset index s s' root done =
      ground
        (arith, subst (Post NoClaim ReturnsRoot) done (commit_changeset-Post changeset index s))
