-- ===== src/Examples/Trie.antt =====
-- A store of nodes in a list, and a forged proof.
use primus_project.Base.{◌≡◌, List, [], ◌∷◌, ◌++◌, length, get_elem?, replicate, true}
use primus_project.Base.Outcome.{ok, err}
use primus_project.Base.Ord.{bytes_ord}
use primus_project.Machine.Word.{Bytes}
use primus_project.Types.Atom.{first_or_zero}
use primus_project.Storage.Mpt.{MptNode, store_error, MptStore}
use primus_project.Storage.Mpt.Prove.{verify_proof}
use primus_project.Storage.Mpt.Binding.{forged_exclusion, verify_proof-forged_exclusion}
use primus_project.Examples.Data.{hashes}

-- A node stands under the number of nodes before it.
abbrev pub list_store : MptStore (List MptNode)
list_store = record {
  get_node = λ h s. ok (get_elem? s (first_or_zero h));
  put_node = λ node s. ok (length s ∷ [], s ++ node ∷ []);
  delete_node = λ h s. err store_error;
}

abbrev key_1 : Bytes
key_1 = replicate 32 1

abbrev serialize : MptNode → Bytes
serialize _ = 3 ∷ []

verify_proof-forged_exclusion_example :
    verify_proof hashes serialize (forged_exclusion key_1 (6 ∷ [])) ≡ true
verify_proof-forged_exclusion_example =
    verify_proof-forged_exclusion hashes serialize key_1 (6 ∷ [])
