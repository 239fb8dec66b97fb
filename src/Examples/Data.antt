-- ===== src/Examples/Data.antt =====
-- Two accounts, a state, and reactions between them.
use primus_project.Base.{ℕ, none, some, [], ◌∷◌, if◌then◌else◌, take}
use primus_project.Base.Ord.{same, bytes_ord}
use primus_project.Machine.Word.{Bytes}
use primus_project.Types.Crypto.{Hashes}
use primus_project.Types.Atom.{Atom, hydrogen, stable}
use primus_project.Types.Payload.{Payload}
use primus_project.Types.Reaction.{SignedReaction}
use primus_project.Vm.Context.{StateView, ExecutionContext}

abbrev pub hashes : Hashes
hashes = record { sha3 = λ b. take 4 b; blake3 = λ b. take 4 b }

abbrev pub alice : Bytes
alice = 1 ∷ []

abbrev pub bob : Bytes
bob = 2 ∷ []

abbrev pub architect : Bytes
architect = 9 ∷ []

abbrev pub account : Bytes → ℕ → ℕ → Atom
account public_key mass nonce = record {
  public_key = public_key;
  element = hydrogen;
  neutron_count = 0;
  mass = mass;
  charge = 0x400ccccd;
  last_reaction_hash = 0 ∷ [];
  last_active_index = 0;
  nonce = nonce;
  quantum_state = stable;
}

abbrev pub state : StateView
state = record {
  get_atom = λ k.
      if same k alice
      then some (account alice 1000 3)
      else if same k bob
      then some (account bob 50 0)
      else none;
  load_contract = λ k. some (7 ∷ []);
}

-- A context whose verifier takes the signature 5.
abbrev pub context : ExecutionContext
context = record {
  state = state;
  architect_pk = architect;
  current_temp = 0;
  crystal_index = 5;
  verify = λ pk digest signature. same signature (5 ∷ []);
}

abbrev pub reaction : Payload → SignedReaction
reaction payload = record {
  sender = account alice 1000 3;
  receiver = account bob 50 0;
  reaction_hash = 0 ∷ [];
  energy = 0x3f800000;
  timestamp = 0;
  signature = 5 ∷ [];
  payload = payload;
}
