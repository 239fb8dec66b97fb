-- ===== src/Types/Atom.antt =====
-- primus-types/src/atom.rs.
use primus_project.Base.{ℕ, [], ◌∷◌, replicate}
use primus_project.Machine.Word.{Bytes}
use primus_project.Machine.Float.{F32}

pub data Element : Type 0 where
  hydrogen carbon oxygen gold : Element

-- 2.20, 2.55, 3.44 and 2.54.
unfoldable pub initial_charge : Element → F32
initial_charge hydrogen = 0x400ccccd
initial_charge carbon = 0x40233333
initial_charge oxygen = 0x405c28f6
initial_charge gold = 0x40228f5c

unfoldable pub base_mass : Element → ℕ
base_mass hydrogen = 1_000
base_mass carbon = 6_000
base_mass oxygen = 4_000
base_mass gold = 50_000

pub data QuantumState : Type 0 where
  stable : QuantumState
  entangled : Bytes → QuantumState
  superposition : ℕ → QuantumState

pub record Atom : Type 0 where
  pub public_key : Bytes
  pub element : Element
  pub neutron_count : ℕ
  pub mass : ℕ
  pub charge : F32
  pub last_reaction_hash : Bytes
  pub last_active_index : ℕ
  pub nonce : ℕ
  pub quantum_state : QuantumState

abbrev pub zero_hash : Bytes
zero_hash = replicate 32 0

unfoldable pub new_materialized : Bytes → Element → Atom
unfolding initial_charge
new_materialized public_key element = record {
  public_key = public_key;
  element = element;
  neutron_count = 0;
  mass = 0;
  charge = initial_charge element;
  last_reaction_hash = zero_hash;
  last_active_index = 0;
  nonce = 0;
  quantum_state = stable;
}

unfoldable pub sender_snapshot : Bytes → Element → ℕ → Bytes → ℕ → ℕ → ℕ → Atom
unfolding initial_charge
sender_snapshot public_key element mass last_reaction_hash nonce neutron_count last_active_index =
    record {
      public_key = public_key;
      element = element;
      neutron_count = neutron_count;
      mass = mass;
      charge = initial_charge element;
      last_reaction_hash = last_reaction_hash;
      last_active_index = last_active_index;
      nonce = nonce;
      quantum_state = stable;
    }

unfoldable pub new_receiver : Bytes → Atom
unfolding new_materialized
new_receiver public_key = new_materialized public_key hydrogen

-- `first().copied().unwrap_or(0)`
abbrev pub first_or_zero : Bytes → ℕ
first_or_zero [] = 0
first_or_zero (b ∷ _) = b

unfoldable pub sector : Atom → ℕ
sector a = first_or_zero a.public_key
