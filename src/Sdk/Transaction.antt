-- ===== src/Sdk/Transaction.antt =====
-- primus-sdk/src/transaction/mod.rs: the transactions that a wallet signs. The clock, which
-- can fail, is an argument.
pub mod Accepted
use package.primus_project.Base.{ℕ, Bool, not, Option, none, some, [], ltb, ◌==◌}
use package.primus_project.Base.Outcome.{Result, ok, err, ◌>>=◌, ◌>>◌, reject_if, ok_or}
use package.primus_project.Machine.Word.{Bytes, checked_add}
use package.primus_project.Machine.Float.{F32, of_u64_f32}
use package.primus_project.Types.Crypto.{Hashes}
use package.primus_project.Types.Atom
use package.primus_project.Types.Atom.{Atom, Element, QuantumState, zero_hash}
use package.primus_project.Types.Payload
use package.primus_project.Types.Reaction.{SignedReaction, compute_reaction_hash, signing_digest}

abbrev pub sdk_min_fee : ℕ
sdk_min_fee = 10

-- The key pair of a wallet, whose signatures are those of the crate ml-dsa.
pub record Wallet : Type 0 where
  pub public_key : Bytes
  pub sign : Bytes → Bytes

pub data AtomElement : Type 0 where
  hydrogen : AtomElement
  carbon : AtomElement
  oxygen : AtomElement
  gold : AtomElement

pub data QuantumLogicSnapshot : Type 0 where
  stable : QuantumLogicSnapshot
  entangled : Bytes → QuantumLogicSnapshot
  superposition : ℕ → QuantumLogicSnapshot

pub record AtomSnapshot : Type 0 where
  pub public_key : Bytes
  pub element : AtomElement
  pub neutron_count : ℕ
  pub mass : ℕ
  pub charge : F32
  pub last_reaction_hash : Bytes
  pub last_active_index : ℕ
  pub nonce : ℕ
  pub quantum_state : QuantumLogicSnapshot

-- 2.20, 2.55, 3.44 and 2.54.
unfoldable pub charge_of : AtomElement → F32
charge_of hydrogen = 0x400ccccd
charge_of carbon = 0x40233333
charge_of oxygen = 0x405c28f6
charge_of gold = 0x40228f5c

unfoldable pub sender_snapshot : Bytes → ℕ → Bytes → ℕ → AtomElement → AtomSnapshot
sender_snapshot public_key mass last_reaction_hash nonce element = record {
  public_key = public_key;
  element = element;
  neutron_count = 0;
  mass = mass;
  charge = charge_of element;
  last_reaction_hash = last_reaction_hash;
  last_active_index = 0;
  nonce = nonce;
  quantum_state = stable;
}

unfoldable pub new_receiver : Bytes → AtomSnapshot
new_receiver public_key = sender_snapshot public_key 0 zero_hash 0 hydrogen

pub data SdkPayload : Type 0 where
  generic : SdkPayload
  transfer : ℕ → SdkPayload
  unknown : SdkPayload

pub record Transaction : Type 0 where
  pub sender : AtomSnapshot
  pub receiver : AtomSnapshot
  pub reaction_hash : Bytes
  pub energy : F32
  pub timestamp : ℕ
  pub signature : Bytes
  pub payload : SdkPayload

unfoldable pub map_element : AtomElement → Element
map_element hydrogen = Atom.hydrogen
map_element carbon = Atom.carbon
map_element oxygen = Atom.oxygen
map_element gold = Atom.gold

unfoldable pub map_quantum : QuantumLogicSnapshot → QuantumState
map_quantum stable = Atom.stable
map_quantum (entangled partner) = Atom.entangled partner
map_quantum (superposition n) = Atom.superposition n

unfoldable pub make_atom : AtomSnapshot → Atom
make_atom snap = record {
  public_key = snap.public_key;
  element = map_element snap.element;
  neutron_count = snap.neutron_count;
  mass = snap.mass;
  charge = snap.charge;
  last_reaction_hash = snap.last_reaction_hash;
  last_active_index = snap.last_active_index;
  nonce = snap.nonce;
  quantum_state = map_quantum snap.quantum_state;
}

unfoldable pub map_payload : SdkPayload → Payload.Payload
map_payload generic = Payload.generic
map_payload (transfer amount) = Payload.transfer amount
map_payload unknown = Payload.generic

-- What `to_bytes` serialises.
unfoldable pub to_reaction : Transaction → SignedReaction
to_reaction tx = record {
  sender = make_atom tx.sender;
  receiver = make_atom tx.receiver;
  reaction_hash = tx.reaction_hash;
  energy = tx.energy;
  timestamp = tx.timestamp;
  signature = tx.signature;
  payload = map_payload tx.payload;
}

-- `rkyv::to_bytes` is an argument.
unfoldable pub to_bytes : (SignedReaction → Option Bytes) → Transaction → Option Bytes
to_bytes serialize tx = serialize (to_reaction tx)

pub record TransactionBuilder : Type 0 where
  pub wallet : Wallet
  pub recipient_pk : Option Bytes
  pub amount : ℕ
  pub fee : ℕ
  pub sender_mass : ℕ
  pub sender_last_hash : Bytes
  pub sender_nonce : ℕ
  pub sender_element : AtomElement

abbrev pub new_builder : Wallet → TransactionBuilder
new_builder wallet = record {
  wallet = wallet;
  recipient_pk = none;
  amount = 0;
  fee = sdk_min_fee;
  sender_mass = 0;
  sender_last_hash = zero_hash;
  sender_nonce = 0;
  sender_element = hydrogen;
}

unfoldable pub recipient : Bytes → TransactionBuilder → TransactionBuilder
recipient pk b = record b { recipient_pk = some pk }

unfoldable pub with_amount : ℕ → TransactionBuilder → TransactionBuilder
with_amount amount b = record b { amount = amount }

unfoldable pub with_fee : ℕ → TransactionBuilder → TransactionBuilder
with_fee fee b = record b { fee = fee }

unfoldable pub with_sender_mass : ℕ → TransactionBuilder → TransactionBuilder
with_sender_mass mass b = record b { sender_mass = mass }

unfoldable pub with_sender_last_hash : Bytes → TransactionBuilder → TransactionBuilder
with_sender_last_hash hash b = record b { sender_last_hash = hash }

unfoldable pub with_sender_nonce : ℕ → TransactionBuilder → TransactionBuilder
with_sender_nonce nonce b = record b { sender_nonce = nonce }

unfoldable pub with_sender_element : AtomElement → TransactionBuilder → TransactionBuilder
with_sender_element element b = record b { sender_element = element }

pub data BuildError : Type 0 where
  recipient_required : BuildError
  zero_amount : BuildError
  fee_too_low : ℕ → BuildError
  cost_overflows : BuildError
  insufficient_mass : ℕ → ℕ → BuildError
  clock_error : BuildError

-- The reaction whose digest is signed.
unfoldable pub types_rx : TransactionBuilder → Bytes → SignedReaction
types_rx b recipient_pk = record {
  sender = record {
    public_key = b.wallet.public_key;
    element = map_element b.sender_element;
    neutron_count = 0;
    mass = b.sender_mass;
    charge = 0;
    last_reaction_hash = b.sender_last_hash;
    last_active_index = 0;
    nonce = b.sender_nonce;
    quantum_state = Atom.stable;
  };
  receiver = record {
    public_key = recipient_pk;
    element = Atom.hydrogen;
    neutron_count = 0;
    mass = 0;
    charge = 0;
    last_reaction_hash = zero_hash;
    last_active_index = 0;
    nonce = 0;
    quantum_state = Atom.stable;
  };
  reaction_hash = zero_hash;
  energy = of_u64_f32 b.fee;
  timestamp = 0;
  signature = [];
  payload = Payload.transfer b.amount;
}

-- What follows the guards.
unfoldable pub signed : Hashes → ℕ → TransactionBuilder → Bytes → Transaction
signed h now b recipient_pk =
    let rx = types_rx b recipient_pk in
    record {
      sender =
          sender_snapshot b.wallet.public_key b.sender_mass b.sender_last_hash b.sender_nonce
            b.sender_element;
      receiver = new_receiver recipient_pk;
      reaction_hash = compute_reaction_hash h rx;
      energy = of_u64_f32 b.fee;
      timestamp = now;
      signature = b.wallet.sign (signing_digest h rx);
      payload = transfer b.amount;
    }

unfoldable pub build : Hashes → Option ℕ → TransactionBuilder → Result BuildError Transaction
build h clock b = do
  recipient_pk ← ok_or b.recipient_pk recipient_required
  reject_if (b.amount == 0) zero_amount
  reject_if (ltb b.fee sdk_min_fee) (fee_too_low b.fee)
  total_cost ← ok_or (checked_add b.amount b.fee) cost_overflows
  reject_if (ltb b.sender_mass total_cost) (insufficient_mass b.sender_mass total_cost)
  now ← ok_or clock clock_error
  ok (signed h now b recipient_pk)
