-- ===== src/Vm/Host.antt =====
-- primus-vm/src/wasm/host.rs and the host functions of wasm/wasmtime_backend.rs. The wasmtime
-- engine runs the contract: here a run is the sequence of its host calls, and each call brings the
-- linear memory that it finds, since the contract writes it between the calls. A word of type i32
-- or i64 is its bit pattern.
pub mod Solvent
use package.primus_project.Base.{
  ℕ, ◌+◌, ◌*◌, ◌-◌, ◌%◌, ◌^◌, Bool, true, false, not, ◌&&◌, ◌||◌, Option, none, some, List, [], ◌∷◌,
  ◌++◌, ltb, leb, ◌==◌, if◌then◌else◌, length, take, drop,
}
use package.primus_project.Base.Outcome.{Result, ok, err}
use package.primus_project.Base.Ord.{same, bytes_ord}
use package.primus_project.Machine.Word.{Bytes, checked_add, saturating_add, saturating_sub}
use package.primus_project.Types.Crypto.{Verifier}
use package.primus_project.Types.Atom.{Atom}
use package.primus_project.Vm.Error.{PvmError}
use package.primus_project.Vm.Context.{StateView}
use package.primus_project.Vm.Gas.{GasMeter, charge, remaining}

-- From, to, amount.
pub record Transfer : Type 0 where
  pub from : Bytes
  pub to : Bytes
  pub amount : ℕ

pub record ContractEvent : Type 0 where
  pub topic : Bytes
  pub data_of : Bytes

pub record ContractDelta : Type 0 where
  pub transfers : List Transfer
  pub events : List ContractEvent

abbrev pub empty_delta : ContractDelta
empty_delta = record { transfers = []; events = [] }

pub record HostState : Type 0 where
  pub atoms : StateView
  pub caller_pk : Bytes
  pub crystal_index : ℕ
  pub delta : ContractDelta
  pub gas : GasMeter
  pub architect_pk : Bytes
  pub verify : Verifier

-- -1 as an i64 and as an i32.
abbrev pub fail_i64 : ℕ
fail_i64 = 0xffff_ffff_ffff_ffff

abbrev pub fail_i32 : ℕ
fail_i32 = 0xffff_ffff

abbrev is_negative_i32 : ℕ → Bool
is_negative_i32 x = leb 0x8000_0000 x

abbrev pub is_positive_i64 : ℕ → Bool
is_positive_i64 x = ltb 0 x && ltb x 0x8000_0000_0000_0000

unfoldable pub read_wasm_bytes : Bytes → ℕ → ℕ → Option Bytes
read_wasm_bytes mem ptr len =
    if is_negative_i32 ptr || is_negative_i32 len then none else elim (checked_add ptr len) [
      | none ↦ none
      | some end ↦ if leb end (length mem) then some (take len (drop ptr mem)) else none
    ]

-- The memory after the write, if it is in bounds.
unfoldable pub write_wasm_bytes : Bytes → ℕ → Bytes → Option Bytes
write_wasm_bytes mem ptr bytes =
    if is_negative_i32 ptr then none else elim (checked_add ptr (length bytes)) [
      | none ↦ none
      | some end ↦
          if leb end (length mem) then some (take ptr mem ++ (bytes ++ drop end mem)) else none
    ]

-- A module without an exported memory has nothing to read.
unfoldable pub read_exported : Option Bytes → ℕ × ℕ → Option Bytes
read_exported none span = none
read_exported (some mem) span = read_wasm_bytes mem span.0 span.1

-- `charge_gas`: whether the meter took the charge. It counts the charge in any case.
unfoldable pub charge_gas : ℕ → HostState → Bool × HostState
charge_gas amount s =
    let (result, g) = charge amount s.gas in
    (elim result [ ok _ ↦ true | err _ ↦ false ], record s { gas = g })

-- `if charge(cost).is_err() { return failure; }`
unfoldable pub metered {ℓ} :
    {A : Type ℓ} → ℕ → A → (HostState → A × HostState) → HostState → A × HostState
metered cost failure k s =
    let (paid, s') = charge_gas cost s in if paid then k s' else (failure, s')

-- `match value { Some(a) => a, None => return failure }`
unfoldable pub or_return {ℓ κ} : {A : Type ℓ} {B : Type κ} → Option A → B → (A → B) → B
or_return none failure k = failure
or_return (some a) failure k = k a

unfoldable pub query_atom : ℕ → (Atom → ℕ) → Option Bytes → ℕ × ℕ → HostState → ℕ × HostState
query_atom cost f mem pk = metered cost fail_i64 λ s.
    or_return (read_exported mem pk) (fail_i64, s)
      λ key. (or_return (s.atoms.get_atom key) fail_i64 f, s)

unfoldable pub get_atom_mass : Option Bytes → ℕ × ℕ → HostState → ℕ × HostState
get_atom_mass = query_atom 100 (λ (a : Atom). a.mass)

unfoldable pub get_atom_nonce : Option Bytes → ℕ × ℕ → HostState → ℕ × HostState
get_atom_nonce = query_atom 100 (λ (a : Atom). a.nonce)

unfoldable pub get_crystal_index : HostState → ℕ × HostState
get_crystal_index = metered 10 fail_i64 λ s. (s.crystal_index, s)

-- Writes the key into the memory, and returns its length with the memory.
unfoldable pub get_caller_pk : Option Bytes → ℕ → HostState → (ℕ × Option Bytes) × HostState
get_caller_pk mem ptr =
    metered 50 (fail_i32, mem)
      λ s.
        or_return mem ((fail_i32, mem), s)
          λ m.
            or_return (write_wasm_bytes m ptr s.caller_pk) ((fail_i32, mem), s)
              λ m'. ((length s.caller_pk % 2 ^ 32, some m'), s)

-- The sum of the pending transfers out of an account.
unfoldable pub pending_out : Bytes → List Transfer → ℕ → ℕ
pending_out pk [] acc = acc
pending_out pk (t ∷ ts) acc =
    pending_out pk ts (if same t.from pk then saturating_add acc t.amount else acc)

unfoldable pub current_mass : HostState → Bytes → ℕ
current_mass s pk =
    saturating_sub (or_return (s.atoms.get_atom pk) 0 (λ (a : Atom). a.mass))
      (pending_out pk s.delta.transfers 0)

unfoldable pub push_transfer : Bytes → Bytes → ℕ → HostState → HostState
push_transfer from to amount s = record s {
  delta = record s.delta {
    transfers = s.delta.transfers ++ record { from = from; to = to; amount = amount } ∷ [];
  };
}

-- The checks of `transfer_mass` on the keys that it read.
unfoldable pub transfer_between : Bytes → Bytes → ℕ → HostState → ℕ × HostState
transfer_between from to amount s =
    if not (same from s.caller_pk)
    then (2, s)
    else if ltb (current_mass s from) amount
    then (1, s)
    else (0, push_transfer from to amount s)

unfoldable pub transfer_mass : Option Bytes → ℕ × ℕ → ℕ × ℕ → ℕ → HostState → ℕ × HostState
transfer_mass mem from to amount = metered 500 4 λ s.
    if not (is_positive_i64 amount)
    then (3, s)
    else or_return (read_exported mem from) (3, s)
        λ from_pk.
          or_return (read_exported mem to) (3, s) λ to_pk. transfer_between from_pk to_pk amount s

abbrev pub max_contract_events : ℕ
max_contract_events = 64

abbrev pub max_event_size_bytes : ℕ
max_event_size_bytes = 1024

unfoldable pub push_event : Bytes → Bytes → HostState → ℕ × HostState
push_event topic data_of s =
    if ltb max_event_size_bytes (length topic + length data_of) then (2, s) else (
      0,
      record s {
        delta = record s.delta {
          events = s.delta.events ++ record { topic = topic; data_of = data_of } ∷ [];
        };
      },
    )

unfoldable pub emit_event : Option Bytes → ℕ × ℕ → ℕ × ℕ → HostState → ℕ × HostState
emit_event mem topic data_of = metered 200 1 λ s.
    if leb max_contract_events (length s.delta.events)
    then (2, s)
    else or_return (read_exported mem topic) (3, s)
        λ t. or_return (read_exported mem data_of) (3, s) λ d. push_event t d s

unfoldable pub verify_signature : Option Bytes → ℕ × ℕ → ℕ × ℕ → ℕ × ℕ → HostState → ℕ × HostState
verify_signature mem pk msg sig = metered 5000 fail_i32 λ s.
    or_return (read_exported mem pk) (fail_i32, s)
      λ p.
        or_return (read_exported mem msg) (fail_i32, s)
          λ m.
            or_return (read_exported mem sig) (fail_i32, s)
              λ g. (if s.verify p m g then 1 else 0, s)

unfoldable pub remaining_gas : HostState → ℕ × HostState
remaining_gas s = (remaining s.gas, s)

-- The `ResourceLimiter`: at most 256 pages of memory and 1024 table entries.
unfoldable pub memory_growing : ℕ → Bool
memory_growing desired = not (ltb (256 * 65536) desired)

unfoldable pub table_growing : ℕ → Bool
table_growing desired = not (ltb 1024 desired)

pub data Call : Type 0 where
  atom_mass : ℕ × ℕ → Call
  atom_nonce : ℕ × ℕ → Call
  crystal : Call
  caller : ℕ → Call
  transfer : ℕ × ℕ → ℕ × ℕ → ℕ → Call
  event : ℕ × ℕ → ℕ × ℕ → Call
  signature : ℕ × ℕ → ℕ × ℕ → ℕ × ℕ → Call
  gas_left : Call

-- The session after one call.
unfoldable pub run_call : Option Bytes → Call → HostState → HostState
run_call mem (atom_mass pk) s = (get_atom_mass mem pk s).1
run_call mem (atom_nonce pk) s = (get_atom_nonce mem pk s).1
run_call mem crystal s = (get_crystal_index s).1
run_call mem (caller ptr) s = (get_caller_pk mem ptr s).1
run_call mem (transfer from to amount) s = (transfer_mass mem from to amount s).1
run_call mem (event topic data_of) s = (emit_event mem topic data_of s).1
run_call mem (signature pk msg sig) s = (verify_signature mem pk msg sig s).1
run_call mem gas_left s = (remaining_gas s).1

unfoldable pub run_calls : List (Option Bytes × Call) → HostState → HostState
run_calls [] s = s
run_calls (c ∷ cs) s = run_calls cs (run_call c.0 c.1 s)
