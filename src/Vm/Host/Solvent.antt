-- ===== src/Vm/Host/Solvent.antt =====
-- What a contract can ask for in one run.
use primus_project.Base.{
  ℕ, Bool, true, false, not, ltb, leb, ◌<◌, if◌then◌else◌, Bool-cases, inl, inr, sym, ◌+◌, ◌-◌, ◌≤◌,
  ◌≡◌, ◌∙◌, min, refl, subst, Option, none, some, List, [], ◌∷◌, ◌++◌, length, arith, length-append,
}
use primus_project.Base.Ord.{same, same_iff, bytes_ord}
use primus_project.Machine.Word.{Bytes, u64_max}
use primus_project.Vm.Context.{StateView}
use primus_project.Vm.Pvm.Ledger.{mass_or_zero}
use primus_project.Vm.Host.{
  Transfer, ContractEvent, ContractDelta, HostState, Call, is_positive_i64, metered, or_return,
  charge_gas, read_exported, query_atom, get_atom_mass, get_atom_nonce, get_crystal_index,
  get_caller_pk, pending_out, current_mass, push_transfer, transfer_between, transfer_mass,
  push_event, emit_event, verify_signature, remaining_gas, run_call, run_calls, max_contract_events,
  max_event_size_bytes, write_wasm_bytes, atom_mass, atom_nonce, crystal, caller, transfer, event,
  signature, gas_left,
}

-- The mass of the caller in the state that the run reads.
abbrev pub caller_mass : HostState → ℕ
caller_mass s = mass_or_zero (s.atoms.get_atom s.caller_pk)

abbrev pub spent : List Transfer → ℕ
spent [] = 0
spent (t ∷ ts) = t.amount + spent ts

-- Every transfer takes a positive amount from `pk`.
abbrev pub AllFrom : Bytes → List Transfer → Type 0
AllFrom pk [] = Unit
AllFrom pk (t ∷ ts) = ((t.from ≡ pk) × (0 < t.amount)) × AllFrom pk ts

abbrev pub AllSmall : List ContractEvent → Type 0
AllSmall [] = Unit
AllSmall (e ∷ es) = (length e.topic + length e.data_of ≤ max_event_size_bytes) × AllSmall es

-- What a run may ask for: only transfers from its caller, in all no more than the caller's mass,
-- and few and small events.
pub record IsAllowed (atoms : StateView) (caller_pk : Bytes) (delta : ContractDelta) : Type 0 where
  pub own : AllFrom caller_pk delta.transfers
  pub within : spent delta.transfers ≤ mass_or_zero (atoms.get_atom caller_pk)
  pub few : length delta.events ≤ max_contract_events
  pub small : AllSmall delta.events

abbrev pub IsSolvent : HostState → Type 0
IsSolvent s = IsAllowed s.atoms s.caller_pk s.delta × (caller_mass s ≤ u64_max)

spent-append : (ts us : List Transfer) → spent (ts ++ us) ≡ spent ts + spent us
spent-append [] us = omega arith
spent-append (t ∷ ts) us = omega (arith, spent-append ts us)

AllFrom-append :
    (pk : Bytes) (ts us : List Transfer) → AllFrom pk ts → AllFrom pk us → AllFrom pk (ts ++ us)
AllFrom-append pk [] us p q = q
AllFrom-append pk (t ∷ ts) us p q = (p.0, AllFrom-append pk ts us p.1 q)

AllSmall-append : (es fs : List ContractEvent) → AllSmall es → AllSmall fs → AllSmall (es ++ fs)
AllSmall-append [] fs p q = q
AllSmall-append (e ∷ es) fs p q = (p.0, AllSmall-append es fs p.1 q)

pending_out-spent :
    (pk : Bytes) (ts : List Transfer) (acc : ℕ)
    → acc ≤ u64_max
    → AllFrom pk ts
    → pending_out pk ts acc ≡ min (acc + spent ts) u64_max
unfolding pending_out
pending_out-spent pk [] acc room own = omega arith
pending_out-spent pk (t ∷ ts) acc room own = ground (
  arith,
  pending_out-spent pk ts (min (acc + t.amount) u64_max) (omega arith) own.1,
  (same_iff t.from pk).1 own.0.0,
)

current_mass-spent :
    (s : HostState)
    → AllFrom s.caller_pk s.delta.transfers
    → current_mass s s.caller_pk ≡ caller_mass s - min (spent s.delta.transfers) u64_max
unfolding current_mass or_return
current_mass-spent s own =
    ground (arith, pending_out-spent s.caller_pk s.delta.transfers 0 (omega arith) own)

charge_gas-IsSolvent :
    (amount : ℕ) (s : HostState) → IsSolvent s → IsSolvent (charge_gas amount s).1
unfolding charge_gas
charge_gas-IsSolvent amount s p = p

-- A result of a host function that leaves a solvent run.
record Leaves {ℓ} {A : Type ℓ} (x : A × HostState) : Type ℓ where
  pub solvent : IsSolvent x.1

abbrev keep {ℓ} : {A : Type ℓ} {a : A} {s : HostState} → IsSolvent s → Leaves (a, s)
keep p = record { solvent = p }

metered-Leaves {ℓ} :
    {A : Type ℓ} (cost : ℕ) (failure : A) (k : HostState → A × HostState)
    → ((s : HostState) → IsSolvent s → Leaves (k s))
    → (s : HostState) → IsSolvent s
    → Leaves (metered cost failure k s)
unfolding metered
metered-Leaves cost failure k step s p =
    let charged = charge_gas-IsSolvent cost s p in
    elim (Bool-cases (charge_gas cost s).0) [
      | inl paid ↦ rw paid (step (charge_gas cost s).1 charged)
      | inr unpaid ↦ rw unpaid (keep charged)
    ]

or_return-Leaves {ℓ κ} :
    {A : Type ℓ} {B : Type κ} (o : Option A) (failure : B × HostState) (k : A → B × HostState)
    → Leaves failure
    → ((a : A) → Leaves (k a))
    → Leaves (or_return o failure k)
unfolding or_return
or_return-Leaves none failure k p step = p
or_return-Leaves (some a) failure k p step = step a

if-Leaves {ℓ} :
    {A : Type ℓ} (b : Bool) (x y : A × HostState)
    → (b ≡ true → Leaves x)
    → (b ≡ false → Leaves y)
    → Leaves (if b then x else y)
if-Leaves true x y p q = p refl
if-Leaves false x y p q = q refl

push_transfer-IsSolvent :
    (to : Bytes) (amount : ℕ) (s : HostState)
    → 0 < amount
    → amount ≤ current_mass s s.caller_pk
    → IsSolvent s
    → IsSolvent (push_transfer s.caller_pk to amount s)
unfolding push_transfer
push_transfer-IsSolvent to amount s positive enough (p, word) =
    let last : List Transfer = record { from = s.caller_pk; to = to; amount = amount } ∷ [] in
    (
      record {
        own = AllFrom-append s.caller_pk s.delta.transfers last p.own ((refl, positive), tt);
        within =
            omega
              (arith, current_mass-spent s p.own, p.within, spent-append s.delta.transfers last);
        few = p.few;
        small = p.small;
      },
      word,
    )

push_event-Leaves :
    (topic data_of : Bytes) (s : HostState)
    → length s.delta.events < max_contract_events
    → IsSolvent s
    → Leaves (push_event topic data_of s)
unfolding push_event
push_event-Leaves topic data_of s room (p, word) =
    if-Leaves (ltb max_event_size_bytes (length topic + length data_of)) _ _ (λ _. keep (p, word))
      λ fits.
        let last : List ContractEvent = record { topic = topic; data_of = data_of } ∷ [] in
        keep (
          record {
            own = p.own;
            within = p.within;
            few = omega (arith, length-append s.delta.events last);
            small = AllSmall-append s.delta.events last p.small (ground arith, tt);
          },
          word,
        )

transfer_between-Leaves :
    (from to : Bytes) (amount : ℕ) (s : HostState)
    → 0 < amount
    → IsSolvent s
    → Leaves (transfer_between from to amount s)
unfolding transfer_between
transfer_between-Leaves from to amount s positive p =
    if-Leaves (not (same from s.caller_pk)) _ _ (λ _. keep p)
      λ own.
        if-Leaves (ltb (current_mass s from) amount) _ _ (λ _. keep p)
          λ enough.
            let is_caller : from ≡ s.caller_pk = ground (arith, same_iff from s.caller_pk) in
            let funds : amount ≤ current_mass s from = ground arith in
            keep (
              subst (λ f. IsSolvent (push_transfer f to amount s)) (sym is_caller)
                (push_transfer-IsSolvent to amount s positive
                  (subst (λ f. amount ≤ current_mass s f) is_caller funds) p))

run_call-IsSolvent :
    (mem : Option Bytes) (c : Call) (s : HostState) → IsSolvent s → IsSolvent (run_call mem c s)
unfolding run_call query_atom get_atom_mass get_atom_nonce get_crystal_index get_caller_pk
    transfer_mass emit_event verify_signature remaining_gas
run_call-IsSolvent mem (atom_mass pk) s0 p0 =
    let done : Leaves (get_atom_mass mem pk s0) =
      metered-Leaves _ _ _
        (λ s p. or_return-Leaves (read_exported mem pk) _ _ (keep p) (λ _. keep p)) s0 p0 in
    done.solvent
run_call-IsSolvent mem (atom_nonce pk) s0 p0 =
    let done : Leaves (get_atom_nonce mem pk s0) =
      metered-Leaves _ _ _
        (λ s p. or_return-Leaves (read_exported mem pk) _ _ (keep p) (λ _. keep p)) s0 p0 in
    done.solvent
run_call-IsSolvent mem crystal s0 p0 =
    let done : Leaves (get_crystal_index s0) = metered-Leaves _ _ _ (λ s p. keep p) s0 p0 in
    done.solvent
run_call-IsSolvent mem (caller ptr) s0 p0 =
    let done : Leaves (get_caller_pk mem ptr s0) =
      metered-Leaves _ _ _
        (λ s p.
          or_return-Leaves mem _ _ (keep p)
            λ m. or_return-Leaves (write_wasm_bytes m ptr s.caller_pk) _ _ (keep p) (λ _. keep p))
        s0 p0 in
    done.solvent
run_call-IsSolvent mem (transfer from to amount) s0 p0 =
    let done : Leaves (transfer_mass mem from to amount s0) =
      metered-Leaves _ _ _
        (λ s p.
          if-Leaves (not (is_positive_i64 amount)) _ _ (λ _. keep p)
            λ positive. or_return-Leaves (read_exported mem from) _ _ (keep p) λ from_pk.
              or_return-Leaves (read_exported mem to) _ _ (keep p)
                λ to_pk. transfer_between-Leaves from_pk to_pk amount s (ground arith) p)
        s0 p0 in
    done.solvent
run_call-IsSolvent mem (event topic data_of) s0 p0 =
    let done : Leaves (emit_event mem topic data_of s0) =
      metered-Leaves _ _ _
        (λ s p.
          if-Leaves (leb max_contract_events (length s.delta.events)) _ _ (λ _. keep p)
            λ room. or_return-Leaves (read_exported mem topic) _ _ (keep p) λ t.
              or_return-Leaves (read_exported mem data_of) _ _ (keep p)
                λ d. push_event-Leaves t d s (ground arith) p)
        s0 p0 in
    done.solvent
run_call-IsSolvent mem (signature pk msg sig) s0 p0 =
    let done : Leaves (verify_signature mem pk msg sig s0) =
      metered-Leaves _ _ _
        (λ s p. or_return-Leaves (read_exported mem pk) _ _ (keep p) λ _.
          or_return-Leaves (read_exported mem msg) _ _ (keep p)
            λ _. or_return-Leaves (read_exported mem sig) _ _ (keep p) (λ _. keep p))
        s0 p0 in
    done.solvent
run_call-IsSolvent mem gas_left s0 p0 = p0

-- No call changes the state that the run reads, or its caller.
record SameRun (s s' : HostState) : Type 0 where
  pub atoms : s'.atoms ≡ s.atoms
  pub caller_pk : s'.caller_pk ≡ s.caller_pk

run_call-SameRun : (mem : Option Bytes) (c : Call) (s : HostState) → SameRun s (run_call mem c s)
unfolding run_call query_atom get_atom_mass get_atom_nonce get_crystal_index get_caller_pk
    transfer_mass emit_event verify_signature remaining_gas metered or_return charge_gas
    transfer_between push_transfer push_event
run_call-SameRun mem (atom_mass pk) s = ground arith
run_call-SameRun mem (atom_nonce pk) s = ground arith
run_call-SameRun mem crystal s = ground arith
run_call-SameRun mem (caller ptr) s = ground arith
run_call-SameRun mem (transfer from to amount) s = ground arith
run_call-SameRun mem (event topic data_of) s = ground arith
run_call-SameRun mem (signature pk msg sig) s = ground arith
run_call-SameRun mem gas_left s = ground arith

run_calls-SameRun :
    (calls : List (Option Bytes × Call)) (s : HostState) → SameRun s (run_calls calls s)
unfolding run_calls
run_calls-SameRun [] s = record { atoms = refl; caller_pk = refl }
run_calls-SameRun (c ∷ calls) s =
    let first = run_call-SameRun c.0 c.1 s in
    let rest = run_calls-SameRun calls (run_call c.0 c.1 s) in
    record { atoms = rest.atoms ∙ first.atoms; caller_pk = rest.caller_pk ∙ first.caller_pk }

run_calls-IsSolvent :
    (calls : List (Option Bytes × Call)) (s : HostState)
    → IsSolvent s
    → IsSolvent (run_calls calls s)
unfolding run_calls
run_calls-IsSolvent [] s p = p
run_calls-IsSolvent (c ∷ calls) s p =
    run_calls-IsSolvent calls (run_call c.0 c.1 s) (run_call-IsSolvent c.0 c.1 s p)

-- However a contract calls its host, with whatever memory, its run asks only for transfers of
-- positive amounts from its caller, in all no more than the mass that the caller has in the state,
-- and for at most 64 events of at most 1024 bytes. The run starts with such requests, or none, and
-- the caller's mass is a u64.
pub run_calls-IsAllowed :
    (calls : List (Option Bytes × Call)) (s : HostState)
    → IsAllowed s.atoms s.caller_pk s.delta
    → caller_mass s ≤ u64_max
    → IsAllowed s.atoms s.caller_pk (run_calls calls s).delta
run_calls-IsAllowed calls s p word =
    let after = run_calls calls s in
    let still = run_calls-SameRun calls s in
    subst (λ atoms. IsAllowed atoms s.caller_pk after.delta) still.atoms
      (subst (λ pk. IsAllowed after.atoms pk after.delta) still.caller_pk
        (run_calls-IsSolvent calls s (p, word)).0)
