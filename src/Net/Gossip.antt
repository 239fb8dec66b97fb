-- ===== src/Net/Gossip.antt =====
-- primus-net-opt/src/gossip.rs. Tasks that are spawned are what the node does next, in order.
pub mod Once
pub mod Relay
use package.primus_project.Base.{
  ℕ, zero, suc, Bool, true, false, Option, none, some, List, [], ◌∷◌, ◌||◌, ltb, ◌==◌,
  if◌then◌else◌, length, take,
}
use package.primus_project.Base.Ord.{same, bytes_ord}
use package.primus_project.Machine.Word.{Bytes}
use package.primus_project.Types.Crypto.{Hashes}
use package.primus_project.Net.Message.{PrimusMessage, new_reaction, new_crystal, sync}

abbrev pub max_seen : ℕ
max_seen = 10000

abbrev pub evict_count : ℕ
evict_count = 1000

-- `bincode` and the debug text of a message, and the order in which the hash set lists its members.
pub record Encoding : Type 0 where
  pub serialize : PrimusMessage → Option Bytes
  pub debug : PrimusMessage → Bytes
  pub iter : List Bytes → List Bytes

abbrev pub is_seen : Bytes → List Bytes → Bool
is_seen id [] = false
is_seen id (s ∷ seen) = same s id || is_seen id seen

unfoldable pub without : Bytes → List Bytes → List Bytes
without id [] = []
without id (s ∷ seen) = let rest = without id seen in if same s id then rest else s ∷ rest

unfoldable pub remove_all : List Bytes → List Bytes → List Bytes
remove_all [] seen = seen
remove_all (k ∷ ks) seen = remove_all ks (without k seen)

-- What is done with a message besides sending it on.
pub data LocalAction : Type 0 where
  push_bytes : Bytes → LocalAction
  on_crystal : Bytes → LocalAction

pub record Outcome : Type 0 where
  pub seen : List Bytes
  pub actions : List LocalAction
  pub sends : List (Bytes × PrimusMessage)

abbrev pub nothing : List Bytes → Outcome
nothing seen = record { seen = seen; actions = []; sends = [] }

-- The time to live, and whether it decays.
unfoldable pub ttl_of : PrimusMessage → Option (ℕ × Bool)
ttl_of (new_reaction _ ttl) = some (ttl, true)
ttl_of (new_crystal _ ttl) = some (ttl, false)
ttl_of (sync _) = some (1, true)
ttl_of _ = none

unfoldable pub local_actions : PrimusMessage → List LocalAction
local_actions (new_reaction bytes _) = push_bytes bytes ∷ []
local_actions (new_crystal bytes _) = on_crystal bytes ∷ []
local_actions _ = []

unfoldable pub next_ttl : Bool → ℕ → Option ℕ
next_ttl true zero = none
next_ttl true (suc zero) = none
next_ttl true (suc (suc t)) = some (suc t)
next_ttl false ttl = some ttl

unfoldable pub with_ttl : PrimusMessage → ℕ → Option PrimusMessage
with_ttl (new_reaction bytes _) ttl = some (new_reaction bytes ttl)
with_ttl (new_crystal bytes _) ttl = some (new_crystal bytes ttl)
with_ttl (sync s) ttl = some (sync s)
with_ttl _ ttl = none

abbrev pub is_source : Option Bytes → Bytes → Bool
is_source none addr = false
is_source (some source) addr = same source addr

abbrev pub forwarded : Bool → ℕ → PrimusMessage → Option PrimusMessage
forwarded decays ttl m = elim (next_ttl decays ttl) [ none ↦ none | some t ↦ with_ttl m t ]

-- The loop over the peers.
unfoldable pub propagate :
    Option Bytes → Option PrimusMessage → List Bytes → List (Bytes × PrimusMessage)
propagate source m [] = []
propagate source none (addr ∷ peers) = []
propagate source (some m) (addr ∷ peers) =
    let rest = propagate source (some m) peers in
    if is_source source addr then rest else (addr, m) ∷ rest

module _ (h : Hashes) (encoding : Encoding) where
  unfoldable pub message_id : PrimusMessage → Bytes
  message_id m = h.sha3 (elim (encoding.serialize m) [ none ↦ encoding.debug m | some b ↦ b ])

  -- `insert`, and the eviction above the bound.
  unfoldable pub remember : Bytes → List Bytes → List Bytes
  remember id seen =
      let all = id ∷ seen in
      if ltb max_seen (length all)
      then remove_all (take evict_count (encoding.iter all)) all
      else all

  -- From the test of the time to live on.
  unfoldable pub deliver :
      PrimusMessage → ℕ → Bool → Option Bytes → List Bytes → List Bytes → Outcome
  deliver m ttl decays source peers seen =
      if (ttl == 0) || is_seen (message_id m) seen then nothing seen else record {
        seen = remember (message_id m) seen;
        actions = local_actions m;
        sends = propagate source (forwarded decays ttl m) peers;
      }

  unfoldable pub spread : PrimusMessage → Option Bytes → List Bytes → List Bytes → Outcome
  spread m source peers seen = elim (ttl_of m) [
    | none ↦ nothing seen
    | some (ttl, decays) ↦ deliver m ttl decays source peers seen
  ]
