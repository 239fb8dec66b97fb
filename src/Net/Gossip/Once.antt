-- ===== src/Net/Gossip/Once.antt =====
-- Which messages are handled again.
use primus_project.Base.{
  ℕ, suc, ◌≤◌, ◌<◌, ◌≡◌, ◌∙◌, refl, ap, Bool, true, false, ◌||◌, Bool-cases, Option, Option-cases,
  inl, inr, none, some, List, [], ◌∷◌, arith, ltb, ◌==◌, length, take,
}
use primus_project.Base.Ord.{same_refl, bytes_ord}
use primus_project.Machine.Word.{Bytes}
use primus_project.Types.Crypto.{Hashes}
use primus_project.Net.Message.{PrimusMessage}
use primus_project.Net.Gossip.{
  max_seen, evict_count, Encoding, nothing, ttl_of, local_actions, is_seen, without, remove_all,
  remember, message_id, deliver, spread,
}

false-ne-true : false ≡ true → ⊥
false-ne-true e = cc

length-without_le : (id : Bytes) (seen : List Bytes) → length (without id seen) ≤ length seen
unfolding without
length-without_le id [] = omega arith
length-without_le id (s ∷ seen) = ground (arith, length-without_le id seen)

length-without_lt :
    (id : Bytes) (seen : List Bytes)
    → is_seen id seen ≡ true
    → length (without id seen) < length seen
unfolding without
length-without_lt id [] e = absurd (false-ne-true e)
length-without_lt id (s ∷ seen) e =
    ground (arith, e, length-without_le id seen, length-without_lt id seen)

length-remove_all : (ks seen : List Bytes) → length (remove_all ks seen) ≤ length seen
unfolding remove_all
length-remove_all [] seen = omega arith
length-remove_all (k ∷ ks) seen =
    omega (arith, length-remove_all ks (without k seen), length-without_le k seen)

module _ (h : Hashes) (encoding : Encoding) where
  -- The set lists one of its members first.
  abbrev pub ListsMembers : Type 0
  ListsMembers =
      (s : List Bytes) (k : Bytes)
      → (x : Bytes) × (xs : List Bytes) × (encoding.iter (k ∷ s) ≡ x ∷ xs)
        × (is_seen x (k ∷ s) ≡ true)

  length-evicted :
      (k : Bytes) (s : List Bytes)
      → ListsMembers
      → length (remove_all (take evict_count (encoding.iter (k ∷ s))) (k ∷ s)) ≤ length s
  unfolding remove_all
  length-evicted k s lists =
      let listed = lists s k in
      let x = listed.0 in
      let rest = take 999 listed.1 in
      rw listed.2 (
        omega
          (arith, length-remove_all rest (without x (k ∷ s)), length-without_lt x (k ∷ s) listed.3))

  length-remember :
      (id : Bytes) (seen : List Bytes)
      → ListsMembers
      → length seen ≤ max_seen
      → length (remember h encoding id seen) ≤ max_seen
  unfolding remember
  length-remember id seen lists small = elim (Bool-cases (ltb max_seen (length (id ∷ seen)))) [
    | inl over ↦ rw over (omega (arith, length-evicted id seen lists, small))
    | inr within ↦ rw within (ground (arith, within))
  ]

  remember_roomy :
      (id : Bytes) (seen : List Bytes)
      → length seen < max_seen
      → remember h encoding id seen ≡ id ∷ seen
  unfolding remember
  remember_roomy id seen room =
      let fits : ltb max_seen (suc (length seen)) ≡ false = ground (arith, room) in rw fits refl

  deliver_fresh :
      (m : PrimusMessage) (ttl : ℕ) (decays : Bool) (source : Option Bytes)
      (peers seen : List Bytes)
      → (ttl == 0) || is_seen (message_id h encoding m) seen ≡ false
      → ((deliver h encoding m ttl decays source peers seen).seen
          ≡ remember h encoding (message_id h encoding m) seen)
        × ((deliver h encoding m ttl decays source peers seen).actions ≡ local_actions m)
  unfolding deliver
  deliver_fresh m ttl decays source peers seen fresh = rw fresh (refl, refl)

  deliver_spent :
      (m : PrimusMessage) (ttl : ℕ) (decays : Bool) (source : Option Bytes)
      (peers seen : List Bytes)
      → (ttl == 0) || is_seen (message_id h encoding m) seen ≡ true
      → deliver h encoding m ttl decays source peers seen ≡ nothing seen
  unfolding deliver
  deliver_spent m ttl decays source peers seen spent = rw spent refl

  -- From the second time on, a message changes nothing.
  deliver_twice :
      (m : PrimusMessage) (ttl : ℕ) (decays : Bool) (source source' : Option Bytes)
      (peers peers' seen : List Bytes)
      → length seen < max_seen
      → deliver h encoding m ttl decays source' peers'
          (deliver h encoding m ttl decays source peers seen).seen
        ≡ nothing (deliver h encoding m ttl decays source peers seen).seen
  deliver_twice m ttl decays source source' peers peers' seen room =
      elim (Bool-cases ((ttl == 0) || is_seen (message_id h encoding m) seen)) [
        | inl spent ↦
            rw (deliver_spent m ttl decays source peers seen spent)
              (deliver_spent m ttl decays source' peers' seen spent)
        | inr fresh ↦ deliver_spent m ttl decays source' peers' _ (
            ap (λ l. (ttl == 0) || is_seen (message_id h encoding m) l)
              ((deliver_fresh m ttl decays source peers seen fresh).0
                ∙ remember_roomy (message_id h encoding m) seen room)
            ∙ ground (arith, same_refl (message_id h encoding m)))
      ]

  spread_passive :
      (m : PrimusMessage) (source : Option Bytes) (peers seen : List Bytes)
      → ttl_of m ≡ none
      → spread h encoding m source peers seen ≡ nothing seen
  unfolding spread
  spread_passive m source peers seen e = rw (e, spread) refl

  spread_relayed :
      (m : PrimusMessage) (r : ℕ × Bool) (source : Option Bytes) (peers seen : List Bytes)
      → ttl_of m ≡ some r
      → spread h encoding m source peers seen ≡ deliver h encoding m r.0 r.1 source peers seen
  unfolding spread deliver
  spread_relayed m r source peers seen e = rw (e, spread) refl

  -- A message that is spread a second time, from wherever it comes, is neither handled nor sent on
  -- again, while fewer than 10000 messages are remembered.
  pub spread-twice :
      (m : PrimusMessage) (source source' : Option Bytes) (peers peers' seen : List Bytes)
      → length seen < max_seen
      → spread h encoding m source' peers' (spread h encoding m source peers seen).seen
        ≡ nothing (spread h encoding m source peers seen).seen
  spread-twice m source source' peers peers' seen room = elim (Option-cases (ttl_of m)) [
    | inl passive ↦
        rw (spread_passive m source peers seen passive)
          (spread_passive m source' peers' seen passive)
    | inr relayed ↦ rw (spread_relayed m relayed.0 source peers seen relayed.1) (
        spread_relayed m relayed.0 source' peers' _ relayed.1
        ∙ deliver_twice m relayed.0.0 relayed.0.1 source source' peers peers' seen room)
  ]

  length-deliver :
      (m : PrimusMessage) (ttl : ℕ) (decays : Bool) (source : Option Bytes)
      (peers seen : List Bytes)
      → ListsMembers
      → length seen ≤ max_seen
      → length (deliver h encoding m ttl decays source peers seen).seen ≤ max_seen
  length-deliver m ttl decays source peers seen lists small =
      elim (Bool-cases ((ttl == 0) || is_seen (message_id h encoding m) seen)) [
        | inl spent ↦ rw (deliver_spent m ttl decays source peers seen spent) small
        | inr fresh ↦
            rw (deliver_fresh m ttl decays source peers seen fresh).0
              (length-remember (message_id h encoding m) seen lists small)
      ]

  -- The memory of messages stays within its bound.
  pub length-spread :
      (m : PrimusMessage) (source : Option Bytes) (peers seen : List Bytes)
      → ListsMembers
      → length seen ≤ max_seen
      → length (spread h encoding m source peers seen).seen ≤ max_seen
  length-spread m source peers seen lists small = elim (Option-cases (ttl_of m)) [
    | inl passive ↦ rw (spread_passive m source peers seen passive) small
    | inr relayed ↦
        rw (spread_relayed m relayed.0 source peers seen relayed.1)
          (length-deliver m relayed.0.0 relayed.0.1 source peers seen lists small)
  ]
