-- ===== src/Server/Members.antt =====
-- The identifier that src/server/etcd_server.cpp gives a new member.
use my_etcd.Base.{
  ℕ, zero, suc, ◌+◌, ◌≡◌, ◌<◌, ◌≤◌, refl, ap, sym, ◌∙◌, arith, true, false, ◌||◌, [], ◌∷◌, some,
  leb, ◌==◌, if◌then◌else◌, length, nat_key, ==_iff, Bool-cases, inl, inr, is_some, subst,
}
use my_etcd.OrdMap.{lookup, has_key}
use my_etcd.Raft.Node.{IdSet}
use my_etcd.Server.Requests.{free_id}

-- How many keys are at least `id`.
unfoldable count_from : ℕ → IdSet → ℕ
count_from id [] = 0
count_from id ((j, u) ∷ m) = let rest = count_from id m in if leb id j then suc rest else rest

count_from-length : (id : ℕ) (m : IdSet) → count_from id m ≤ length m
unfolding count_from
count_from-length id [] = omega arith
count_from-length id ((j, u) ∷ m) = ground (arith, count_from-length id m)

count_from-later : (id : ℕ) (m : IdSet) → count_from (id + 1) m ≤ count_from id m
unfolding count_from
count_from-later id [] = omega arith
count_from-later id ((j, u) ∷ m) = ground (arith, count_from-later id m)

-- A key at `id` is no longer counted from `id + 1` on.
count_from-key :
    (id : ℕ) (m : IdSet) → has_key id m ≡ true → count_from (id + 1) m < count_from id m
unfolding count_from lookup
count_from-key id [] h = absurd cc
count_from-key id ((j, u) ∷ m) h = elim (Bool-cases (j == id)) [
  | inl same ↦ ground (arith, count_from-later id m, same)
  | inr differ ↦
      let there : has_key id m ≡ true =
        sym (ap (λ o. is_some o) (ap (λ b. if b then some u else lookup id m) differ)) ∙ h in
      ground (arith, count_from-key id m there, differ)
]

-- Whether the loop still may meet the node's own identifier.
own : ℕ → ℕ → ℕ
own id self = if leb id self then 1 else 0

own_later : (id self : ℕ) → own (id + 1) self ≤ own id self
unfolding own
own_later id self = ground arith

own_id : (id self : ℕ) → (id == self) ≡ true → own (id + 1) self < own id self
unfolding own
own_id id self same = ground (arith, same)

free_id-fresh :
    (fuel id self : ℕ) (peers : IdSet)
    → count_from id peers + own id self < fuel
    → (has_key (free_id fuel id self peers) peers ≡ false)
      × ((free_id fuel id self peers == self) ≡ false)
unfolding free_id own
free_id-fresh zero id self peers h = absurd (omega arith)
free_id-fresh (suc fuel) id self peers h = elim (Bool-cases (has_key id peers)) [
  | inl taken ↦ rw taken (
      free_id-fresh fuel (id + 1) self peers
        (ground (arith, own_later id self, count_from-key id peers taken)))
  | inr free ↦ elim (Bool-cases (id == self)) [
    | inl mine ↦
        rw (free, mine)
          (free_id-fresh fuel (id + 1) self peers
            (ground (arith, count_from-later id peers, own_id id self mine)))
    | inr other ↦ rw (free, other) (free, other)
  ]
]

-- No identifier from `id` up to `found` is free.
abbrev AllTaken : ℕ → ℕ → ℕ → IdSet → Type 0
AllTaken id found self peers =
    (id ≤ found) × ((i : ℕ) → id ≤ i → i < found → (has_key i peers || i == self) ≡ true)

AllTaken-earlier :
    (id found self : ℕ) (peers : IdSet)
    → (has_key id peers || id == self) ≡ true
    → AllTaken (id + 1) found self peers
    → AllTaken id found self peers
AllTaken-earlier id found self peers taken later = (
  omega (arith, later.0),
  λ i h k. elim (Bool-cases (id == i)) [
    | inl same ↦ subst (λ j. (has_key j peers || j == self) ≡ true) ((==_iff id i).0 same) taken
    | inr differ ↦ later.1 i (ground arith) k
  ],
)

free_id-least :
    (fuel id self : ℕ) (peers : IdSet) → AllTaken id (free_id fuel id self peers) self peers
unfolding free_id
free_id-least zero id self peers = (omega arith, λ i h k. absurd (omega arith))
free_id-least (suc fuel) id self peers = elim (Bool-cases (has_key id peers)) [
  | inl taken ↦
      rw taken
        (AllTaken-earlier id _ self peers (rw taken refl) (free_id-least fuel (id + 1) self peers))
  | inr free ↦ elim (Bool-cases (id == self)) [
    | inl mine ↦
        rw (free, mine)
          (AllTaken-earlier id _ self peers (rw (free, mine) refl)
            (free_id-least fuel (id + 1) self peers))
    | inr other ↦ rw (free, other) (omega arith, λ i h k. absurd (omega arith))
  ]
]

own_once : (self : ℕ) → own 1 self ≤ 1
unfolding own
own_once self = ground arith

-- The search for a new member's identifier ends, with two more steps than there are peers, at one that is
-- positive, no peer's and not the node's own; and every smaller positive one is a peer's or the node's own.
pub free_id_lem :
    (self : ℕ) (peers : IdSet)
    → (has_key (free_id (length peers + 2) 1 self peers) peers ≡ false)
      × (((free_id (length peers + 2) 1 self peers == self) ≡ false)
          × ((1 ≤ free_id (length peers + 2) 1 self peers)
              × ((i : ℕ)
                  → 1 ≤ i
                  → i < free_id (length peers + 2) 1 self peers
                  → (has_key i peers || i == self) ≡ true)))
free_id_lem self peers =
    let fresh =
      free_id-fresh (length peers + 2) 1 self peers
        (omega (arith, count_from-length 1 peers, own_once self)) in
    (fresh.0, (fresh.1, free_id-least (length peers + 2) 1 self peers))
