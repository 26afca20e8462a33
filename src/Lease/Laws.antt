-- ===== src/Lease/Laws.antt =====
-- The life of a lease: fresh identifiers, expiry exactly at the deadline, and the keys that are notified.
use my_etcd.Base.{
  ℕ, ◌+◌, ◌-◌, ◌≡◌, ◌<◌, refl, ap, ◌∙◌, arith, true, false, inl, inr, Bool-cases, List, [], ◌∷◌,
  Option, none, some, leb, ◌==◌, if◌then◌else◌, Bytes, bytes_key, nat_key, subst,
}
use my_etcd.OrdMap.{
  OrdMap, lookup, insert, erase, lookup-insert, IsOrdered, Above, insert-IsOrdered, erase-IsOrdered,
  lookup-Above,
}
use my_etcd.Lease.{
  Lease, LeaseManager, members, grant, revoke, renew, attach, detach, get, expired_keys, unexpired,
  check_expiry, set_expire_callback, no_leases, new_lease, notify_keys, change_found, revoke_found,
  get_found,
}

-- One call of a method, at any time of the clock.
pub data LeaseStep : LeaseManager → LeaseManager → Type 0 where
  grants : (now ttl : ℕ) (m : LeaseManager) → LeaseStep m (grant now ttl m).0
  revokes : (id : ℕ) (m : LeaseManager) → LeaseStep m (revoke id m).0
  renews : (now id : ℕ) (m : LeaseManager) → LeaseStep m (renew now id m).0
  attaches : (id : ℕ) (key : Bytes) (m : LeaseManager) → LeaseStep m (attach id key m).0
  detaches : (id : ℕ) (key : Bytes) (m : LeaseManager) → LeaseStep m (detach id key m).0
  checks : (now : ℕ) (m : LeaseManager) → LeaseStep m (check_expiry now m)
  sets_callback : (m : LeaseManager) → LeaseStep m (set_expire_callback m)

pub data LeaseReach : LeaseManager → Type 0 where
  at_start : LeaseReach no_leases
  then_call : {m m' : LeaseManager} → LeaseReach m → LeaseStep m m' → LeaseReach m'

-- The identifiers in use are below the next one.
abbrev pub Below : ℕ → OrdMap ℕ Lease → Type 0
Below n [] = Unit
Below n ((i, l) ∷ m) = (i < n) × Below n m

Below-weaken : (n : ℕ) (m : OrdMap ℕ Lease) → Below n m → Below (n + 1) m
Below-weaken n [] b = tt
Below-weaken n ((i, l) ∷ m) b = (omega arith, Below-weaken n m b.1)

Below-insert :
    (n i : ℕ) (l : Lease) (m : OrdMap ℕ Lease) → i < n → Below n m → Below n (insert i l m)
unfolding insert
Below-insert n i l [] h b = (h, tt)
Below-insert n i l ((j, k) ∷ m) h b = ground (arith, Below-insert n i l m h b.1)

Below-erase : (n i : ℕ) (m : OrdMap ℕ Lease) → Below n m → Below n (erase i m)
unfolding erase
Below-erase n i [] b = tt
Below-erase n i ((j, k) ∷ m) b = ground (arith, Below-erase n i m b.1)

Below-unexpired : (n now : ℕ) (m : OrdMap ℕ Lease) → Below n m → Below n (unexpired now m)
unfolding unexpired
Below-unexpired n now [] b = tt
Below-unexpired n now ((j, k) ∷ m) b = ground (arith, Below-unexpired n now m b.1)

lookup-Below : (n i : ℕ) (l : Lease) (m : OrdMap ℕ Lease) → Below n m → lookup i m ≡ some l → i < n
unfolding lookup
lookup-Below n i l [] b h = cc
lookup-Below n i l ((j, k) ∷ m) b h = ground (arith, lookup-Below n i l m b.1)

Above-unexpired : (j now : ℕ) (m : OrdMap ℕ Lease) → Above j m → Above j (unexpired now m)
unfolding unexpired
Above-unexpired j now [] a = tt
Above-unexpired j now ((i, l) ∷ m) a = ground (arith, Above-unexpired j now m a.1)

unexpired-IsOrdered : (now : ℕ) (m : OrdMap ℕ Lease) → IsOrdered m → IsOrdered (unexpired now m)
unfolding unexpired
unexpired-IsOrdered now [] a = tt
unexpired-IsOrdered now ((i, l) ∷ m) a =
    ground (arith, unexpired-IsOrdered now m a.1, Above-unexpired i now m a.0)

abbrev pub IsWf : LeaseManager → Type 0
IsWf m = IsOrdered m.leases × Below m.next_id m.leases

change-IsWf :
    (id : ℕ) (f : Lease → Lease) (m : LeaseManager) (o : Option Lease)
    → lookup id m.leases ≡ o
    → IsWf m
    → IsWf (change_found id f m o).0
change-IsWf id f m none e h = h
change-IsWf id f m (some l) e h = (
  insert-IsOrdered id (f l) m.leases h.0,
  Below-insert m.next_id id (f l) m.leases (lookup-Below m.next_id id l m.leases h.1 e) h.1,
)

notify-IsWf : (keys : List Bytes) (m : LeaseManager) → IsWf m → IsWf (notify_keys keys m)
notify-IsWf keys m h = elim (Bool-cases m.has_callback) [ inl on ↦ rw on h | inr off ↦ rw off h ]

revoke-IsWf : (id : ℕ) (m : LeaseManager) (o : Option Lease) → IsWf m → IsWf (revoke_found id m o).0
revoke-IsWf id m none h = h
revoke-IsWf id m (some l) h =
    notify-IsWf (members l.attached_keys) (record m { leases = erase id m.leases })
      (erase-IsOrdered id m.leases h.0, Below-erase m.next_id id m.leases h.1)

pub LeaseStep-IsWf : (m m' : LeaseManager) → LeaseStep m m' → IsWf m → IsWf m'
unfolding grant revoke renew attach detach check_expiry set_expire_callback
LeaseStep-IsWf m m' (grants now ttl _) h = (
  insert-IsOrdered m.next_id _ m.leases h.0,
  Below-insert (m.next_id + 1) m.next_id _ m.leases (omega arith)
      (Below-weaken m.next_id m.leases h.1),
)
LeaseStep-IsWf m m' (revokes id _) h = revoke-IsWf id m (lookup id m.leases) h
LeaseStep-IsWf m m' (renews now id _) h = change-IsWf id _ m (lookup id m.leases) refl h
LeaseStep-IsWf m m' (attaches id key _) h = change-IsWf id _ m (lookup id m.leases) refl h
LeaseStep-IsWf m m' (detaches id key _) h = change-IsWf id _ m (lookup id m.leases) refl h
LeaseStep-IsWf m m' (checks now _) h =
    notify-IsWf (expired_keys now m.leases) (record m { leases = unexpired now m.leases })
      (unexpired-IsOrdered now m.leases h.0, Below-unexpired m.next_id now m.leases h.1)
LeaseStep-IsWf m m' (sets_callback _) h = h

-- In every state that calls of the methods reach, the leases are in identifier order and every identifier
-- in use is below the next one, so that `grant` never hands out one that is in use.
LeaseReach-IsWf : (m : LeaseManager) → LeaseReach m → IsWf m
LeaseReach-IsWf m at_start = (tt, tt)
LeaseReach-IsWf m (then_call r s) = LeaseStep-IsWf _ m s (LeaseReach-IsWf _ r)

-- What is left of a lease at a time.
abbrev pub keep_unexpired : ℕ → Option Lease → Option Lease
keep_unexpired now none = none
keep_unexpired now (some l) = if leb l.expiry now then none else some l

lookup-unexpired :
    (now id : ℕ) (m : OrdMap ℕ Lease)
    → IsOrdered m
    → lookup id (unexpired now m) ≡ keep_unexpired now (lookup id m)
unfolding unexpired lookup
lookup-unexpired now id [] ord = refl
lookup-unexpired now id ((i, l) ∷ m) ord = elim (Bool-cases (leb l.expiry now)) [
  | inl old ↦ elim (Bool-cases (i == id)) [
    | inl same ↦
        rw (old, same)
          (lookup-Above id (unexpired now m)
              (Above-unexpired id now m (subst (λ j. Above j m) (ground arith) ord.0))
            ∙ (rw old refl))
    | inr differ ↦ rw (old, differ) (lookup-unexpired now id m ord.1)
  ]
  | inr young ↦ elim (Bool-cases (i == id)) [
    | inl same ↦ rw (young, same, young) refl
    | inr differ ↦ rw (young, differ) (lookup-unexpired now id m ord.1)
  ]
]

notify-leases : (keys : List Bytes) (m : LeaseManager) → (notify_keys keys m).leases ≡ m.leases
notify-leases keys m = elim (Bool-cases m.has_callback) [ inl on ↦ rw on | inr off ↦ rw off ]

-- In every reachable state, a check of the expiry removes exactly the leases whose deadline has come: after
-- it, a lookup at any time finds what it found before, less the leases that had expired.
pub check_expiry_lem :
    (now t id : ℕ) (m : LeaseManager)
    → LeaseReach m
    → get t id (check_expiry now m) ≡ get_found t (keep_unexpired now (lookup id m.leases))
unfolding check_expiry get
check_expiry_lem now t id m r =
    ap (λ ls. get_found t (lookup id ls)) (notify-leases (expired_keys now m.leases) _)
    ∙ ap (get_found t) (lookup-unexpired now id m.leases (LeaseReach-IsWf m r).0)

lookup-next : (n : ℕ) (m : OrdMap ℕ Lease) → Below n m → lookup n m ≡ none
unfolding lookup
lookup-next n [] b = refl
lookup-next n ((i, l) ∷ m) b = ground (arith, lookup-next n m b.1)

found_same : (i : ℕ) (v : Lease) (o : Option Lease) → (if i == i then some v else o) ≡ some v
found_same i v o = ground arith

-- A lease that is renewed at `now` outlives every check before its new deadline `now + ttl`, with the time
-- that is left until then; the renewal reports success.
pub renew-check_expiry :
    (now later id : ℕ) (l : Lease) (m : LeaseManager)
    → LeaseReach m
    → lookup id m.leases ≡ some l
    → later < now + l.ttl_ms
    → ((renew now id m).1 ≡ true)
      × (get later id (check_expiry later (renew now id m).0)
          ≡ some (record l { expiry = now + l.ttl_ms; remaining_ms = (now + l.ttl_ms) - later }))
unfolding renew
renew-check_expiry now later id l m r hit soon =
    let new : Lease = record l { expiry = now + l.ttl_ms; remaining_ms = l.ttl_ms } in
    let step : renew now id m ≡ (record m { leases = insert id new m.leases }, true) =
      (unfold renew in ap (change_found id _ m) hit) in
    let young : leb (now + l.ttl_ms) later ≡ false = ground arith in
    let there : lookup id (insert id new m.leases) ≡ some new =
      (lookup-insert id id new m.leases ∙ found_same id new _) in
    (
      ap (λ p. p.1) step,
      check_expiry_lem later later id (renew now id m).0 (then_call r (renews now id m))
          ∙ ap (λ p. get_found later (keep_unexpired later (lookup id p.0.leases))) step
          ∙ ap (λ o. get_found later (keep_unexpired later o)) there
          ∙ rw young refl,
    )

-- Granting a lease in a reachable state uses an identifier that no lease has; afterwards the new lease
-- is found with its time to live counted from `now`, and every other lease is found as before.
pub grant-get :
    (now ttl t j : ℕ) (m : LeaseManager)
    → LeaseReach m
    → (lookup (grant now ttl m).1 m.leases ≡ none)
      × (get t j (grant now ttl m).0 ≡ (
          if (grant now ttl m).1 == j
          then some (record (new_lease now m.next_id ttl) { remaining_ms = (now + ttl) - t })
          else get t j m))
unfolding grant get
grant-get now ttl t j m r = (
  lookup-next m.next_id m.leases (LeaseReach-IsWf m r).1,
  elim (Bool-cases (m.next_id == j)) [
    | inl same ↦ ap (get_found t) (lookup-insert m.next_id j _ m.leases) ∙ rw same refl
    | inr differ ↦ ap (get_found t) (lookup-insert m.next_id j _ m.leases) ∙ rw differ refl
  ],
)
