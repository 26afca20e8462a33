-- ===== src/Lease.antt =====
-- src/lease/lease.h and lease.cpp: `LeaseManager`. Its lock makes each method atomic. The steady clock is
-- an argument `now` in milliseconds; the thread that wakes every 500 ms calls `check_expiry`.
pub mod Laws
use my_etcd.Base.{
  ℕ, suc, ◌+◌, ◌-◌, Bool, true, false, List, [], ◌∷◌, ◌++◌, Option, none, some, leb, if◌then◌else◌,
  Bytes, bytes_key, nat_key, map,
}
use my_etcd.OrdMap.{OrdMap, lookup, insert, erase}

-- `std::set<std::string>`
abbrev pub Keys : Type 0
Keys = OrdMap Bytes Unit

abbrev pub members : Keys → List Bytes
members keys = map (λ (k, u). k) keys

pub record Lease : Type 0 where
  pub id : ℕ
  pub ttl_ms : ℕ
  pub remaining_ms : ℕ
  pub expiry : ℕ
  pub attached_keys : Keys

-- `notified` is the trace of the calls of the expiry callback, oldest first; nothing is called before
-- `set_expire_callback`.
pub record LeaseManager : Type 0 where
  pub leases : OrdMap ℕ Lease
  pub next_id : ℕ
  pub has_callback : Bool
  pub notified : List Bytes

abbrev pub no_leases : LeaseManager
no_leases = record { leases = []; next_id = 1; has_callback = false; notified = [] }

unfoldable pub set_expire_callback : LeaseManager → LeaseManager
set_expire_callback m = record m { has_callback = true }

abbrev pub notify_keys : List Bytes → LeaseManager → LeaseManager
notify_keys keys m = if m.has_callback then record m { notified = m.notified ++ keys } else m

abbrev pub new_lease : ℕ → ℕ → ℕ → Lease
new_lease now id ttl = record {
  id = id;
  ttl_ms = ttl;
  remaining_ms = ttl;
  expiry = now + ttl;
  attached_keys = [];
}

unfoldable pub grant : ℕ → ℕ → LeaseManager → LeaseManager × ℕ
grant now ttl m = (
  record m {
    leases = insert m.next_id (new_lease now m.next_id ttl) m.leases;
    next_id = m.next_id + 1;
  },
  m.next_id,
)

abbrev pub revoke_found : ℕ → LeaseManager → Option Lease → LeaseManager × Bool
revoke_found id m none = (m, false)
revoke_found id m (some l) =
    (notify_keys (members l.attached_keys) (record m { leases = erase id m.leases }), true)

unfoldable pub revoke : ℕ → LeaseManager → LeaseManager × Bool
revoke id m = revoke_found id m (lookup id m.leases)

-- The methods that change one lease in place.
abbrev pub change_found : ℕ → (Lease → Lease) → LeaseManager → Option Lease → LeaseManager × Bool
change_found id f m none = (m, false)
change_found id f m (some l) = (record m { leases = insert id (f l) m.leases }, true)

abbrev pub change_lease : ℕ → (Lease → Lease) → LeaseManager → LeaseManager × Bool
change_lease id f m = change_found id f m (lookup id m.leases)

unfoldable pub renew : ℕ → ℕ → LeaseManager → LeaseManager × Bool
renew now id m =
    change_lease id (λ l. record l { expiry = now + l.ttl_ms; remaining_ms = l.ttl_ms }) m

unfoldable pub attach : ℕ → Bytes → LeaseManager → LeaseManager × Bool
attach id key m =
    change_lease id (λ l. record l { attached_keys = insert key tt l.attached_keys }) m

unfoldable pub detach : ℕ → Bytes → LeaseManager → LeaseManager × Bool
detach id key m = change_lease id (λ l. record l { attached_keys = erase key l.attached_keys }) m

abbrev pub get_found : ℕ → Option Lease → Option Lease
get_found now none = none
get_found now (some l) = some (record l { remaining_ms = l.expiry - now })

-- `std::max<int64_t>(0, expiry - now)` is the subtraction that stops at 0.
unfoldable pub get : ℕ → ℕ → LeaseManager → Option Lease
get now id m = get_found now (lookup id m.leases)

abbrev pub keys_of : Option Lease → Keys
keys_of none = []
keys_of (some l) = l.attached_keys

unfoldable pub get_attached_keys : ℕ → LeaseManager → Keys
get_attached_keys id m = keys_of (lookup id m.leases)

unfoldable pub get_all_leases : LeaseManager → List Lease
get_all_leases m = map (λ (i, l). l) m.leases

-- The keys of the leases that have expired, in the order of the loop.
unfoldable pub expired_keys : ℕ → OrdMap ℕ Lease → List Bytes
expired_keys now [] = []
expired_keys now ((i, l) ∷ m) =
    let rest = expired_keys now m in
    if leb l.expiry now then members l.attached_keys ++ rest else rest

-- The leases that the loop does not erase.
unfoldable pub unexpired : ℕ → OrdMap ℕ Lease → OrdMap ℕ Lease
unexpired now [] = []
unexpired now ((i, l) ∷ m) =
    let rest = unexpired now m in if leb l.expiry now then rest else (i, l) ∷ rest

unfoldable pub check_expiry : ℕ → LeaseManager → LeaseManager
unfolding expired_keys unexpired
check_expiry now m =
    notify_keys (expired_keys now m.leases) (record m { leases = unexpired now m.leases })
