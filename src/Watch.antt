-- ===== src/Watch.antt =====
-- src/watch/watcher.h and watcher.cpp: `WatchManager` and `Watcher`. A watcher is shared: who got it by
-- `get_watcher` still holds it after `cancel`, so the manager's map holds addresses, and the objects stand in
-- a store of their own. There is one object for each identifier, which serves as its address.
pub mod Delivery
pub mod Registry
use my_etcd.Base.{
  ℕ, zero, suc, ◌+◌, Bool, true, false, List, [], ◌∷◌, ◌++◌, Option, none, some, leb, ltb, length,
  if◌then◌else◌, Bytes, str_eq, has_prefix, nat_key, not, ◌&&◌, ◌||◌,
}
use my_etcd.OrdMap.{OrdMap, lookup, insert, erase}
use my_etcd.Types.{WatchEvent}

pub data WatchType : Type 0 where
  key prefix : WatchType

pub record Watcher : Type 0 where
  pub id : ℕ
  pub key : Bytes
  pub type : WatchType
  pub start_rev : ℕ
  pub events : List WatchEvent
  pub cancelled : Bool

abbrev pub max_event_queue_size : ℕ
max_event_queue_size = 1024

pub record WatchManager : Type 0 where
  pub watchers : OrdMap ℕ ℕ
  pub objects : OrdMap ℕ Watcher
  pub next_id : ℕ

abbrev pub no_watchers : WatchManager
no_watchers = record { watchers = []; objects = []; next_id = 1 }

-- The loop that pops the oldest events while the queue is full.
unfoldable pub make_room : ℕ → List WatchEvent → List WatchEvent
make_room size [] = []
make_room size (e ∷ es) =
    let rest = make_room size es in if leb size (length (e ∷ es)) then rest else e ∷ es

unfoldable pub push_event : WatchEvent → Watcher → Watcher
unfolding make_room
push_event e w = record w { events = make_room max_event_queue_size w.events ++ e ∷ [] }

-- One wake-up of `WaitForEvent`: the waiting thread goes on when there is an event, the watcher is cancelled
-- or the time is up, and takes the oldest event where there is one.
unfoldable pub take_event : Watcher → Watcher × Option WatchEvent
take_event w = elim w.events [ [] ↦ (w, none) | e ∷ es ↦ (record w { events = es }, some e) ]

abbrev pub new_watcher : ℕ → Bytes → ℕ → Bool → Watcher
new_watcher id watched start_rev is_prefix = record {
  id = id;
  key = watched;
  type = if is_prefix then WatchType.prefix else WatchType.key;
  start_rev = start_rev;
  events = [];
  cancelled = false;
}

unfoldable pub watch : Bytes → ℕ → Bool → WatchManager → WatchManager × ℕ
watch watched start_rev is_prefix m = (
  record {
    watchers = insert m.next_id m.next_id m.watchers;
    objects = insert m.next_id (new_watcher m.next_id watched start_rev is_prefix) m.objects;
    next_id = m.next_id + 1;
  },
  m.next_id,
)

-- A change of the object at an address.
abbrev pub changed : ℕ → (Watcher → Watcher) → OrdMap ℕ Watcher → Option Watcher → OrdMap ℕ Watcher
changed a f objects none = objects
changed a f objects (some w) = insert a (f w) objects

abbrev pub change : ℕ → (Watcher → Watcher) → OrdMap ℕ Watcher → OrdMap ℕ Watcher
change a f objects = changed a f objects (lookup a objects)

abbrev pub cancel_found : ℕ → WatchManager → Option ℕ → WatchManager × Bool
cancel_found id m none = (m, false)
cancel_found id m (some a) = (
  record m {
    watchers = erase id m.watchers;
    objects = change a (λ w. record w { cancelled = true }) m.objects;
  },
  true,
)

unfoldable pub cancel : ℕ → WatchManager → WatchManager × Bool
cancel id m = cancel_found id m (lookup id m.watchers)

unfoldable pub matches_key : WatchType → Bytes → Bytes → Bool
matches_key WatchType.key watched k = str_eq k watched
matches_key WatchType.prefix watched k = has_prefix watched k

-- The tests that `Notify` makes of a watcher.
unfoldable pub is_matched : WatchEvent → Watcher → Bool
unfolding matches_key
is_matched e w =
    not w.cancelled
    && (not (leb e.kv.mod_revision w.start_rev) && matches_key w.type w.key e.kv.key)

abbrev pub is_matched_at : WatchEvent → Option Watcher → Bool
is_matched_at e none = false
is_matched_at e (some w) = is_matched e w

-- The addresses of the registered watchers that match.
unfoldable pub matched : WatchEvent → OrdMap ℕ Watcher → OrdMap ℕ ℕ → List ℕ
unfolding is_matched
matched e objects [] = []
matched e objects ((i, a) ∷ ws) =
    let rest = matched e objects ws in if is_matched_at e (lookup a objects) then a ∷ rest else rest

unfoldable pub push_all : WatchEvent → List ℕ → OrdMap ℕ Watcher → OrdMap ℕ Watcher
unfolding push_event
push_all e [] objects = objects
push_all e (a ∷ hits) objects = push_all e hits (change a (push_event e) objects)

-- The two phases of `Notify` in one step.
unfoldable pub notify : WatchEvent → WatchManager → WatchManager
unfolding matched push_all
notify e m = record m { objects = push_all e (matched e m.objects m.watchers) m.objects }

abbrev pub object_at : OrdMap ℕ Watcher → Option ℕ → Option Watcher
object_at objects none = none
object_at objects (some a) = lookup a objects

unfoldable pub get_watcher : ℕ → WatchManager → Option Watcher
get_watcher id m = object_at m.objects (lookup id m.watchers)

abbrev pub is_cancelled : Option Watcher → Bool
is_cancelled none = false
is_cancelled (some w) = w.cancelled

unfoldable pub uncancelled : OrdMap ℕ Watcher → OrdMap ℕ ℕ → OrdMap ℕ ℕ
uncancelled objects [] = []
uncancelled objects ((i, a) ∷ ws) =
    let rest = uncancelled objects ws in
    if is_cancelled (lookup a objects) then rest else (i, a) ∷ rest

unfoldable pub cleanup : WatchManager → WatchManager
unfolding uncancelled
cleanup m = record m { watchers = uncancelled m.objects m.watchers }
