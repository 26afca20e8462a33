-- ===== src/Watch/Registry.antt =====
-- What a notification does to each watcher.
use my_etcd.Base.{
  ℕ, ◌≡◌, refl, ap, subst, ◌∙◌, arith, Bool, true, false, Bool-cases, inl, inr, [], ◌∷◌, Option,
  none, some, if◌then◌else◌, ◌==◌, nat_key, ◌&&◌, Bytes, ◌++◌, ◌<◌, ◌↔◌, sym, has_prefix,
  str_eq_iff,
}
use my_etcd.OrdMap.{
  OrdMap, lookup, insert, erase, lookup-insert, IsOrdered, Above, insert-IsOrdered, erase-IsOrdered,
}
use my_etcd.Types.{WatchEvent}
use my_etcd.Watch.{
  Watcher, WatchManager, no_watchers, push_event, push_all, matched, notify, is_matched_at, change,
  changed, matches_key, is_matched, WatchType, watch, cancel, cancel_found, cleanup, uncancelled,
  take_event,
}

-- One call of a method.
pub data WatchStep : WatchManager → WatchManager → Type 0 where
  watches :
      (key : Bytes) (start_rev : ℕ) (is_prefix : Bool) (m : WatchManager)
      → WatchStep m (watch key start_rev is_prefix m).0
  cancels : (id : ℕ) (m : WatchManager) → WatchStep m (cancel id m).0
  notifies : (e : WatchEvent) (m : WatchManager) → WatchStep m (notify e m)
  cleans : (m : WatchManager) → WatchStep m (cleanup m)
  takes :
      (a : ℕ) (m : WatchManager)
      → WatchStep m (record m { objects = change a (λ w. (take_event w).0) m.objects })

pub data WatchReach : WatchManager → Type 0 where
  at_start : WatchReach no_watchers
  then_call : {m m' : WatchManager} → WatchReach m → WatchStep m m' → WatchReach m'

-- Every identifier is registered with its own address.
abbrev pub SameAddress : OrdMap ℕ ℕ → Type 0
SameAddress [] = Unit
SameAddress ((i, a) ∷ ws) = (i ≡ a) × SameAddress ws

SameAddress-insert : (i : ℕ) (ws : OrdMap ℕ ℕ) → SameAddress ws → SameAddress (insert i i ws)
unfolding insert
SameAddress-insert i [] h = (refl, tt)
SameAddress-insert i ((j, a) ∷ ws) h = ground (arith, SameAddress-insert i ws h.1)

SameAddress-erase : (i : ℕ) (ws : OrdMap ℕ ℕ) → SameAddress ws → SameAddress (erase i ws)
unfolding erase
SameAddress-erase i [] h = tt
SameAddress-erase i ((j, a) ∷ ws) h = ground (arith, SameAddress-erase i ws h.1)

SameAddress-uncancelled :
    (objects : OrdMap ℕ Watcher) (ws : OrdMap ℕ ℕ)
    → SameAddress ws
    → SameAddress (uncancelled objects ws)
unfolding uncancelled
SameAddress-uncancelled objects [] h = tt
SameAddress-uncancelled objects ((j, a) ∷ ws) h =
    ground (arith, SameAddress-uncancelled objects ws h.1)

Above-uncancelled :
    (i : ℕ) (objects : OrdMap ℕ Watcher) (ws : OrdMap ℕ ℕ)
    → Above i ws
    → Above i (uncancelled objects ws)
unfolding uncancelled
Above-uncancelled i objects [] h = tt
Above-uncancelled i objects ((j, a) ∷ ws) h = ground (arith, Above-uncancelled i objects ws h.1)

uncancelled-IsOrdered :
    (objects : OrdMap ℕ Watcher) (ws : OrdMap ℕ ℕ)
    → IsOrdered ws
    → IsOrdered (uncancelled objects ws)
unfolding uncancelled
uncancelled-IsOrdered objects [] h = tt
uncancelled-IsOrdered objects ((j, a) ∷ ws) h =
    ground (arith, uncancelled-IsOrdered objects ws h.1, Above-uncancelled j objects ws h.0)

abbrev pub IsRegistry : OrdMap ℕ ℕ → Type 0
IsRegistry ws = IsOrdered ws × SameAddress ws

cancel-IsRegistry :
    (id : ℕ) (m : WatchManager) (o : Option ℕ)
    → IsRegistry m.watchers
    → IsRegistry (cancel_found id m o).0.watchers
cancel-IsRegistry id m none h = h
cancel-IsRegistry id m (some a) h =
    (erase-IsOrdered id m.watchers h.0, SameAddress-erase id m.watchers h.1)

pub WatchStep-IsRegistry :
    (k m : WatchManager) → WatchStep k m → IsRegistry k.watchers → IsRegistry m.watchers
unfolding watch cancel notify cleanup
WatchStep-IsRegistry k m (watches key start_rev is_prefix _) h = (
  insert-IsOrdered k.next_id k.next_id k.watchers h.0,
  SameAddress-insert k.next_id k.watchers h.1,
)
WatchStep-IsRegistry k m (cancels id _) h = cancel-IsRegistry id k (lookup id k.watchers) h
WatchStep-IsRegistry k m (notifies e _) h = h
WatchStep-IsRegistry k m (cleans _) h = (
  uncancelled-IsOrdered k.objects k.watchers h.0,
  SameAddress-uncancelled k.objects k.watchers h.1,
)
WatchStep-IsRegistry k m (takes a _) h = h

WatchReach-IsRegistry : (m : WatchManager) → WatchReach m → IsRegistry m.watchers
WatchReach-IsRegistry m at_start = (tt, tt)
WatchReach-IsRegistry m (then_call r s) = WatchStep-IsRegistry _ m s (WatchReach-IsRegistry _ r)

-- A watcher after an event, if it gets it.
abbrev pub pushed : WatchEvent → Option Watcher → Option Watcher
pushed e none = none
pushed e (some w) = some (push_event e w)

lookup-changed :
    (a b : ℕ) (e : WatchEvent) (objects : OrdMap ℕ Watcher) (o : Option Watcher)
    → lookup a objects ≡ o
    → lookup b (changed a (push_event e) objects o)
      ≡ (if a == b then pushed e (lookup b objects) else lookup b objects)
lookup-changed a b e objects none h = elim (Bool-cases (a == b)) [
  | inl same ↦
      let missing : lookup b objects ≡ none =
        subst (λ i. lookup i objects ≡ none) (ground arith) h in
      rw (same, missing) refl
  | inr differ ↦ rw differ refl
]
lookup-changed a b e objects (some w) h = elim (Bool-cases (a == b)) [
  | inl same ↦
      let there : lookup b objects ≡ some w =
        subst (λ i. lookup i objects ≡ some w) (ground arith) h in
      lookup-insert a b (push_event e w) objects ∙ rw (same, there) refl
  | inr differ ↦ lookup-insert a b (push_event e w) objects ∙ rw (differ) refl
]

-- No registered watcher has the address.
abbrev Unregistered : ℕ → OrdMap ℕ ℕ → Type 0
Unregistered b [] = Unit
Unregistered b ((i, a) ∷ ws) = ((a == b) ≡ false) × Unregistered b ws

Above-Unregistered : (b : ℕ) (ws : OrdMap ℕ ℕ) → Above b ws → SameAddress ws → Unregistered b ws
Above-Unregistered b [] h s = tt
Above-Unregistered b ((i, a) ∷ ws) h s = (ground arith, Above-Unregistered b ws h.1 s.1)

abbrev pub is_present : Option ℕ → Bool
is_present none = false
is_present (some a) = true

-- The watcher with the address is registered.
abbrev pub is_registered : ℕ → OrdMap ℕ ℕ → Bool
is_registered b ws = is_present (lookup b ws)

push-Unregistered :
    (e : WatchEvent) (b : ℕ) (old objects : OrdMap ℕ Watcher) (ws : OrdMap ℕ ℕ)
    → Unregistered b ws
    → lookup b (push_all e (matched e old ws) objects) ≡ lookup b objects
unfolding push_all matched
push-Unregistered e b old objects [] u = refl
push-Unregistered e b old objects ((i, a) ∷ ws) u =
    elim (Bool-cases (is_matched_at e (lookup a old))) [
      | inl hit ↦ rw hit (
          push-Unregistered e b old (change a (push_event e) objects) ws u.1
          ∙ lookup-changed a b e objects (lookup a objects) refl
          ∙ rw u.0 refl)
      | inr miss ↦ rw miss (push-Unregistered e b old objects ws u.1)
    ]

registered_nil : (b : ℕ) → is_registered b [] ≡ false
unfolding lookup
registered_nil b = refl

registered_cons :
    (b i a : ℕ) (ws : OrdMap ℕ ℕ)
    → is_registered b ((i, a) ∷ ws) ≡ (if i == b then true else is_registered b ws)
unfolding lookup
registered_cons b i a ws = elim (Bool-cases (i == b)) [
  | inl same ↦ rw same refl
  | inr differ ↦ rw differ refl
]

push-registered :
    (e : WatchEvent) (b : ℕ) (old objects : OrdMap ℕ Watcher) (ws : OrdMap ℕ ℕ)
    → IsRegistry ws
    → lookup b (push_all e (matched e old ws) objects) ≡ (
        if is_registered b ws && is_matched_at e (lookup b old)
        then pushed e (lookup b objects)
        else lookup b objects)
unfolding push_all matched
push-registered e b old objects [] h =
    let none_known : is_registered b [] ≡ false = registered_nil b in rw none_known refl
push-registered e b old objects ((i, a) ∷ ws) h = elim (Bool-cases (i == b)) [
  | inl same ↦
      let here : a ≡ b = ground (arith, h.1.0) in
      let rest : Unregistered b ws =
        Above-Unregistered b ws (subst (λ j. Above j ws) (ground arith) h.0.0) h.1.1 in
      let known : is_registered b ((i, a) ∷ ws) ≡ true = registered_cons b i a ws ∙ rw same refl in
      let hit_b : (a == b) ≡ true = ground arith in
      elim (Bool-cases (is_matched_at e (lookup a old))) [
        | inl hit ↦
            let hit' : is_matched_at e (lookup b old) ≡ true =
              subst (λ j. is_matched_at e (lookup j old) ≡ true) here hit in
            rw (hit, known, hit')
              (push-Unregistered e b old (change a (push_event e) objects) ws rest
                ∙ lookup-changed a b e objects (lookup a objects) refl
                ∙ rw hit_b refl)
        | inr miss ↦
            let miss' : is_matched_at e (lookup b old) ≡ false =
              subst (λ j. is_matched_at e (lookup j old) ≡ false) here miss in
            rw (miss, known, miss') (push-Unregistered e b old objects ws rest)
      ]
  | inr differ ↦
      let known : is_registered b ((i, a) ∷ ws) ≡ is_registered b ws =
        registered_cons b i a ws ∙ rw differ refl in
      let other : (a == b) ≡ false = ground (arith, h.1.0) in
      let untouched : lookup b (change a (push_event e) objects) ≡ lookup b objects =
        lookup-changed a b e objects (lookup a objects) refl ∙ rw other refl in
      elim (Bool-cases (is_matched_at e (lookup a old))) [
        | inl hit ↦
            rw (hit, known)
              (push-registered e b old (change a (push_event e) objects) ws (h.0.1, h.1.1)
                ∙ ap
                    (λ o.
                      if is_registered b ws && is_matched_at e (lookup b old)
                      then pushed e o
                      else o)
                    untouched)
        | inr miss ↦ rw (miss, known) (push-registered e b old objects ws (h.0.1, h.1.1))
      ]
]

has_prefix-split : (p s : Bytes) → has_prefix p s ≡ true → (rest : Bytes) × (s ≡ p ++ rest)
unfolding has_prefix
has_prefix-split [] s h = (s, refl)
has_prefix-split (x ∷ p) [] h = absurd cc
has_prefix-split (x ∷ p) (y ∷ s) h =
    let (rest, e) = has_prefix-split p s (ground arith) in
    let same : y ≡ x = ground arith in (rest, ap (◌∷◌ y) e ∙ ap (λ c. c ∷ p ++ rest) same)

has_prefix-joined : (p rest : Bytes) → has_prefix p (p ++ rest) ≡ true
unfolding has_prefix
has_prefix-joined [] rest = refl
has_prefix-joined (x ∷ p) rest = ground (arith, has_prefix-joined p rest)

has_prefix_iff : (p s : Bytes) → (has_prefix p s ≡ true) ↔ ((rest : Bytes) × (s ≡ p ++ rest))
has_prefix_iff p s = (
  has_prefix-split p s,
  λ (rest, e). subst (λ t. has_prefix p t ≡ true) (sym e) (has_prefix-joined p rest),
)

-- What a watcher watches: one key, or the keys that continue a prefix.
abbrev pub Covers : WatchType → Bytes → Bytes → Type 0
Covers WatchType.key watched k = k ≡ watched
Covers WatchType.prefix watched k = (rest : Bytes) × (k ≡ watched ++ rest)

-- A watcher that is to get the event.
pub record Hears (e : WatchEvent) (w : Watcher) : Type 0 where
  pub live : w.cancelled ≡ false
  pub later : w.start_rev < e.kv.mod_revision
  pub covers : Covers w.type w.key e.kv.key

matches_key_iff :
    (t : WatchType) (watched k : Bytes) → (matches_key t watched k ≡ true) ↔ Covers t watched k
unfolding matches_key
matches_key_iff WatchType.key watched k = str_eq_iff k watched
matches_key_iff WatchType.prefix watched k = has_prefix_iff watched k

Hears-is_matched : (e : WatchEvent) (w : Watcher) → Hears e w → is_matched e w ≡ true
unfolding is_matched
Hears-is_matched e w h =
    let covered = (matches_key_iff w.type w.key e.kv.key).1 h.covers in
    let live = h.live in let later = h.later in ground arith

is_matched-Hears : (e : WatchEvent) (w : Watcher) → is_matched e w ≡ true → Hears e w
unfolding is_matched
is_matched-Hears e w h = record {
  live = ground arith;
  later = ground arith;
  covers = (matches_key_iff w.type w.key e.kv.key).0 (ground arith);
}

-- In every reachable state, a notification pushes the event once to the watcher at each registered identifier
-- that is not cancelled, started before the event's revision, and watches the event's key or a prefix of it;
-- a registered watcher that fails one of these, and one that is not registered, stays as it was.
pub notify_lem :
    (e : WatchEvent) (b : ℕ) (w : Watcher) (m : WatchManager)
    → WatchReach m
    → lookup b m.objects ≡ some w
    → let after = lookup b (notify e m).objects in
      (is_registered b m.watchers ≡ true → Hears e w → after ≡ some (push_event e w))
      × ((¬ Hears e w) → after ≡ some w)
      × (is_registered b m.watchers ≡ false → after ≡ some w)
unfolding notify
notify_lem e b w m r there = (
  (λ known hears. after ∙ rw (known, Hears-is_matched e w hears) refl),
  (λ deaf. after ∙ unchanged (λ hit. deaf (is_matched-Hears e w hit))),
  (λ unknown. after ∙ rw unknown refl),
)
  where
    after :
        lookup b (push_all e (matched e m.objects m.watchers) m.objects)
        ≡ (if is_registered b m.watchers && is_matched e w then some (push_event e w) else some w)
    after =
        push-registered e b m.objects m.objects m.watchers (WatchReach-IsRegistry m r)
        ∙ ap (λ o. if is_registered b m.watchers && is_matched_at e o then pushed e o else o) there

    unchanged :
        ¬ (is_matched e w ≡ true)
        → (if is_registered b m.watchers && is_matched e w then some (push_event e w) else some w)
          ≡ some w
    unchanged miss = ground (arith, Bool-cases (is_matched e w), miss)
