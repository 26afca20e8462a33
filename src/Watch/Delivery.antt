-- ===== src/Watch/Delivery.antt =====
-- Which events a watcher gets, and which a full queue drops.
use my_etcd.Base.{
  ℕ, zero, suc, ◌+◌, ◌-◌, ◌≡◌, ◌≤◌, refl, ap, sym, ◌∙◌, arith, true, Bool-cases, inl, inr, List, [],
  ◌∷◌, ◌++◌, Option, none, some, leb, length, drop, length-append, length-drop, nat_key,
}
use my_etcd.OrdMap.{OrdMap, lookup}
use my_etcd.Types.{WatchEvent}
use my_etcd.Watch.{
  Watcher, WatchManager, make_room, push_event, push_all, matched, notify, is_matched,
  is_matched_at, max_event_queue_size,
}

drop_none : (n : ℕ) → drop {A = WatchEvent} n [] ≡ []
drop_none zero = refl
drop_none (suc n) = refl

drop-append_left :
    (n : ℕ) (xs ys : List WatchEvent) → n ≤ length xs → drop n (xs ++ ys) ≡ drop n xs ++ ys
drop-append_left zero xs ys h = refl
drop-append_left (suc n) [] ys h = absurd (omega arith)
drop-append_left (suc n) (x ∷ xs) ys h = drop-append_left n xs ys (omega arith)

make_room-drop : (n : ℕ) (es : List WatchEvent) → make_room (suc n) es ≡ drop (length es - n) es
unfolding make_room
make_room-drop n [] = sym (drop_none (0 - n))
make_room-drop n (e ∷ es) = elim (Bool-cases (leb (suc n) (suc (length es)))) [
  | inl full ↦
      let more : suc (length es) - n ≡ suc (length es - n) = ground arith in
      rw (full, more) (make_room-drop n es)
  | inr room ↦ let none_over : suc (length es) - n ≡ 0 = ground arith in rw (room, none_over) refl
]

-- Pushing an event keeps the newest 1024 events: what is dropped is the oldest of the queue with the event
-- at its end, and only as many as are above 1024.
push_event-drop :
    (e : WatchEvent) (w : Watcher)
    → ((push_event e w).events
        ≡ drop ((length w.events + 1) - max_event_queue_size) (w.events ++ e ∷ []))
      × (length (push_event e w).events ≤ max_event_queue_size)
unfolding push_event
push_event-drop e w =
    let kept : (push_event e w).events ≡ drop (length w.events - 1023) w.events ++ e ∷ [] =
      ap (λ l. l ++ e ∷ []) (make_room-drop 1023 w.events) in
    let fits : (length w.events - 1023) ≤ length w.events = omega arith in
    let same : (length w.events + 1) - 1024 ≡ length w.events - 1023 = omega arith in
    (
      kept
          ∙ sym (drop-append_left (length w.events - 1023) w.events (e ∷ []) fits)
          ∙ ap (λ k. drop k (w.events ++ e ∷ [])) (sym same),
      rw kept (
          omega (
            arith,
            length-append (drop (length w.events - 1023) w.events) (e ∷ []),
            length-drop (length w.events - 1023) w.events,
          )),
    )

unheard :
    (e : WatchEvent) (o : Option Watcher) → e.kv.mod_revision ≡ 0 → is_matched_at e o ≡ true → ⊥
unfolding is_matched
unheard e none h hit = cc
unheard e (some w) h hit = ground arith

no_match :
    (e : WatchEvent) (objects : OrdMap ℕ Watcher) (ws : OrdMap ℕ ℕ)
    → e.kv.mod_revision ≡ 0
    → matched e objects ws ≡ []
unfolding matched is_matched
no_match e objects [] h = refl
no_match e objects ((i, a) ∷ ws) h = elim (Bool-cases (is_matched_at e (lookup a objects))) [
  | inl hit ↦ absurd (unheard e (lookup a objects) h hit)
  | inr miss ↦ rw miss (no_match e objects ws h)
]

-- An event whose pair has modification revision 0 reaches no watcher, whatever it watches and whatever its
-- start revision is: notifying changes nothing.
pub notify_without_revision :
    (e : WatchEvent) (m : WatchManager) → e.kv.mod_revision ≡ 0 → notify e m ≡ m
unfolding notify
notify_without_revision e m h =
    ap (λ hits. record m { objects = push_all e hits m.objects })
      (no_match e m.objects m.watchers h)
