-- ===== src/Plugin/EventBus/Reaching.antt =====
-- Every bus that the calls lead to is wired, so that an event reaches each subscription once.
use easyserver.Base.Map.{
  Map, lookup, insert, erase, values, Unique, lookup-insert, erase-Unique, mapped,
}
use easyserver.Base.{
  ℕ, suc, ◌<◌, String, ◌≡◌, refl, sym, ap, ◌∙◌, inl, inr, Bool, true, false, none, some, List, [],
  ◌∷◌, arith, if◌then◌else◌, Bool-cases, ◌==◌, nat_eq, string_eq, nat_test_iff, drop,
}
use easyserver.Base.Members.{contains, Distinct}
use easyserver.Base.Entries.{Entries, erase-Entries, map-Entries}
use easyserver.Plugin.EventBus.{
  Event, Subscription, Routes, EventBus, new_event_bus, or_empty, find_old, modify, close_old,
  subscribe, is_empty, drop_id, close_id, unsubscribe, receive, publish,
}
use easyserver.Plugin.EventBus.Routing.{drop_id-none}
use easyserver.Plugin.EventBus.Publishing.{publish_reaches}
use easyserver.Plugin.EventBus.Wiring.{
  Owned, Leads, IsRoute, IsWired, modify-Owned, close_old-Owned, close_id-Owned, offer-Owned,
  heap-IsWired, set_routes-IsWired, or_empty-IsRoute,
}

insert-Owned :
    (next : ℕ) (new : Subscription) (heap : Map ℕ Subscription) (id : String) (p : ℕ)
    → p < next
    → Owned heap id p
    → Owned (insert next new heap) id p
insert-Owned next new heap id p below (s, found, own) =
    (s, ground (arith, lookup-insert next p new heap, nat_test_iff next p, found, below), own)

subscribe-IsWired :
    (id : String) (events : List String) (b : EventBus)
    → IsWired b
    → IsWired (subscribe id events b)
unfolding subscribe
subscribe-IsWired id events b h =
    let new : Subscription = record { id = id; events = events; queue = []; closed = false } in
    let heap = close_old (find_old id events b.subs) b.heap in
    let heap' = insert b.next new heap in
    set_routes-IsWired id b.next events (record { subs = b.subs; heap = heap'; next = suc b.next })
      (
        omega arith,
        (
          new,
          rw (lookup-insert b.next b.next new heap, (nat_test_iff b.next b.next).1 refl) refl,
          refl,
        ),
      )
      (record {
        once = h.once;
        routes =
            map-Entries (IsRoute b.next b.heap) (IsRoute (suc b.next) heap') b.subs
              (λ e m r. (
                r.0,
                map-Entries (Leads b.next b.heap) (Leads (suc b.next) heap') m
                    (λ j p l. (
                      omega (arith, l.0),
                      insert-Owned b.next new heap j p l.0
                          (close_old-Owned (find_old id events b.subs) b.heap j p l.1),
                    ))
                    r.1,
              ))
              h.routes;
      })

drop_id-Unique : (id : String) (subs : Routes) → Unique subs → Unique (drop_id id subs)
unfolding drop_id
drop_id-Unique id [] u = tt
drop_id-Unique id ((event, m) ∷ subs) u =
    ground (arith, drop_id-none id event subs u.0, drop_id-Unique id subs u.1)

drop_id-Entries :
    (next : ℕ) (heap : Map ℕ Subscription) (id : String) (subs : Routes)
    → Entries (IsRoute next heap) subs
    → Entries (IsRoute next heap) (drop_id id subs)
unfolding drop_id
drop_id-Entries next heap id [] h = tt
drop_id-Entries next heap id ((event, m) ∷ subs) h =
    let rest = drop_id-Entries next heap id subs h.1 in
    elim (Bool-cases (is_empty (erase id m))) [
      | inl bare ↦ rw bare rest
      | inr left ↦
          rw left ((erase-Unique id m h.0.0, erase-Entries (Leads next heap) id m h.0.1), rest)
    ]

unsubscribe-IsWired : (id : String) (b : EventBus) → IsWired b → IsWired (unsubscribe id b)
unfolding unsubscribe
unsubscribe-IsWired id b h =
    let left =
      heap-IsWired b (close_id id b.subs b.heap) (λ j p o. close_id-Owned id b.subs b.heap j p o)
        h in
    record {
      once = drop_id-Unique id b.subs h.once;
      routes = drop_id-Entries b.next (close_id id b.subs b.heap) id b.subs left.routes;
    }

-- The calls of the bus, and the taking of an event by a subscriber.
pub data Call : Type 0 where
  subscribes : String → List String → Call
  unsubscribes : String → Call
  publishes : Event → Bool → Call
  takes : ℕ → Call

abbrev pub take_first : Subscription → Subscription
take_first s = record s { queue = drop 1 s.queue }

unfoldable pub step : EventBus → Call → EventBus
step b (subscribes id events) = subscribe id events b
step b (unsubscribes id) = unsubscribe id b
step b (publishes evt encoded) = publish evt encoded b
step b (takes p) = record b { heap = modify take_first p b.heap }

unfoldable pub trace : EventBus → List Call → EventBus
trace b [] = b
trace b (c ∷ cs) = trace (step b c) cs

step-IsWired : (b : EventBus) (c : Call) → IsWired b → IsWired (step b c)
unfolding step publish
step-IsWired b (subscribes id events) h = subscribe-IsWired id events b h
step-IsWired b (unsubscribes id) h = unsubscribe-IsWired id b h
step-IsWired b (publishes evt false) h = h
step-IsWired b (publishes evt true) h = heap-IsWired b _ (λ j p o. offer-Owned evt _ b.heap j p o) h
step-IsWired b (takes q) h =
    heap-IsWired b _ (λ j p o. modify-Owned take_first q b.heap j p (λ s. refl) o) h

trace-IsWired : (cs : List Call) (b : EventBus) → IsWired b → IsWired (trace b cs)
unfolding trace
trace-IsWired [] b h = h
trace-IsWired (c ∷ cs) b h = trace-IsWired cs (step b c) (step-IsWired b c h)

-- A route to the same object is a route of the same id.
contains-values :
    (next : ℕ) (heap : Map ℕ Subscription) (id : String) (p : ℕ) (m : Map String ℕ)
    → Owned heap id p
    → Entries (Leads next heap) m
    → lookup id m ≡ none
    → contains p (values m) ≡ false
unfolding lookup
contains-values next heap id p [] o h e = refl
contains-values next heap id p ((j, q) ∷ m) (s, found, own) h e = elim (Bool-cases (q == p)) [
  | inl same ↦
      let here : q ≡ p = (nat_test_iff q p).0 same in
      let (s', found', own') = h.0.1 in
      let found'' : lookup p heap ≡ some s' = rw (← here) found' in
      let is : s ≡ s' = ground (arith, found, found'') in
      let ids : j ≡ id = sym own' ∙ ap Subscription.id (sym is) ∙ own in
      absurd (ground (arith, e, (string_eq.test_iff j id).1 ids))
  | inr other ↦
      let rest = contains-values next heap id p m (s, found, own) h.1 (ground (arith, e)) in
      ground (arith, other, rest)
]

values-Distinct :
    (next : ℕ) (heap : Map ℕ Subscription) (m : Map String ℕ)
    → Unique m
    → Entries (Leads next heap) m
    → Distinct (values m)
values-Distinct next heap [] u h = tt
values-Distinct next heap ((j, q) ∷ m) u h =
    (contains-values next heap j q m h.0.1 h.1 u.0, values-Distinct next heap m u.1 h.1)

-- After any calls, in any order: an event that can be encoded is put once into the queue of every
-- subscription that its name leads to, and leaves every other subscription as it was.
pub publish-trace :
    (cs : List Call) (evt : Event) (q : ℕ)
    → let b = trace new_event_bus cs in
      lookup q (publish evt true b).heap ≡ (
        if contains q (values (or_empty (lookup evt.name b.subs)))
        then mapped (receive evt) (lookup q b.heap)
        else lookup q b.heap)
unfolding new_event_bus
publish-trace cs evt q =
    let b = trace new_event_bus cs in
    let h = trace-IsWired cs new_event_bus (record { once = tt; routes = tt }) in
    let r = or_empty-IsRoute b.next b.heap evt.name b.subs h.routes in
    publish_reaches evt q b
      (values-Distinct b.next b.heap (or_empty (lookup evt.name b.subs)) r.0 r.1)
