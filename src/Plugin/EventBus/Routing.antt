-- ===== src/Plugin/EventBus/Routing.antt =====
-- Where the routes lead after a subscription and after its end, and whom an event reaches.
use easyserver.Base.Map.{Map, lookup, insert, erase, Unique, lookup-insert, lookup-erase}
use easyserver.Base.{
  ℕ, ◌<◌, String, ◌≡◌, refl, inl, inr, true, false, ◌&&◌, none, some, List, [], ◌∷◌, arith,
  if◌then◌else◌, Bool-cases, ◌==◌, nat_eq, string_eq, nat_test_iff,
}
use easyserver.Base.Members.{contains}
use easyserver.Plugin.EventBus.{
  Subscription, Routes, EventBus, or_empty, route, find_old, close_old, set_route, set_routes,
  subscribe, is_empty, drop_id, unsubscribe,
}

set_route_lem :
    (id : String) (p : ℕ) (event e j : String) (subs : Routes)
    → route e j (set_route id p event subs)
      ≡ (if (event == e) && (id == j) then some p else route e j subs)
unfolding route
set_route_lem id p event e j subs = elim (Bool-cases (event == e)) [
  | inl same ↦
      let here : event ≡ e = (string_eq.test_iff event e).0 same in
      ground (
        arith,
        same,
        here,
        lookup-insert event e (insert id p (or_empty (lookup event subs))) subs,
        lookup-insert id j p (or_empty (lookup event subs)),
      )
  | inr other ↦
      ground (arith, other, lookup-insert event e (insert id p (or_empty (lookup event subs))) subs)
]

set_routes_lem :
    (id : String) (p : ℕ) (events : List String) (subs : Routes) (e j : String)
    → route e j (set_routes id p events subs)
      ≡ (if contains e events && (id == j) then some p else route e j subs)
unfolding set_routes
set_routes_lem id p [] subs e j = ground arith
set_routes_lem id p (event ∷ events) subs e j =
    let rest = set_routes_lem id p events (set_route id p event subs) e j in
    let first = set_route_lem id p event e j subs in ground (arith, rest, first)

pub drop_id-none :
    (id e : String) (subs : Routes) → lookup e subs ≡ none → lookup e (drop_id id subs) ≡ none
unfolding drop_id lookup
drop_id-none id e [] h = refl
drop_id-none id e ((event, m) ∷ subs) h = ground (arith, h, drop_id-none id e subs)

empty_lookup : (j : String) (m : Map String ℕ) → is_empty m ≡ true → lookup j m ≡ none
unfolding lookup
empty_lookup j [] h = refl
empty_lookup j ((k, p) ∷ m) h = absurd (ground (arith, h))

drop_id_lem :
    (id e j : String) (subs : Routes)
    → Unique subs
    → route e j (drop_id id subs) ≡ (if id == j then none else route e j subs)
unfolding drop_id route lookup
drop_id_lem id e j [] u = ground arith
drop_id_lem id e j ((event, m) ∷ subs) u =
    let left = lookup-erase id j m in
    let rest = drop_id_lem id e j subs u.1 in
    elim (Bool-cases (event == e)) [
      | inl same ↦
          let here : lookup e subs ≡ none = rw (← ((string_eq.test_iff event e).0 same)) u.0 in
          ground (arith, same, left, drop_id-none id e subs here, empty_lookup j (erase id m))
      | inr other ↦ ground (arith, other, rest)
    ]

-- After `Unsubscribe` no event leads the id anywhere, and every other route is as it was.
pub unsubscribe-route :
    (id e j : String) (b : EventBus)
    → Unique b.subs
    → route e j (unsubscribe id b).subs ≡ (if id == j then none else route e j b.subs)
unfolding unsubscribe
unsubscribe-route id e j b u = drop_id_lem id e j b.subs u

-- After a subscription the events given lead the id to the new object, and every other route is as
-- it was.
pub subscribe-route :
    (id : String) (events : List String) (b : EventBus) (e j : String)
    → route e j (subscribe id events b).subs
      ≡ (if contains e events && (id == j) then some b.next else route e j b.subs)
unfolding subscribe
subscribe-route id events b e j = set_routes_lem id b.next events b.subs e j

-- A plugin that subscribes again, to fewer events, is cut off from the others: its old subscription
-- is closed, and the routes of the events left out still lead to it.
pub subscribe_fewer :
    (id left_out : String) (events : List String) (b : EventBus) (p : ℕ) (s : Subscription)
    → find_old id events b.subs ≡ some p
    → route left_out id b.subs ≡ some p
    → contains left_out events ≡ false
    → lookup p b.heap ≡ some s
    → p < b.next
    → (route left_out id (subscribe id events b).subs ≡ some p)
      × (lookup p (subscribe id events b).heap ≡ some (record s { closed = true }))
unfolding subscribe
subscribe_fewer id left_out events b p s old kept apart found below = (
  rw (set_routes_lem id b.next events b.subs left_out id, apart) kept,
  ground (
    arith,
    old,
    found,
    below,
    nat_test_iff b.next p,
    nat_test_iff p p,
    lookup-insert b.next p (record { id = id; events = events; queue = []; closed = false })
        (close_old (find_old id events b.subs) b.heap),
    lookup-insert p p (record s { closed = true }) b.heap,
  ),
)
