-- ===== src/Plugin/EventBus.antt =====
-- internal/plugin/events.go: the bus that carries events from the panel to its plugins. The
-- subscriptions are objects of a heap, which the routes (`subs`) point into; a queue is the list of
-- what it holds, oldest first. The handler and the closing of a subscription are outcomes.
pub mod Queue
pub mod Routing
pub mod Publishing
mod Examples
pub mod Wiring
pub mod Reaching
use easyserver.Base.Map.{Map, lookup, insert, erase, values}
use easyserver.Base.{
  ℕ, suc, String, Bool, true, false, Option, none, some, List, [], ◌∷◌, ◌++◌, ltb, if◌then◌else◌,
  nat_eq, string_eq, length, drop,
}

pub record Event : Type 0 where
  pub event_id : String
  pub name : String
  pub source : String
  pub payload : String
  pub time : String

pub record Subscription : Type 0 where
  pub id : String
  pub events : List String
  pub queue : List Event
  pub closed : Bool

abbrev pub Routes : Type 0
Routes = Map String (Map String ℕ)

pub record EventBus : Type 0 where
  pub subs : Routes
  pub heap : Map ℕ Subscription
  pub next : ℕ

abbrev pub event_queue_size : ℕ
event_queue_size = 1000

abbrev pub event_max_attempts : ℕ
event_max_attempts = 5

unfoldable pub new_event_bus : EventBus
new_event_bus = record { subs = []; heap = []; next = 0 }

-- `m[key]` of a map of maps: the empty map where the key is missing.
abbrev pub or_empty : Option (Map String ℕ) → Map String ℕ
or_empty none = []
or_empty (some m) = m

unfoldable pub route : String → String → Routes → Option ℕ
route event id subs = lookup id (or_empty (lookup event subs))

-- The first subscription of the id among the events.
unfoldable pub find_old : String → List String → Routes → Option ℕ
find_old id [] subs = none
find_old id (event ∷ events) subs = elim (route event id subs) [
  | some p ↦ some p
  | none ↦ find_old id events subs
]

abbrev pub close_sub : Subscription → Subscription
close_sub s = record s { closed = true }

-- An update of an object through its pointer.
abbrev pub modify : (Subscription → Subscription) → ℕ → Map ℕ Subscription → Map ℕ Subscription
modify f p heap = elim (lookup p heap) [ none ↦ heap | some s ↦ insert p (f s) heap ]

abbrev pub close_old : Option ℕ → Map ℕ Subscription → Map ℕ Subscription
close_old none heap = heap
close_old (some p) heap = modify close_sub p heap

abbrev pub set_route : String → ℕ → String → Routes → Routes
set_route id p event subs = insert event (insert id p (or_empty (lookup event subs))) subs

unfoldable pub set_routes : String → ℕ → List String → Routes → Routes
set_routes id p [] subs = subs
set_routes id p (event ∷ events) subs = set_routes id p events (set_route id p event subs)

unfoldable pub subscribe : String → List String → EventBus → EventBus
subscribe id events b = record {
  subs = set_routes id b.next events b.subs;
  heap =
      insert b.next (record { id = id; events = events; queue = []; closed = false })
        (close_old (find_old id events b.subs) b.heap);
  next = suc b.next;
}

-- One round of the loop of `Unsubscribe`: whether the entry stays, and without the id.
abbrev pub is_empty : Map String ℕ → Bool
is_empty [] = true
is_empty (_ ∷ _) = false

unfoldable pub drop_id : String → Routes → Routes
drop_id id [] = []
drop_id id ((event, m) ∷ subs) =
    if is_empty (erase id m) then drop_id id subs else (event, erase id m) ∷ drop_id id subs

unfoldable pub close_id : String → Routes → Map ℕ Subscription → Map ℕ Subscription
close_id id [] heap = heap
close_id id ((event, m) ∷ subs) heap = close_id id subs (close_old (lookup id m) heap)

unfoldable pub unsubscribe : String → EventBus → EventBus
unsubscribe id b = record b { subs = drop_id id b.subs; heap = close_id id b.subs b.heap }

-- A full queue loses its oldest event.
unfoldable pub enqueue : Event → List Event → List Event
enqueue evt q = if ltb (length q) event_queue_size then q ++ (evt ∷ []) else drop 1 q ++ (evt ∷ [])

abbrev pub receive : Event → Subscription → Subscription
receive evt s = record s { queue = enqueue evt s.queue }

unfoldable pub offer : Event → List ℕ → Map ℕ Subscription → Map ℕ Subscription
offer evt [] heap = heap
offer evt (p ∷ ps) heap = offer evt ps (modify (receive evt) p heap)

-- `Publish`; the payload may fail to be encoded.
unfoldable pub publish : Event → Bool → EventBus → EventBus
publish evt encoded b =
    if encoded
    then record b { heap = offer evt (values (or_empty (lookup evt.name b.subs))) b.heap }
    else b
