-- ===== src/Plugin/EventBus/Examples.antt =====
-- Tests of the bus, and the theorems at a bus with two plugins.
use easyserver.Base.Map.{lookup, insert, erase}
use easyserver.Base.{◌≡◌, refl, true, false, some, List, [], ◌∷◌, ◌++◌, arith, nat_eq, string_eq}
use easyserver.Plugin.EventBus.{
  Event, Subscription, EventBus, new_event_bus, route, find_old, set_routes, subscribe, drop_id,
  close_id, unsubscribe, enqueue, offer, publish, event_queue_size,
}
use easyserver.Plugin.EventBus.Queue.{enqueue_all, last_of, enqueue_all_lem}
use easyserver.Plugin.EventBus.Routing.{subscribe_fewer}
use easyserver.Plugin.EventBus.Reaching.{Call, subscribes, publishes, step, trace}

program : Unit {0}
unfolding lookup insert erase new_event_bus route find_old set_routes subscribe drop_id close_id
    unsubscribe enqueue offer publish enqueue_all step trace
program = tt

abbrev two_plugins : EventBus
two_plugins =
    subscribe "mail" ("login" ∷ []) (subscribe "audit" ("login" ∷ "upload" ∷ []) new_event_bus)

abbrev login : Event
login = record { event_id = "1"; name = "login"; source = "auth"; payload = "{}"; time = "" }

abbrev audit_sub : Subscription
audit_sub = record { id = "audit"; events = "login" ∷ "upload" ∷ []; queue = []; closed = false }

queued :
    lookup 0 (publish login true two_plugins).heap ≡ some (record audit_sub { queue = login ∷ [] })
unfolding program
queued = refl

abbrev calls : List Call
calls =
    subscribes "audit" ("login" ∷ "upload" ∷ [])
    ∷ subscribes "mail" ("login" ∷ [])
    ∷ publishes login false
    ∷ []

subscribe_fewer_example :
    (route "upload" "audit" (subscribe "audit" ("login" ∷ []) two_plugins).subs ≡ some 0)
    × (lookup 0 (subscribe "audit" ("login" ∷ []) two_plugins).heap
        ≡ some (record audit_sub { closed = true }))
unfolding program
subscribe_fewer_example =
    subscribe_fewer "audit" "upload" ("login" ∷ []) two_plugins 0 audit_sub refl refl refl refl
      (omega arith)

enqueue_all_lem_example :
    enqueue_all (login ∷ login ∷ []) [] ≡ last_of event_queue_size ([] ++ (login ∷ login ∷ []))
enqueue_all_lem_example = enqueue_all_lem (login ∷ login ∷ []) [] (omega arith)
