-- ===== src/Plugin/EventBus/Wiring.antt =====
-- What holds of the routes of every bus: each leads to a subscription of its own id.
use easyserver.Base.Map.{Map, lookup, insert, Unique, insert-Unique}
use easyserver.Base.{
  ℕ, ◌<◌, String, ◌≡◌, refl, ◌∙◌, inl, inr, Option, none, some, List, [], ◌∷◌, Bool-cases,
  Option-cases, ◌==◌, nat_eq, string_eq,
}
use easyserver.Base.Entries.{Entries, insert-Entries, lookup-Entries, map-Entries}
use easyserver.Plugin.EventBus.{
  Event, Subscription, Routes, EventBus, or_empty, close_sub, modify, close_old, set_route,
  set_routes, close_id, receive, offer,
}
use easyserver.Plugin.EventBus.Publishing.{lookup-modify}

-- The object is there and is a subscription of the id.
abbrev pub Owned : Map ℕ Subscription → String → ℕ → Type 0
Owned heap id p = (s : Subscription) × (lookup p heap ≡ some s) × (s.id ≡ id)

-- A route leads to an object of its id, which was made before the next one.
abbrev pub Leads : ℕ → Map ℕ Subscription → String → ℕ → Type 0
Leads next heap id p = (p < next) × Owned heap id p

abbrev pub IsRoute : ℕ → Map ℕ Subscription → String → Map String ℕ → Type 0
IsRoute next heap event m = Unique m × Entries (Leads next heap) m

pub record IsWired (b : EventBus) : Type 0 where
  pub once : Unique b.subs
  pub routes : Entries (IsRoute b.next b.heap) b.subs

pub modify-Owned :
    (f : Subscription → Subscription) (q : ℕ) (heap : Map ℕ Subscription) (id : String) (p : ℕ)
    → ((s : Subscription) → (f s).id ≡ s.id)
    → Owned heap id p
    → Owned (modify f q heap) id p
modify-Owned f q heap id p keeps (s, found, own) = elim (Bool-cases (q == p)) [
  | inl same ↦ (f s, rw (lookup-modify f q p heap, same, found) refl, keeps s ∙ own)
  | inr other ↦ (s, rw (lookup-modify f q p heap, other) found, own)
]

pub close_old-Owned :
    (o : Option ℕ) (heap : Map ℕ Subscription) (id : String) (p : ℕ)
    → Owned heap id p
    → Owned (close_old o heap) id p
close_old-Owned none heap id p h = h
close_old-Owned (some q) heap id p h = modify-Owned close_sub q heap id p (λ s. refl) h

pub close_id-Owned :
    (gone : String) (subs : Routes) (heap : Map ℕ Subscription) (id : String) (p : ℕ)
    → Owned heap id p
    → Owned (close_id gone subs heap) id p
unfolding close_id
close_id-Owned gone [] heap id p h = h
close_id-Owned gone ((event, m) ∷ subs) heap id p h =
    close_id-Owned gone subs (close_old (lookup gone m) heap) id p
      (close_old-Owned (lookup gone m) heap id p h)

pub offer-Owned :
    (evt : Event) (ps : List ℕ) (heap : Map ℕ Subscription) (id : String) (p : ℕ)
    → Owned heap id p
    → Owned (offer evt ps heap) id p
unfolding offer
offer-Owned evt [] heap id p h = h
offer-Owned evt (q ∷ ps) heap id p h =
    offer-Owned evt ps (modify (receive evt) q heap) id p
      (modify-Owned (receive evt) q heap id p (λ s. refl) h)

-- A change of the heap that keeps the owners keeps the wiring.
pub heap-IsWired :
    (b : EventBus) (heap : Map ℕ Subscription)
    → ((id : String) (p : ℕ) → Owned b.heap id p → Owned heap id p)
    → IsWired b
    → IsWired (record b { heap = heap })
heap-IsWired b heap keeps h = record {
  once = h.once;
  routes =
      map-Entries (IsRoute b.next b.heap) (IsRoute b.next heap) b.subs
        (λ e m r. (
          r.0,
          map-Entries (Leads b.next b.heap) (Leads b.next heap) m (λ id p l. (l.0, keeps id p l.1))
              r.1,
        ))
        h.routes;
}

pub or_empty-IsRoute :
    (next : ℕ) (heap : Map ℕ Subscription) (event : String) (subs : Routes)
    → Entries (IsRoute next heap) subs
    → IsRoute next heap event (or_empty (lookup event subs))
or_empty-IsRoute next heap event subs h = elim (Option-cases (lookup event subs)) [
  | inl e ↦ rw e (tt, tt)
  | inr (m, e) ↦ rw e (lookup-Entries (IsRoute next heap) event subs h e)
]

pub set_routes-IsWired :
    (id : String) (p : ℕ) (events : List String) (b : EventBus)
    → Leads b.next b.heap id p
    → IsWired b
    → IsWired (record b { subs = set_routes id p events b.subs })
unfolding set_routes
set_routes-IsWired id p [] b l h = h
set_routes-IsWired id p (event ∷ events) b l h =
    let m = or_empty (lookup event b.subs) in
    let r = or_empty-IsRoute b.next b.heap event b.subs h.routes in
    set_routes-IsWired id p events (record b { subs = set_route id p event b.subs }) l
      (record {
        once = insert-Unique event (insert id p m) b.subs h.once;
        routes =
            insert-Entries (IsRoute b.next b.heap) event (insert id p m) b.subs
              (insert-Unique id p m r.0, insert-Entries (Leads b.next b.heap) id p m l r.1)
              h.routes;
      })
