-- ===== src/Plugin/EventBus/Publishing.antt =====
-- Whom an event reaches.
use easyserver.Base.Map.{Map, lookup, values, lookup-insert, mapped}
use easyserver.Base.{
  ℕ, ◌≡◌, inl, inr, true, false, List, [], ◌∷◌, arith, if◌then◌else◌, Bool-cases, Option-cases,
  ◌==◌, nat_eq, string_eq, nat_test_iff,
}
use easyserver.Base.Members.{contains, Distinct}
use easyserver.Plugin.EventBus.{
  Event, Subscription, EventBus, or_empty, modify, receive, offer, publish,
}

pub lookup-modify :
    (f : Subscription → Subscription) (p q : ℕ) (heap : Map ℕ Subscription)
    → lookup q (modify f p heap) ≡ (if p == q then mapped f (lookup q heap) else lookup q heap)
lookup-modify f p q heap = elim (Option-cases (lookup p heap)) [
  | inl e ↦ ground (arith, e, nat_test_iff p q)
  | inr (s, e) ↦ ground (arith, e, nat_test_iff p q, lookup-insert p q (f s) heap)
]

lookup-offer :
    (evt : Event) (ps : List ℕ) (q : ℕ) (heap : Map ℕ Subscription)
    → Distinct ps
    → lookup q (offer evt ps heap)
      ≡ (if contains q ps then mapped (receive evt) (lookup q heap) else lookup q heap)
unfolding offer
lookup-offer evt [] q heap d = ground arith
lookup-offer evt (p ∷ ps) q heap d =
    let first = lookup-modify (receive evt) p q heap in
    let rest = lookup-offer evt ps q (modify (receive evt) p heap) d.1 in
    elim (Bool-cases (p == q)) [
      | inl same ↦
          let out : contains q ps ≡ false = rw (← ((nat_test_iff p q).0 same)) d.0 in
          ground (arith, same, first, rest, out)
      | inr other ↦ ground (arith, other, first, rest)
    ]

-- An event that can be encoded is put once into the queue of every subscription that its name leads
-- to, if no two subscribers share one, and leaves every other subscription as it was.
pub publish_reaches :
    (evt : Event) (q : ℕ) (b : EventBus)
    → Distinct (values (or_empty (lookup evt.name b.subs)))
    → lookup q (publish evt true b).heap ≡ (
        if contains q (values (or_empty (lookup evt.name b.subs)))
        then mapped (receive evt) (lookup q b.heap)
        else lookup q b.heap)
unfolding publish
publish_reaches evt q b d = lookup-offer evt (values (or_empty (lookup evt.name b.subs))) q b.heap d
