-- ===== src/Plugin/EventBus/Queue.antt =====
-- What a full queue keeps.
use easyserver.Base.{
  ℕ, zero, suc, ◌+◌, ◌-◌, ◌≤◌, ◌≡◌, refl, sym, ap, ◌∙◌, inl, inr, List, [], ◌∷◌, ◌++◌, arith, ltb,
  Bool-cases, nat_eq, string_eq, length, drop, length-append, length-drop,
}
use mathlib.Core.List.{append-nil, append_assoc}
use easyserver.Plugin.EventBus.{Event, event_queue_size, enqueue}

unfoldable pub enqueue_all : List Event → List Event → List Event
enqueue_all [] q = q
enqueue_all (e ∷ es) q = enqueue_all es (enqueue e q)

length-enqueue :
    (e : Event) (q : List Event)
    → length q ≤ event_queue_size
    → length (enqueue e q) ≤ event_queue_size
unfolding enqueue
length-enqueue e q h =
    ground (arith, h, length-append q (e ∷ []), length-append (drop 1 q) (e ∷ []), length-drop 1 q)

-- The last `n` elements.
abbrev pub last_of {ℓ} : {A : Type ℓ} → ℕ → List A → List A
last_of n xs = drop (length xs - n) xs

drop-append {ℓ} :
    {A : Type ℓ} (n : ℕ) (xs ys : List A) → n ≤ length xs → drop n (xs ++ ys) ≡ drop n xs ++ ys
drop-append zero xs ys h = refl
drop-append (suc n) [] ys h = absurd (omega (arith, h))
drop-append (suc n) (x ∷ xs) ys h = drop-append n xs ys (omega (arith, h))

drop-none {ℓ} : {A : Type ℓ} (n : ℕ) → drop {A = A} n [] ≡ []
drop-none zero = refl
drop-none (suc n) = refl

add_suc : (n m : ℕ) → suc n + m ≡ suc (n + m)
add_suc n m = omega arith

drop-drop {ℓ} : {A : Type ℓ} (m n : ℕ) (xs : List A) → drop m (drop n xs) ≡ drop (n + m) xs
drop-drop {A = A} m zero xs = ap (λ k. drop {A = A} k xs) (omega arith)
drop-drop {A = A} m (suc n) [] = drop-none m ∙ sym (drop-none (suc n + m))
drop-drop {A = A} m (suc n) (x ∷ xs) =
    drop-drop m n xs ∙ sym (ap (λ k. drop {A = A} k (x ∷ xs)) (add_suc n m))

-- An event enqueued leaves the last thousand of the queue and it.
enqueue_lem :
    (e : Event) (q : List Event)
    → length q ≤ event_queue_size
    → enqueue e q ≡ last_of event_queue_size (q ++ (e ∷ []))
unfolding enqueue
enqueue_lem e q h =
    let n = length-append q (e ∷ []) in
    elim (Bool-cases (ltb (length q) event_queue_size)) [
      | inl room ↦
          let none' : length (q ++ (e ∷ [])) - event_queue_size ≡ 0 = ground (arith, n, room) in
          rw (room, none') refl
      | inr full ↦
          let one : length (q ++ (e ∷ [])) - event_queue_size ≡ 1 = ground (arith, n, full, h) in
          rw (full, one) (sym (drop-append 1 q (e ∷ []) (ground (arith, full))))
    ]

-- Whatever is published while a subscriber does not read, its queue holds the last thousand of what
-- it held and what came since, in order.
pub enqueue_all_lem :
    (es q : List Event)
    → length q ≤ event_queue_size
    → enqueue_all es q ≡ last_of event_queue_size (q ++ es)
unfolding enqueue_all
enqueue_all_lem [] q h =
    let none' : length q - event_queue_size ≡ 0 = omega (arith, h) in rw (append-nil q, none') refl
enqueue_all_lem (e ∷ es) q h =
    let k = length (q ++ (e ∷ [])) - event_queue_size in
    let all = q ++ (e ∷ es) in
    let one = length-append q (e ∷ []) in
    let glued : (q ++ (e ∷ [])) ++ es ≡ all = append_assoc q (e ∷ []) es in
    let kept : enqueue e q ++ es ≡ drop k all =
      ap (λ x. x ++ es) (enqueue_lem e q h)
      ∙ sym (drop-append k (q ++ (e ∷ [])) es (omega arith))
      ∙ ap (drop k) glued in
    let rest = enqueue_all_lem es (enqueue e q) (length-enqueue e q h) in
    let count' : k + (length (drop k all) - event_queue_size) ≡ length all - event_queue_size =
      omega (arith, length-drop k all, length-append q (e ∷ es), one, h) in
    rest
    ∙ ap (last_of event_queue_size) kept
    ∙ drop-drop (length (drop k all) - event_queue_size) k all
    ∙ ap (λ j. drop j all) count'
