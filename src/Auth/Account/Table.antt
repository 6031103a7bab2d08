-- ===== src/Auth/Account/Table.antt =====
-- The table of users: what an update of a row does to the user that a name finds.
use easyserver.Base.Map.{lookup, insert, Unique, insert-Unique}
use easyserver.Base.{
  ℕ, String, ◌≡◌, ◌∙◌, inl, inr, some, [], ◌∷◌, arith, Bool-cases, Option-cases, ◌==◌, nat_eq,
  string_eq, nat_test_iff,
}
use easyserver.Base.Entries.{Entries, insert-Entries, lookup-Entries}
use easyserver.Auth.User.{User}
use easyserver.Auth.Account.{Users, get_by_username, update}

-- Every row stands under its own id, once.
pub record IsTable (m : Users) : Type 0 where
  pub unique : Unique m
  pub keyed : Entries (λ id u. u.id ≡ id) m

pub get_by_username-lookup :
    (name : String) (m : Users) (u : User)
    → IsTable m
    → get_by_username name m ≡ some u
    → (lookup u.id m ≡ some u) × (u.username ≡ name)
unfolding get_by_username lookup
get_by_username-lookup name [] u h e = absurd (cc)
get_by_username-lookup name ((k, w) ∷ m) u h e = elim (Bool-cases (w.username == name)) [
  | inl same ↦
      let is : w ≡ u = ground (arith, e, same) in
      let key : w.id ≡ k = h.keyed.0 in
      rw (← is)
        (ground (arith, key, nat_test_iff k w.id), (string_eq.test_iff w.username name).0 same)
  | inr other ↦
      let rest =
        get_by_username-lookup name m u (record { unique = h.unique.1; keyed = h.keyed.1 })
          (ground (arith, e, other)) in
      (ground (arith, rest.0, h.unique.0, nat_test_iff k u.id), rest.1)
]

named_insert :
    (name : String) (new u : User) (m : Users)
    → IsTable m
    → get_by_username name m ≡ some u
    → new.username ≡ u.username
    → get_by_username name (insert u.id new m) ≡ some new
unfolding get_by_username insert lookup
named_insert name new u [] h e n = absurd (cc)
named_insert name new u ((k, w) ∷ m) h e n = elim (Bool-cases (w.username == name)) [
  | inl same ↦
      let is : w ≡ u = ground (arith, e, same) in
      let key : w.id ≡ k = h.keyed.0 in ground (arith, is, key, same, n, nat_test_iff k u.id)
  | inr other ↦
      let e' : get_by_username name m ≡ some u = ground (arith, e, other) in
      let table : IsTable m = record { unique = h.unique.1; keyed = h.keyed.1 } in
      let found = get_by_username-lookup name m u table e' in
      let rest = named_insert name new u m table e' n in
      ground (arith, h.unique.0, found.0, rest, other, nat_test_iff k u.id)
]

-- The update of the row that a name finds.
pub get_by_username-update :
    (f : User → User) (name : String) (u : User) (m : Users)
    → IsTable m
    → get_by_username name m ≡ some u
    → (f u).username ≡ u.username
    → get_by_username name (update f u.id m) ≡ some (f u)
get_by_username-update f name u m h e n =
    let found = (get_by_username-lookup name m u h e).0 in
    let put = named_insert name (f u) u m h e n in ground (arith, found, put)

pub update-IsTable :
    (f : User → User) (id : ℕ) (m : Users)
    → ((u : User) → (f u).id ≡ u.id)
    → IsTable m
    → IsTable (update f id m)
update-IsTable f id m keeps h = elim (Option-cases (lookup id m)) [
  | inl e ↦ rw (e, update) h
  | inr (u, e) ↦
      let key : u.id ≡ id = lookup-Entries (λ k v. v.id ≡ k) id m h.keyed e in
      rw (e, update)
        (record {
          unique = insert-Unique id (f u) m h.unique;
          keyed = insert-Entries (λ k v. v.id ≡ k) id (f u) m (keeps u ∙ key) h.keyed;
        })
]
