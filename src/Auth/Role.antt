-- ===== src/Auth/Role.antt =====
-- runtime/auth/role.go: the role hierarchy. A hierarchy is a map from a role to the roles that it
-- inherits from; `seen` is the map of visited roles, which one search shares between all its calls.
pub mod Search
pub mod Visited
pub mod Meaning
use sdk_api.Base.{
  ℕ, zero, suc, ◌+◌, ◌-◌, ◌*◌, ◌≤◌, ◌<◌, min, max, String, ◌≡◌, refl, sym, ap, ◌∙◌, ◌≢◌, ◌↔◌, ◌⊎◌,
  inl, inr, Bool, true, false, not, ◌&&◌, ◌||◌, Option, none, some, List, [], ◌∷◌, ◌++◌, map, arith,
  ltb, leb, nat_beq, nat_beq_iff, Eq, ◌==◌, ==_iff, nat_eq, string_eq, if◌then◌else◌, Bool-cases,
  Option-cases, is_some, length, get_elem?, set, take, length-append, length-set,
  get_elem?-append_last, get_elem?-append_left, get_elem?-set_ne, get_elem?-set_self, All, Map,
  lookup, insert, delete, lookup-insert, lookup-delete, contains, contains-cons_self,
  contains-cons_of_contains, contains-cons_cases,
}

abbrev pub RoleHierarchy : Type 0
RoleHierarchy = Map String (List String)

-- `h[role]`, where a missing key reads as the nil slice.
unfoldable pub parents : RoleHierarchy → String → List String
parents h role = elim (lookup role h) [ none ↦ [] | some roles ↦ roles ]

-- The result of a search and the roles seen so far; `none` when the fuel ran out.
abbrev pub Found : Type 0
Found = Option (Bool × List String)

-- The loop over `h[userRole]`, which stops at the first role that inherits the required one.
unfoldable pub any_inherits : (String → List String → Found) → List String → List String → Found
any_inherits visit [] seen = some (false, seen)
any_inherits visit (r ∷ rs) seen = elim (visit r seen) [
  | none ↦ none
  | some (found, seen') ↦ if found then some (true, seen') else any_inherits visit rs seen'
]

-- `inherits`, on fuel for the depth of the recursion.
unfoldable pub inherits_from : ℕ → RoleHierarchy → String → String → List String → Found
inherits_from zero h required role seen = none
inherits_from (suc fuel) h required role seen =
    let deeper =
      any_inherits (λ r s. inherits_from fuel h required r s) (parents h role) (role ∷ seen) in
    if role == required
    then some (true, seen)
    else if contains seen role
    then some (false, seen)
    else deeper

abbrev verdict : Found → Bool
verdict none = false
verdict (some (found, _)) = found

-- `Inherits`: one role more than the hierarchy has keys is depth enough.
unfoldable pub inherits : RoleHierarchy → String → String → Bool
inherits h user_role required = verdict (inherits_from (suc (length h)) h required user_role [])

-- `Satisfies`.
unfoldable pub satisfies : RoleHierarchy → List String → String → Bool
satisfies h [] required = false
satisfies h (r ∷ rs) required = inherits h r required || satisfies h rs required
