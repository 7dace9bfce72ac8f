-- ===== src/Auth/Role/Search.antt =====
-- runtime/auth/role.go, `inherits`: the depth-first search ends, and what it has established.
use sdk_api.Base.{
  ℕ, ◌+◌, ◌≤◌, ◌<◌, String, ◌≡◌, refl, ◌≢◌, ◌⊎◌, inl, inr, true, false, some, List, [], ◌∷◌, arith,
  ==_iff, nat_eq, string_eq, if◌then◌else◌, length, lookup, contains, contains-cons_self,
  contains-cons_of_contains,
}
use sdk_api.Auth.Role.{RoleHierarchy, parents}

-- The search that the code is to perform: `role` is `required`, or inherits a role that reaches it.
pub data Reaches (h : RoleHierarchy) (required : String) : String → Type 0 where
  here : {role : String} → role ≡ required → Reaches h required role
  up :
      {role : String} (parent : String)
      → contains (parents h role) parent ≡ true
      → Reaches h required parent
      → Reaches h required role

abbrev pub Subset : List String → List String → Type 0
Subset xs ys = (x : String) → contains xs x ≡ true → contains ys x ≡ true

pub Subset-trans : (xs ys zs : List String) → Subset xs ys → Subset ys zs → Subset xs zs
Subset-trans xs ys zs f g x h = g x (f x h)

-- All that was added to `seen` is not the required role, and has all its parents in it.
abbrev pub Explored : RoleHierarchy → String → List String → List String → Type 0
Explored h required seen after =
    (x : String)
    → contains after x ≡ true
    → (contains seen x ≡ true) ⊎ ((x ≢ required) × Subset (parents h x) after)

pub Explored-trans :
    (h : RoleHierarchy) (required : String) (xs ys zs : List String)
    → Explored h required xs ys
    → Explored h required ys zs
    → Subset ys zs
    → Explored h required xs zs
Explored-trans h required xs ys zs f g s x m = elim (g x m) [
  | inl old ↦ elim (f x old) [
    | inl older ↦ inl older
    | inr (differs, kept) ↦ inr (differs, Subset-trans _ _ _ kept s)
  ]
  | inr new ↦ inr new
]

-- The keys of the hierarchy that are still to be visited.
pub unseen : RoleHierarchy → List String → ℕ
unseen [] seen = 0
unseen ((k, _) ∷ h) seen = (if contains seen k then 0 else 1) + unseen h seen

pub unseen-nil : (h : RoleHierarchy) → unseen h [] ≡ length h
unfolding unseen contains
unseen-nil [] = refl
unseen-nil ((k, _) ∷ h) = omega (arith, unseen-nil h)

pub unseen-anti :
    (h : RoleHierarchy) (xs ys : List String) → Subset xs ys → unseen h ys ≤ unseen h xs
unfolding unseen
unseen-anti [] xs ys s = omega arith
unseen-anti ((k, v) ∷ h) xs ys s = ground (arith, unseen-anti h xs ys s, s k)

pub unseen-cons_lt :
    (h : RoleHierarchy) (role : String) (roles seen : List String)
    → lookup role h ≡ some roles
    → contains seen role ≡ false
    → unseen h (role ∷ seen) < unseen h seen
unfolding unseen lookup
unseen-cons_lt [] role roles seen e n = cc
unseen-cons_lt ((k, v) ∷ h) role roles seen e n = ground (
  arith,
  ==_iff k role,
  contains-cons_self role seen,
  contains-cons_of_contains role k seen,
  unseen-cons_lt h role roles seen,
  unseen-anti h seen (role ∷ seen) (λ x. contains-cons_of_contains role x seen),
)
