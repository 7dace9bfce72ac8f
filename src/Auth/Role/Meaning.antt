-- ===== src/Auth/Role/Meaning.antt =====
-- runtime/auth/role.go, `Inherits` and `Satisfies`: what they decide.
use sdk_api.Base.{
  suc, String, ◌≡◌, ◌↔◌, inl, inr, Bool, true, some, List, [], ◌∷◌, arith, ==_iff, nat_eq,
  string_eq, Bool-cases, length, contains, contains-cons_self, contains-cons_cases,
}
use sdk_api.Auth.Role.{RoleHierarchy, inherits_from, inherits, satisfies}
use sdk_api.Auth.Role.Visited.{Visited, inherits_from-Visited}
use sdk_api.Auth.Role.Search.{Reaches, here, up, Explored, unseen-nil}

module _ (h : RoleHierarchy) (required : String) where
  no_way_out :
      (after : List String) (role : String)
      → Explored h required [] after
      → contains after role ≡ true
      → ¬ Reaches h required role
  unfolding contains
  no_way_out after role explored m (here same) = elim (explored role m) [
    | inl none_seen ↦ cc
    | inr (differs, kept) ↦ differs same
  ]
  no_way_out after role explored m (up parent listed reached) = elim (explored role m) [
    | inl none_seen ↦ cc
    | inr (differs, kept) ↦ no_way_out after parent explored (kept parent listed) reached
  ]

  at_root :
      (role r : String)
      → contains (role ∷ []) r ≡ true
      → Reaches h required r
      → Reaches h required role
  unfolding contains
  at_root role r m reached = elim (contains-cons_cases role r [] m) [
    | inl same ↦ rw same reached
    | inr none_left ↦ cc
  ]

  root_search :
      (role : String)
      → Visited h required (role ∷ []) [] (inherits_from (suc (length h)) h required role [])
  root_search role = inherits_from-Visited h required _ role [] (omega (arith, unseen-nil h))

  -- The search ends with an answer for every hierarchy, cyclic ones included: the fuel that
  -- `inherits` gives, one more than the number of keys, is enough.
  pub inherits_from_total :
      (role : String)
      → (found : Bool) × (seen : List String) × (inherits_from (suc (length h)) h required role []
          ≡ some (found, seen))
  inherits_from_total role = let v = root_search role in (v.found, v.after, v.ended)

  -- `Inherits(role, required)` is true exactly when `required` can be reached from `role` by going
  -- up the hierarchy any number of times, for every hierarchy, cyclic ones included.
  pub inherits_iff : (role : String) → (inherits h role required ≡ true) ↔ Reaches h required role
  unfolding inherits
  inherits_iff role =
      let v = root_search role in
      rw v.ended (
        λ e. let (r, m, reached) = v.sound e in at_root role r m reached,
        λ reached. elim (Bool-cases v.found) [
          | inl found ↦ found
          | inr missed ↦
              let (kept, explored) = v.complete missed in
              absurd
                (no_way_out v.after role explored (kept role (contains-cons_self role [])) reached)
        ],
      )

satisfies_sound :
    (h : RoleHierarchy) (required : String) (user_roles : List String)
    → satisfies h user_roles required ≡ true
    → (role : String) × (contains user_roles role ≡ true) × Reaches h required role
unfolding satisfies contains
satisfies_sound h required [] e = cc
satisfies_sound h required (r ∷ rs) e = elim (Bool-cases (inherits h r required)) [
  | inl hit ↦ (r, ground (arith, ==_iff r r), (inherits_iff h required r).0 hit)
  | inr miss ↦
      let (role, m, reached) = satisfies_sound h required rs (ground arith) in
      (role, ground arith, reached)
]

satisfies_complete :
    (h : RoleHierarchy) (required : String) (user_roles : List String) (role : String)
    → contains user_roles role ≡ true
    → Reaches h required role
    → satisfies h user_roles required ≡ true
unfolding satisfies contains
satisfies_complete h required [] role m reached = cc
satisfies_complete h required (r ∷ rs) role m reached = elim (contains-cons_cases r role rs m) [
  | inl same ↦ let hit = (inherits_iff h required role).1 reached in ground arith
  | inr later ↦ let hit = satisfies_complete h required rs role later reached in ground arith
]

-- `Satisfies` is true exactly when one of the user's roles reaches the required role.
pub satisfies_iff :
    (h : RoleHierarchy) (required : String) (user_roles : List String)
    → (satisfies h user_roles required ≡ true)
      ↔ ((role : String) × (contains user_roles role ≡ true) × Reaches h required role)
satisfies_iff h required user_roles = (
  satisfies_sound h required user_roles,
  λ (role, m, reached). satisfies_complete h required user_roles role m reached,
)
