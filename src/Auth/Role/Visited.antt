-- ===== src/Auth/Role/Visited.antt =====
-- runtime/auth/role.go: what a search through the hierarchy establishes, by its fuel.
use sdk_api.Base.{
  ℕ, zero, suc, ◌<◌, String, ◌≡◌, refl, ◌≢◌, inl, inr, Bool, true, false, none, some, List, [], ◌∷◌,
  arith, ◌==◌, ==_iff, nat_eq, string_eq, Bool-cases, Option-cases, lookup, contains,
  contains-cons_self, contains-cons_of_contains, contains-cons_cases,
}
use sdk_api.Auth.Role.{RoleHierarchy, parents, Found, any_inherits, inherits_from}
use sdk_api.Auth.Role.Search.{
  Reaches, here, up, Subset, Subset-trans, Explored, Explored-trans, unseen, unseen-anti,
  unseen-cons_lt,
}

parents_of_none : (h : RoleHierarchy) (role : String) → lookup role h ≡ none → parents h role ≡ []
unfolding parents
parents_of_none h role e = ground arith

parents_of_some :
    (h : RoleHierarchy) (role : String) (roles : List String)
    → lookup role h ≡ some roles
    → parents h role ≡ roles
unfolding parents
parents_of_some h role roles e = ground arith

module _ (h : RoleHierarchy) (required : String) where
  -- What a search from each of `roles` with `seen` visited has established.
  pub record Visited (roles seen : List String) (r : Found) : Type 0 where
    pub found : Bool
    pub after : List String
    pub ended : r ≡ some (found, after)
    pub grows : Subset seen after
    pub sound :
        found ≡ true → (role : String) × (contains roles role ≡ true) × Reaches h required role
    pub complete : found ≡ false → Subset roles after × Explored h required seen after

  Visited-nil : (seen : List String) → Visited [] seen (some (false, seen))
  unfolding contains
  Visited-nil seen = record {
    found = false;
    after = seen;
    ended = refl;
    grows = λ x m. m;
    sound = λ e. cc;
    complete = λ e. (λ x m. cc, λ x m. inl m);
  }

  -- Two searches in a row, where the first found nothing.
  Visited-cons :
      (r : String) (rs seen : List String) (first later : Found) (v : Visited (r ∷ []) seen first)
      → v.found ≡ false
      → Visited rs v.after later
      → Visited (r ∷ rs) seen later
  Visited-cons r rs seen first later v e w = record {
    found = w.found;
    after = w.after;
    ended = w.ended;
    grows = Subset-trans seen v.after w.after v.grows w.grows;
    sound = λ f.
        let (role, m, reached) = w.sound f in
        (role, contains-cons_of_contains r role rs m, reached);
    complete = λ f.
        let (one, explored) = v.complete e in
        let (rest, explored') = w.complete f in
        (
          λ x m. elim (contains-cons_cases r x rs m) [
            | inl same ↦ w.grows x (one x (rw same (contains-cons_self x [])))
            | inr later ↦ rest x later
          ],
          Explored-trans h required seen v.after w.after explored explored' w.grows,
        );
  }

  Visited-hit :
      (r : String) (rs seen : List String) (first : Found) (v : Visited (r ∷ []) seen first)
      → v.found ≡ true
      → Visited (r ∷ rs) seen (some (true, v.after))
  unfolding contains
  Visited-hit r rs seen first v e = record {
    found = true;
    after = v.after;
    ended = refl;
    grows = v.grows;
    sound = λ f. let (role, m, reached) = v.sound e in (role, ground arith, reached);
    complete = λ f. cc;
  }

  module _ (visit : String → List String → Found) (base : List String)
      (each : (r : String) (s : List String) → Subset base s → Visited (r ∷ []) s (visit r s)) where
    any_inherits-Visited :
        (rs seen : List String) → Subset base seen → Visited rs seen (any_inherits visit rs seen)
    unfolding any_inherits
    any_inherits-Visited [] seen b = Visited-nil seen
    any_inherits-Visited (r ∷ rs) seen b =
        let v = each r seen b in
        let rest = any_inherits-Visited rs v.after (Subset-trans base seen v.after b v.grows) in
        elim (Bool-cases v.found) [
          | inl hit ↦ rw (v.ended, any_inherits) (rw hit (Visited-hit r rs seen _ v hit))
          | inr miss ↦ rw (v.ended, any_inherits) (rw miss (Visited-cons r rs seen _ _ v miss rest))
        ]

  Visited-required :
      (role : String) (seen : List String)
      → role ≡ required
      → Visited (role ∷ []) seen (some (true, seen))
  Visited-required role seen e = record {
    found = true;
    after = seen;
    ended = refl;
    grows = λ x m. m;
    sound = λ f. (role, contains-cons_self role [], here e);
    complete = λ f. cc;
  }

  contains_one :
      (r x : String) (xs : List String)
      → contains (r ∷ []) x ≡ true
      → contains xs r ≡ true
      → contains xs x ≡ true
  unfolding contains
  contains_one r x xs m k = ground (arith, ==_iff r x)

  Visited-seen :
      (role : String) (seen : List String)
      → contains seen role ≡ true
      → Visited (role ∷ []) seen (some (false, seen))
  Visited-seen role seen k = record {
    found = false;
    after = seen;
    ended = refl;
    grows = λ x m. m;
    sound = λ f. cc;
    complete = λ f. (λ x m. contains_one role x seen m k, λ x m. inl m);
  }

  -- The search of the parents, read as the search of the role itself.
  Visited-parents :
      (role : String) (seen : List String) (r : Found)
      → role ≢ required
      → Visited (parents h role) (role ∷ seen) r
      → Visited (role ∷ []) seen r
  Visited-parents role seen r differs v = record {
    found = v.found;
    after = v.after;
    ended = v.ended;
    grows = λ x m. v.grows x (contains-cons_of_contains role x seen m);
    sound = λ f.
        let (parent, m, reached) = v.sound f in
        (role, contains-cons_self role [], up parent m reached);
    complete = λ f.
        let (held, explored) = v.complete f in
        (
          λ x m. contains_one role x v.after m (v.grows role (contains-cons_self role seen)),
          λ x m. elim (explored x m) [
            | inl old ↦ elim (contains-cons_cases role x seen old) [
              | inl same ↦ inr (rw (← same) (differs, held))
              | inr older ↦ inl older
            ]
            | inr new ↦ inr new
          ],
        );
  }

  -- A role without parents ends the search; any other is a key of the hierarchy, now visited.
  parents_deeper :
      (fuel : ℕ) (role : String) (seen : List String)
      → contains seen role ≡ false
      → unseen h seen < suc fuel
      → ((r : String) (s : List String)
          → unseen h s < fuel
          → Visited (r ∷ []) s (inherits_from fuel h required r s))
      → Visited
          (parents h role)
          (role ∷ seen)
          (any_inherits (λ r s. inherits_from fuel h required r s) (parents h role) (role ∷ seen))
  unfolding any_inherits
  parents_deeper fuel role seen new enough deeper = elim (Option-cases (lookup role h)) [
    | inl missing ↦ rw (parents_of_none h role missing) (Visited-nil (role ∷ seen))
    | inr (roles, listed) ↦ rw (parents_of_some h role roles listed) (
        any_inherits-Visited _ (role ∷ seen)
          (λ r s b. deeper r s (
            omega (
              arith,
              unseen-cons_lt h role roles seen listed new,
              unseen-anti h (role ∷ seen) s b,
            )))
          roles (role ∷ seen) (λ x m. m))
  ]

  pub inherits_from-Visited :
      (fuel : ℕ) (role : String) (seen : List String)
      → unseen h seen < fuel
      → Visited (role ∷ []) seen (inherits_from fuel h required role seen)
  unfolding inherits_from
  inherits_from-Visited zero role seen enough = absurd (omega arith)
  inherits_from-Visited (suc fuel) role seen enough = elim (Bool-cases (role == required)) [
    | inl same ↦ rw same (Visited-required role seen ((==_iff role required).0 same))
    | inr differs ↦ rw differs (elim (Bool-cases (contains seen role)) [
      | inl old ↦ rw old (Visited-seen role seen old)
      | inr new ↦ rw new (
          Visited-parents role seen _ (λ e. cc ((==_iff role required).1 e))
            (parents_deeper fuel role seen new enough (inherits_from-Visited fuel)))
    ])
  ]
