-- ===== src/Auth/Permission.antt =====
-- runtime/auth/role.go: permission patterns, over the bytes of a Go string.
pub mod Cover
use sdk_api.Base.{
  ℕ, zero, suc, ◌+◌, ◌-◌, ◌*◌, ◌≤◌, ◌<◌, min, max, String, ◌≡◌, refl, sym, ap, ◌∙◌, ◌≢◌, ◌↔◌, ◌⊎◌,
  inl, inr, Bool, true, false, not, ◌&&◌, ◌||◌, Option, none, some, List, [], ◌∷◌, ◌++◌, map, arith,
  ltb, leb, nat_beq, nat_beq_iff, Eq, ◌==◌, ==_iff, nat_eq, string_eq, if◌then◌else◌, Bool-cases,
  Option-cases, is_some, length, get_elem?, set, take, length-append, length-set,
  get_elem?-append_last, get_elem?-append_left, get_elem?-set_ne, get_elem?-set_self, All, Map,
  lookup, insert, delete, lookup-insert, lookup-delete, contains, contains-cons_self,
  contains-cons_of_contains, contains-cons_cases,
}
use sdk_api.Base.Bytes.{Bytes, bytes_eq}

-- `indexByte`; `none` stands for the result -1.
unfoldable pub index_byte : Bytes → ℕ → Option ℕ
index_byte [] b = none
index_byte (c ∷ s) b =
    let later : Option ℕ = elim (index_byte s b) [ none ↦ none | some i ↦ some (suc i) ] in
    if c == b then some 0 else later

-- `MatchPermission`.
unfoldable pub match_permission : Bytes → Bytes → Bool
match_permission granted required =
    if granted == required then true else elim (index_byte granted b'*') [
      | none ↦ false
      | some i ↦
          let prefix = take i granted in
          leb (length prefix) (length required) && take (length prefix) required == prefix
    ]

-- `MatchAnyPermission`.
unfoldable pub match_any_permission : List Bytes → Bytes → Bool
match_any_permission [] required = false
match_any_permission (g ∷ granted) required =
    if match_permission g required then true else match_any_permission granted required
