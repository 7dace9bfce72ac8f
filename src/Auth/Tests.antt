-- ===== src/Auth/Tests.antt =====
-- runtime/auth/role.go on concrete roles and permissions.
use sdk_api.Base.{◌≡◌, refl, ◌↔◌, true, false, List, [], ◌∷◌, nat_eq, string_eq, lookup, contains}
use sdk_api.Base.Bytes.{Bytes, bytes_eq, codes}
use sdk_api.Auth.Role.{RoleHierarchy, parents, any_inherits, inherits_from, inherits, satisfies}
use sdk_api.Auth.Role.Search.{Reaches}
use sdk_api.Auth.Role.Meaning.{inherits_iff}
use sdk_api.Auth.Permission.{index_byte, match_permission}
use sdk_api.Auth.Permission.Cover.{Covers, match_permission_iff}

-- The last two roles inherit from each other.
abbrev hierarchy : RoleHierarchy
hierarchy =
    ("admin", "editor" ∷ []) ∷ ("editor", "viewer" ∷ []) ∷ ("a", "b" ∷ []) ∷ ("b", "a" ∷ []) ∷ []

inherits_tests :
    (inherits hierarchy "admin" "viewer" ≡ true)
    × (inherits hierarchy "viewer" "admin" ≡ false)
    × (inherits hierarchy "a" "viewer" ≡ false)
    × (satisfies hierarchy ("a" ∷ "editor" ∷ []) "viewer" ≡ true)
unfolding inherits inherits_from any_inherits satisfies contains lookup parents
inherits_tests = (refl, refl, refl, refl)

inherits_iff_example :
    (inherits hierarchy "admin" "viewer" ≡ true) ↔ Reaches hierarchy "viewer" "admin"
inherits_iff_example = inherits_iff hierarchy "viewer" "admin"

match_permission_tests :
    (match_permission (codes "users:*") (codes "users:read") ≡ true)
    × (match_permission (codes "users:*") (codes "orders:read") ≡ false)
    × (match_permission (codes "u*:read") (codes "users:write") ≡ true)
unfolding match_permission index_byte
match_permission_tests = (refl, refl, refl)

match_permission_iff_example :
    (match_permission (codes "u*:read") (codes "users:write") ≡ true)
    ↔ Covers (codes "u*:read") (codes "users:write")
match_permission_iff_example = match_permission_iff (codes "u*:read") (codes "users:write")

abbrev granted_two : List Bytes
granted_two = codes "posts:read" ∷ codes "users:*" ∷ []
