-- ===== src/Server/Rbac.antt =====
-- internal/server/middleware/rbac.go: what each role may do.
use iskele.Common.{
  String, ◌≡◌, refl, Bool, true, false, Option, none, some, List, [], ◌∷◌, any, select, ◌==◌,
}
use iskele.Store.{Role, admin, operator, viewer, other}

-- `Permission` is a string in the source: `unlisted` stands for every value but the eight constants.
pub data Permission : Type 0 where
  read operate create delete build prune privileged administer : Permission
  unlisted : String → Permission

-- the equality of two permissions, as texts
unfoldable pub same_permission : Permission → Permission → Bool
same_permission read read = true
same_permission operate operate = true
same_permission create create = true
same_permission delete delete = true
same_permission build build = true
same_permission prune prune = true
same_permission privileged privileged = true
same_permission administer administer = true
same_permission (unlisted s) (unlisted t) = s == t
same_permission _ _ = false

-- allPermissions
abbrev pub all_permissions : List Permission
all_permissions = read ∷ operate ∷ create ∷ delete ∷ build ∷ prune ∷ privileged ∷ administer ∷ []

-- rolePermissions: a key of the map with the permissions that are true under it
unfoldable pub role_permissions : Role → Option (List Permission)
role_permissions viewer = some (read ∷ [])
role_permissions operator = some (read ∷ operate ∷ create ∷ delete ∷ [])
role_permissions admin =
    some (read ∷ operate ∷ create ∷ delete ∷ build ∷ prune ∷ privileged ∷ administer ∷ [])
role_permissions (other s) = none

-- RoleHas
unfoldable pub role_has : Role → Permission → Bool
unfolding role_permissions same_permission
role_has role perm = elim (role_permissions role) [
  | none ↦ false
  | some perms ↦ any (same_permission perm) perms
]

-- what `rolePermissions[role]` reads: no permission, for a role that is not a key
unfoldable or_none : Option (List Permission) → List Permission
or_none none = []
or_none (some perms) = perms

-- PermissionsOf
unfoldable pub permissions_of : Role → List Permission
unfolding or_none role_permissions same_permission
permissions_of role =
    let perms = or_none (role_permissions role) in
    select (λ p. any (same_permission p) perms) all_permissions

-- What the interface is told that a role may do is what the role may do, for every role and every
-- permission, the values that are none of the constants included.
any-permissions_of :
    (role : Role) (perm : Permission)
    → any (same_permission perm) (permissions_of role) ≡ role_has role perm
unfolding permissions_of role_has
any-permissions_of viewer perm = refl
any-permissions_of operator perm = refl
any-permissions_of admin perm = refl
any-permissions_of (other s) perm = refl
