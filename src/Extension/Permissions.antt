-- ===== src/Extension/Permissions.antt =====
-- packages/extension/src/lib/permissions.ts: `PermissionManager`, which origins may use the
-- extension. The browser's storage under the manager's key is part of the state; the clock and the
-- browser's name are arguments. The storage is taken not to fail.
pub mod Decisions
use holo_web_conductor.Common.{ℕ, Bool, true, false, Option, none, some, List, [], Text, map}
use holo_web_conductor.Common.JsMap
use holo_web_conductor.Common.JsMap.{JsMap}

pub record Permission : Type 0 where
  pub origin : Text
  pub granted : Bool
  pub timestamp : ℕ
  pub user_agent : Option Text
  pub title : Option Text
  pub favicon_url : Option Text

-- `PermissionsState`, and `StoredPermissionsState` with the same fields.
pub record PermissionsState : Type 0 where
  pub permissions : JsMap Permission
  pub version : ℕ

-- `stored` is what the browser's storage holds.
pub record PermissionManager : Type 0 where
  pub current_state : Option PermissionsState
  pub stored : Option PermissionsState

-- A value, or the error "Permissions state not initialized".
pub data Outcome (A : Type 0) : Type 0 where
  value : A → Outcome A
  not_initialized : Outcome A

-- The optional `meta` of a grant.
pub record Meta : Type 0 where
  pub title : Option Text
  pub favicon_url : Option Text

abbrev pub first_state : PermissionsState
first_state = record { permissions = []; version = 1 }

-- `loadState`
unfoldable pub load_state : PermissionManager → PermissionManager
load_state m = record m {
  current_state = elim m.stored [ none ↦ some first_state | some s ↦ some s ];
}

-- `saveState`, of a state that is there.
abbrev save : PermissionsState → PermissionManager
save s = record { current_state = some s; stored = some s }

-- A method that changes the permissions and saves them.
pub change : (JsMap Permission → JsMap Permission) → PermissionManager → Outcome PermissionManager
change f m = elim m.current_state [
  | none ↦ not_initialized
  | some s ↦ value (save (record s { permissions = f s.permissions }))
]

-- `checkPermission`
unfoldable pub check_permission : Text → PermissionManager → Outcome (Option Permission)
check_permission origin m = elim m.current_state [
  | none ↦ not_initialized
  | some s ↦ value (JsMap.get origin s.permissions)
]

abbrev meta_title : Option Meta → Option Text
meta_title none = none
meta_title (some m) = m.title

abbrev meta_favicon_url : Option Meta → Option Text
meta_favicon_url none = none
meta_favicon_url (some m) = m.favicon_url

abbrev pub granting : Text → Option Meta → ℕ → Option Text → Permission
granting origin about now agent = record {
  origin = origin;
  granted = true;
  timestamp = now;
  user_agent = agent;
  title = meta_title about;
  favicon_url = meta_favicon_url about;
}

abbrev pub denying : Text → ℕ → Option Text → Permission
denying origin now agent = record {
  origin = origin;
  granted = false;
  timestamp = now;
  user_agent = agent;
  title = none;
  favicon_url = none;
}

-- `grantPermission`
unfoldable pub grant_permission :
    Text → Option Meta → ℕ → Option Text → PermissionManager → Outcome PermissionManager
unfolding change
grant_permission origin about now agent m =
    change (JsMap.set origin (granting origin about now agent)) m

-- `denyPermission`
unfoldable pub deny_permission :
    Text → ℕ → Option Text → PermissionManager → Outcome PermissionManager
unfolding change
deny_permission origin now agent m = change (JsMap.set origin (denying origin now agent)) m

-- `revokePermission`
unfoldable pub revoke_permission : Text → PermissionManager → Outcome PermissionManager
unfolding change
revoke_permission origin m = change (JsMap.delete origin) m

-- `listPermissions`
unfoldable pub list_permissions : PermissionManager → Outcome (List Permission)
list_permissions m = elim m.current_state [
  | none ↦ not_initialized
  | some s ↦ value (map (λ e. e.1) s.permissions)
]

-- `clearAllPermissions`
unfoldable pub clear_all_permissions : PermissionManager → Outcome PermissionManager
unfolding change
clear_all_permissions m = change (λ permissions. []) m

-- `reset`
unfoldable pub reset : PermissionManager → PermissionManager
reset m = record { current_state = some first_state; stored = none }
