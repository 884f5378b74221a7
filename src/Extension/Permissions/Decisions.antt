-- ===== src/Extension/Permissions/Decisions.antt =====
-- The permissions after any sequence of calls on a loaded manager.
use holo_web_conductor.Common.{
  ℕ, ◌≡◌, refl, ap, ◌∙◌, Bool, true, false, Option, none, some, List, [], ◌∷◌, Text, arith, any,
  if◌then◌else◌, seq_eq,
}
use holo_web_conductor.Common.JsMap
use holo_web_conductor.Common.JsMap.{JsMap}
use holo_web_conductor.Extension.Permissions.{
  Permission, PermissionsState, PermissionManager, Outcome, value, not_initialized, Meta,
  first_state, load_state, change, check_permission, granting, denying, grant_permission,
  deny_permission, revoke_permission, clear_all_permissions, reset,
}

pub data Call : Type 0 where
  grants : Text → Option Meta → ℕ → Option Text → Call
  denies : Text → ℕ → Option Text → Call
  revokes : Text → Call
  clears : Call
  resets : Call
  reloads : Call

unfoldable pub step : Call → PermissionManager → Outcome PermissionManager
step (grants origin about now agent) m = grant_permission origin about now agent m
step (denies origin now agent) m = deny_permission origin now agent m
step (revokes origin) m = revoke_permission origin m
step clears m = clear_all_permissions m
step resets m = value (reset m)
step reloads m = value (load_state m)

abbrev then_call :
    (PermissionManager → Outcome PermissionManager)
    → Outcome PermissionManager
    → Outcome PermissionManager
then_call f not_initialized = not_initialized
then_call f (value m) = f m

-- The calls, the last one first.
unfoldable pub run : List Call → PermissionManager → Outcome PermissionManager
unfolding step
run [] m = value m
run (call ∷ calls) m = then_call (step call) (run calls m)

-- A field of what is told of an origin, if anything is.
abbrev pub told : (Meta → Option Text) → Option Meta → Option Text
told field none = none
told field (some about) = field about

-- What a call decides of an origin, where `before` was decided before.
abbrev pub decide : Text → Call → Option Permission → Option Permission
decide o (grants origin about now agent) before =
    if seq_eq origin o
    then some (record {
      origin = origin;
      granted = true;
      timestamp = now;
      user_agent = agent;
      title = told (λ t. t.title) about;
      favicon_url = told (λ t. t.favicon_url) about;
    })
    else before
decide o (denies origin now agent) before =
    if seq_eq origin o
    then some (record {
      origin = origin;
      granted = false;
      timestamp = now;
      user_agent = agent;
      title = none;
      favicon_url = none;
    })
    else before
decide o (revokes origin) before = if seq_eq origin o then none else before
decide o clears before = none
decide o resets before = none
decide o reloads before = before

unfoldable pub decision : Text → List Call → Option Permission → Option Permission
decision o [] before = before
decision o (call ∷ calls) before = decide o call (decision o calls before)

-- The state is there, the storage gives the same back, and the origin has the permission.
abbrev Holds : Text → Option Permission → Outcome PermissionManager → Type 0
Holds o p r =
    (m : PermissionManager) × (s : PermissionsState) × (r ≡ value m)
    × (m.current_state ≡ some s)
    × (load_state m ≡ m)
    × (JsMap.get o s.permissions ≡ p)

change-Holds :
    (o : Text) (f : JsMap Permission → JsMap Permission) (p : Option Permission)
    (m : PermissionManager) (s : PermissionsState)
    → m.current_state ≡ some s
    → JsMap.get o (f s.permissions) ≡ p
    → Holds o p (change f m)
unfolding change load_state
change-Holds o f p m s e h =
    let s' = record s { permissions = f s.permissions } in
    (record { current_state = some s'; stored = some s' }, s', rw e refl, refl, refl, h)

step-Holds :
    (o : Text) (call : Call) (p : Option Permission) (m : PermissionManager) (s : PermissionsState)
    → m.current_state ≡ some s
    → load_state m ≡ m
    → JsMap.get o s.permissions ≡ p
    → Holds o (decide o call p) (step call m)
unfolding step grant_permission deny_permission revoke_permission clear_all_permissions reset
    load_state JsMap.get
step-Holds o (grants origin none now agent) p m s e d h =
    let new = granting origin none now agent in
    change-Holds o (JsMap.set origin new) _ m s e
      (JsMap.get-set origin o new s.permissions ∙ rw h refl)
step-Holds o (grants origin (some about) now agent) p m s e d h =
    let new = granting origin (some about) now agent in
    change-Holds o (JsMap.set origin new) _ m s e
      (JsMap.get-set origin o new s.permissions ∙ rw h refl)
step-Holds o (denies origin now agent) p m s e d h =
    let new = denying origin now agent in
    change-Holds o (JsMap.set origin new) _ m s e
      (JsMap.get-set origin o new s.permissions ∙ rw h refl)
step-Holds o (revokes origin) p m s e d h =
    change-Holds o (JsMap.delete origin) _ m s e
      (JsMap.get-delete origin o s.permissions ∙ rw h refl)
step-Holds o clears p m s e d h = change-Holds o (λ permissions. []) none m s e refl
step-Holds o resets p m s e d h = (reset m, first_state, refl, refl, refl, refl)
step-Holds o reloads p m s e d h = (m, s, ap value d, e, d, h)

run-Holds :
    (o : Text) (calls : List Call) (m : PermissionManager) (s : PermissionsState)
    → m.current_state ≡ some s
    → load_state m ≡ m
    → Holds o (decision o calls (JsMap.get o s.permissions)) (run calls m)
unfolding run decision
run-Holds o [] m s e d = (m, s, refl, e, d, refl)
run-Holds o (call ∷ calls) m s e d =
    let (m', s', r, e', d', h) = run-Holds o calls m s e d in
    rw r (step-Holds o call _ m' s' e' d' h)

checked :
    (o : Text) (m : PermissionManager) (s : PermissionsState) (p : Option Permission)
    → m.current_state ≡ some s
    → JsMap.get o s.permissions ≡ p
    → check_permission o m ≡ value p
unfolding check_permission
checked o m s p e h = rw e (ap value h)

-- After any calls on a manager that has just loaded an empty storage, none throws, the permission
-- of an origin is what the last call about it decided, with the time and the names that the call
-- was given, and loading the storage again changes nothing.
pub run-decision :
    (o : Text) (calls : List Call)
    → (m : PermissionManager) × (run calls
          (load_state (record { current_state = none; stored = none }))
        ≡ value m)
      × (check_permission o m ≡ value (decision o calls none))
      × (load_state m ≡ m)
unfolding load_state JsMap.get
run-decision o calls =
    let (m, s, r, e, d, h) =
      run-Holds o calls (record { current_state = some first_state; stored = none }) first_state
        refl refl in
    (m, r, checked o m s _ e h, d)

-- A call grants the origin.
abbrev pub grants_to : Text → Call → Bool
grants_to o (grants origin about now agent) = seq_eq origin o
grants_to o _ = false

abbrev pub is_granted : Option Permission → Bool
is_granted none = false
is_granted (some p) = p.granted

decision-granted :
    (o : Text) (calls : List Call)
    → any (grants_to o) calls ≡ false
    → is_granted (decision o calls none) ≡ false
unfolding decision
decision-granted o [] h = refl
decision-granted o (grants origin about now agent ∷ calls) h =
    ground (arith, decision-granted o calls)
decision-granted o (denies origin now agent ∷ calls) h = ground (arith, decision-granted o calls h)
decision-granted o (revokes origin ∷ calls) h = ground (arith, decision-granted o calls h)
decision-granted o (clears ∷ calls) h = refl
decision-granted o (resets ∷ calls) h = refl
decision-granted o (reloads ∷ calls) h = decision-granted o calls h

-- After any calls on a manager that has just loaded an empty storage, of which none grants the
-- origin, the origin has no granted permission.
pub run-no_grant :
    (o : Text) (calls : List Call)
    → any (grants_to o) calls ≡ false
    → (m : PermissionManager) × (p : Option Permission) × (run calls
          (load_state (record { current_state = none; stored = none }))
        ≡ value m)
      × (check_permission o m ≡ value p)
      × (is_granted p ≡ false)
run-no_grant o calls h =
    let (m, r, c, d) = run-decision o calls in
    (m, decision o calls none, r, c, decision-granted o calls h)
