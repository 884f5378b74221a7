-- ===== src/Extension/Contexts/Lifecycle.antt =====
-- The methods of `HappContextManager` on a context that is there. A context is changed in place,
-- so the cache has the change before it is stored.
use holo_web_conductor.Common.{
  ℕ, Bool, true, false, Option, none, some, List, [], ◌∷◌, map, Bytes, Text, if◌then◌else◌, is_some,
}
use holo_web_conductor.Common.JsMap
use holo_web_conductor.Extension.Contexts.{
  HappContextStatus, enabled_status, disabled_status, awaiting_memproofs, DnaContext, HappContext,
  HappContextStorage,
}
use holo_web_conductor.Extension.Contexts.Storage
use holo_web_conductor.Extension.Contexts.Manager.{
  HappContextManager, ContextResult, gives, throws, not_found, awaits_memproofs, not_awaiting,
  not_stored,
}

abbrev pub is_awaiting : HappContextStatus → Bool
is_awaiting awaiting_memproofs = true
is_awaiting _ = false

-- `context.recoverySealed === true`
abbrev pub is_sealed : Option Bool → Bool
is_sealed (some true) = true
is_sealed _ = false

-- The changed object stands in the cache, and is stored.
unfoldable pub rewrite :
    {A : Type 0} → A → HappContext → HappContextManager → ContextResult A × HappContextManager
rewrite answer c m =
    let (stored, s) =
      Storage.put_context c
        (record m.storage { context_cache = JsMap.set c.id c m.storage.context_cache }) in
    (if stored then gives answer else throws not_stored, record m { storage = s })

unfoldable pub look_up_context : Text → HappContextManager → Option HappContext × HappContextManager
look_up_context id m =
    let (c, s) = Storage.get_context id m.storage in (c, record m { storage = s })

abbrev pub enabling : Bool → HappContext → HappContext
enabling enabled c = record c {
  enabled = enabled;
  status = if enabled then enabled_status else disabled_status;
}

abbrev pub sealing : Bool → HappContext → HappContext
sealing sealed c = record c { recovery_sealed = some sealed }

unfoldable pub set_enabled :
    Bool → Option HappContext → HappContextManager → ContextResult Unit × HappContextManager
set_enabled enabled none m = (throws not_found, m)
set_enabled enabled (some c) m =
    if is_awaiting c.status then (throws awaits_memproofs, m) else rewrite tt (enabling enabled c) m

-- `setContextEnabled`
unfoldable pub set_context_enabled :
    Text → Bool → HappContextManager → ContextResult Unit × HappContextManager
set_context_enabled id enabled m = let (c, v) = look_up_context id m in set_enabled enabled c v

abbrev pub awaiting_or_error : Option HappContext → ContextResult HappContext
awaiting_or_error none = throws not_found
awaiting_or_error (some c) = if is_awaiting c.status then gives c else throws not_awaiting

-- `provideMemproofs`, which leaves the proofs to its caller.
unfoldable pub provide_memproofs :
    Text → HappContextManager → ContextResult HappContext × HappContextManager
provide_memproofs id m = let (c, v) = look_up_context id m in (awaiting_or_error c, v)

unfoldable pub complete_found :
    Option HappContext → HappContextManager → ContextResult HappContext × HappContextManager
complete_found none m = (throws not_found, m)
complete_found (some c) m = rewrite (enabling true c) (enabling true c) m

-- `completeMemproofs`
unfoldable pub complete_memproofs :
    Text → HappContextManager → ContextResult HappContext × HappContextManager
complete_memproofs id m = let (c, v) = look_up_context id m in complete_found c v

unfoldable pub set_sealed :
    Bool → Option HappContext → HappContextManager → ContextResult Unit × HappContextManager
set_sealed sealed none m = (gives tt, m)
set_sealed sealed (some c) m =
    if is_sealed c.recovery_sealed then (gives tt, m) else rewrite tt (sealing sealed c) m

-- `markRecoveryRun`
unfoldable pub mark_recovery_run :
    Text → HappContextManager → ContextResult Unit × HappContextManager
mark_recovery_run id m = let (c, v) = look_up_context id m in set_sealed false c v

-- `sealRecovery`
unfoldable pub seal_recovery : Text → HappContextManager → ContextResult Unit × HappContextManager
seal_recovery id m = let (c, v) = look_up_context id m in set_sealed true c v

-- `validateAgentKey`
unfoldable pub validate_agent_key : HappContext → HappContextManager → Bool
validate_agent_key c m = is_some (JsMap.get c.agent_key_tag m.lair)

unfoldable pub keep_valid :
    Option HappContext → HappContextManager → Option HappContext × HappContextManager
keep_valid none m = (none, m)
keep_valid (some c) m =
    if validate_agent_key c m
    then (some c, m)
    else (none, record m { storage = Storage.delete_context c.id m.storage })

-- `getContextForDomain`
unfoldable pub get_context_for_domain :
    Text → HappContextManager → Option HappContext × HappContextManager
get_context_for_domain domain m =
    let (c, s) = Storage.get_context_by_domain domain m.storage in
    keep_valid c (record m { storage = s })

unfoldable pub delete_wasm : List DnaContext → HappContextStorage → HappContextStorage
delete_wasm [] s = s
delete_wasm (dna ∷ dnas) s = delete_wasm dnas (Storage.delete_dna_wasm dna.hash s)

unfoldable pub uninstall :
    Text → Option HappContext → HappContextManager → ContextResult Unit × HappContextManager
uninstall id none m = (throws not_found, m)
uninstall id (some c) m = (
  gives tt,
  record m {
    lair = JsMap.delete c.agent_key_tag m.lair;
    storage = Storage.delete_context id (delete_wasm c.dnas m.storage);
  },
)

-- `uninstallHapp`
unfoldable pub uninstall_happ : Text → HappContextManager → ContextResult Unit × HappContextManager
uninstall_happ id m = let (c, v) = look_up_context id m in uninstall id c v

-- `touchContext`
unfoldable pub touch_context : Text → (now : ℕ) → HappContextManager → Bool × HappContextManager
touch_context id now m =
    let (stored, s) = Storage.update_last_used id now m.storage in
    (stored, record m { storage = s })

-- `getCellIds`
unfoldable pub get_cell_ids : HappContext → List (Bytes × Bytes)
get_cell_ids c = map (λ dna. (dna.hash, c.agent_pub_key)) c.dnas
