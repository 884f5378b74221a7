-- ===== src/Extension/Contexts/Installing.antt =====
-- `installHapp`, step by step.
use holo_web_conductor.Common.{
  ℕ, Bool, true, false, not, Option, none, some, List, [], ◌∷◌, Bytes, Text, if◌then◌else◌, or_else,
}
use holo_web_conductor.Extension.Permissions
use holo_web_conductor.Extension.Lock.{non_empty_text}
use holo_web_conductor.Extension.Contexts.{
  enabled_status, awaiting_memproofs, DnaContext, HappContext,
}
use holo_web_conductor.Extension.Contexts.Storage
use holo_web_conductor.Extension.Contexts.Manager.{
  HappContextManager, ContextResult, gives, throws, permissions_error, not_authorized,
  already_installed, bundle_error, bad_key, no_dnas, not_stored, AppBundle, Bundles,
  InstallHappRequest, text_or, key_of_tag, domain_tag, wrap_as_agent_pub_key, process_roles,
}

-- The context is stored, unless the database refuses it.
unfoldable pub store_new :
    HappContext → HappContextManager → ContextResult HappContext × HappContextManager
store_new c m =
    let (stored, s) = Storage.put_context c m.storage in
    (if stored then gives c else throws not_stored, record m { storage = s })

unfoldable pub store_dnas :
    Option (List DnaContext)
    → (List DnaContext → HappContext)
    → HappContextManager
    → ContextResult HappContext × HappContextManager
store_dnas none context m = (throws bundle_error, m)
store_dnas (some []) context m = (throws no_dnas, m)
store_dnas (some (dna ∷ dnas)) context m = store_new (context (dna ∷ dnas)) m

module _ (b : Bundles) (domain : Text) (request : InstallHappRequest) (id : Text) (now : ℕ) where
  -- The new context, waiting for its membrane proofs if the app defers them.
  unfoldable pub new_context :
      AppBundle → (tag : Text) → (key : Bytes) → List DnaContext → HappContext
  new_context app tag key dnas = record {
    id = id;
    domain = domain;
    agent_pub_key = key;
    agent_key_tag = tag;
    dnas = dnas;
    app_name = text_or request.app_name (some app.name);
    app_version = request.app_version;
    installed_at = now;
    last_used = now;
    enabled = not app.allow_deferred_memproofs;
    status = if app.allow_deferred_memproofs then awaiting_memproofs else enabled_status;
    recovery_sealed = none;
  }

  unfoldable pub install_keyed :
      AppBundle
      → (tag : Text) → Option Bytes
      → HappContextManager
      → ContextResult HappContext × HappContextManager
  install_keyed app tag none m = (throws bad_key, m)
  install_keyed app tag (some key) m =
      let (dnas, s) = process_roles b app.resources now app.roles m.storage in
      store_dnas dnas (new_context app tag key) (record m { storage = s })

  unfoldable pub install_bundle :
      Option AppBundle
      → (seed : Bytes) → HappContextManager
      → ContextResult HappContext × HappContextManager
  install_bundle none seed m = (throws bundle_error, m)
  install_bundle (some app) seed m =
      let tag = or_else (non_empty_text request.agent_key_tag) (domain_tag domain) in
      let (key, lair) = key_of_tag tag seed m.lair in
      install_keyed app tag (wrap_as_agent_pub_key b key) (record m { lair = lair })

  unfoldable pub install_over :
      Option HappContext
      → (seed : Bytes) → HappContextManager
      → ContextResult HappContext × HappContextManager
  install_over (some existing) seed m = (throws already_installed, m)
  install_over none seed m = install_bundle (b.unpack_happ_bundle request.happ_bundle) seed m

  unfoldable pub install_granted :
      (granted : Bool)
      → (seed : Bytes) → HappContextManager
      → ContextResult HappContext × HappContextManager
  install_granted false seed m = (throws not_authorized, m)
  install_granted true seed m =
      let (existing, s) = Storage.get_context_by_domain domain m.storage in
      install_over existing seed (record m { storage = s })

  -- `installHapp`
  unfoldable pub install_happ :
      (seed : Bytes) → HappContextManager → ContextResult HappContext × HappContextManager
  install_happ seed m = elim (Permissions.check_permission domain m.permission_manager) [
    | Permissions.not_initialized ↦ (throws permissions_error, m)
    | Permissions.value none ↦ (throws not_authorized, m)
    | Permissions.value (some p) ↦ install_granted p.granted seed m
  ]
