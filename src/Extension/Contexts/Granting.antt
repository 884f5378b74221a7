-- ===== src/Extension/Contexts/Granting.antt =====
-- `installHapp` stage by stage: only a granted domain gets a context.
use holo_web_conductor.Common.{
  ℕ, ◌≡◌, refl, inl, inr, Bool, true, false, not, Option, none, some, List, [], ◌∷◌, Bytes, Text,
  if◌then◌else◌, Option-cases, or_else,
}
use holo_web_conductor.Common.JsMap.{JsMap}
use holo_web_conductor.Extension.Permissions
use holo_web_conductor.Extension.Permissions.{Permission, PermissionManager}
use holo_web_conductor.Extension.Lock.{non_empty_text}
use holo_web_conductor.Extension.Contexts.{
  HappContext, HappContextStorage, DnaContext, awaiting_memproofs, enabled_status,
}
use holo_web_conductor.Extension.Contexts.Storage
use holo_web_conductor.Extension.Contexts.Manager.{
  HappContextManager, ContextResult, gives, throws, bundle_error, no_dnas, bad_key,
  already_installed, not_authorized, permissions_error, AppBundle, AppRole, Bundles,
  InstallHappRequest, process_roles, role_dna, key_of_tag, domain_tag, wrap_as_agent_pub_key,
}
use holo_web_conductor.Extension.Contexts.Installing.{
  store_dnas, new_context, install_keyed, install_bundle, install_over, install_granted,
  install_happ,
}
use holo_web_conductor.Extension.Contexts.Lifecycle.{is_awaiting}
use holo_web_conductor.Extension.Contexts.Answers.{IsConsistent, Keeps}
use holo_web_conductor.Extension.Contexts.Domains.{get_context_by_domain-Finds}
use holo_web_conductor.Extension.Contexts.Founding.{IsNew, install_happ-IsNew}
use holo_web_conductor.Extension.Contexts.Adding.{Comes, Comes-throws, Keeps-Comes, store_new-Comes}

deferred : (d : Bool) → is_awaiting (if d then awaiting_memproofs else enabled_status) ≡ not (not d)
deferred true = refl
deferred false = refl

-- Only a granted domain gets a context.
abbrev pub IsGranted : Text → PermissionManager → ContextResult HappContext → Type 0
IsGranted domain manager (throws e) = Unit
IsGranted domain manager (gives c) =
    (p : Permission) × (Permissions.check_permission domain manager ≡ Permissions.value (some p))
    × (p.granted ≡ true)

module _ (b : Bundles) where
  process_roles-Keeps :
      (resources : JsMap Bytes) (now : ℕ) (roles : List AppRole) (s : HappContextStorage)
      → IsConsistent s
      → Keeps s (process_roles b resources now roles s).1
  unfolding process_roles Storage.put_dna_wasm
  process_roles-Keeps resources now [] s h = (h, refl)
  process_roles-Keeps resources now (role ∷ roles) s h =
      elim (Option-cases (non_empty_text role.path)) [
        | inl e ↦ rw (e, process_roles) (process_roles-Keeps resources now roles s h)
        | inr (path, e) ↦ elim (Option-cases (role_dna b resources path role.modifiers)) [
          | inl f ↦ rw (e, process_roles, f) (h, refl)
          | inr (dna, f) ↦
              rw (e, process_roles, f)
                (process_roles-Keeps resources now roles
                  (Storage.put_dna_wasm dna.hash dna.wasm now s) h)
        ]
      ]

  module _ (domain : Text) (request : InstallHappRequest) (id : Text) (now : ℕ) where
    -- The stages of an installation under the id for the domain.
    abbrev Installs : HappContextManager → ContextResult HappContext × HappContextManager → Type 0
    Installs m (r, v) = Comes id domain m.storage r v.storage

    store_dnas-Installs :
        (app : AppBundle) (tag : Text) (key : Bytes) (dnas : Option (List DnaContext))
        (m : HappContextManager)
        → IsConsistent m.storage
        → Installs m (store_dnas dnas (new_context b domain request id now app tag key) m)
    unfolding store_dnas new_context
    store_dnas-Installs app tag key none m h =
        Comes-throws id domain m.storage m.storage bundle_error (h, refl)
    store_dnas-Installs app tag key (some []) m h =
        Comes-throws id domain m.storage m.storage no_dnas (h, refl)
    store_dnas-Installs app tag key (some (dna ∷ dnas)) m h =
        store_new-Comes (new_context b domain request id now app tag key (dna ∷ dnas)) m h
          (deferred app.allow_deferred_memproofs)

    keyed-Installs :
        (app : AppBundle) (tag : Text) (key : Option Bytes) (m : HappContextManager)
        → IsConsistent m.storage
        → Installs m (install_keyed b domain request id now app tag key m)
    unfolding install_keyed
    keyed-Installs app tag none m h = Comes-throws id domain m.storage m.storage bad_key (h, refl)
    keyed-Installs app tag (some key) m h =
        let k = process_roles-Keeps app.resources now app.roles m.storage h in
        let (dnas, s) = process_roles b app.resources now app.roles m.storage in
        let (r, v) =
          store_dnas dnas (new_context b domain request id now app tag key)
            (record m { storage = s }) in
        Keeps-Comes id domain m.storage s v.storage r k
          (store_dnas-Installs app tag key dnas (record m { storage = s }) k.0)

    bundle-Installs :
        (app : Option AppBundle) (seed : Bytes) (m : HappContextManager)
        → IsConsistent m.storage
        → Installs m (install_bundle b domain request id now app seed m)
    unfolding install_bundle
    bundle-Installs none seed m h =
        Comes-throws id domain m.storage m.storage bundle_error (h, refl)
    bundle-Installs (some app) seed m h =
        let tag = or_else (non_empty_text request.agent_key_tag) (domain_tag domain) in
        let (key, lair) = key_of_tag tag seed m.lair in
        keyed-Installs app tag (wrap_as_agent_pub_key b key) (record m { lair = lair }) h

    over-Installs :
        (existing : Option HappContext) (seed : Bytes) (m : HappContextManager)
        → IsConsistent m.storage
        → Installs m (install_over b domain request id now existing seed m)
    unfolding install_over
    over-Installs (some existing) seed m h =
        Comes-throws id domain m.storage m.storage already_installed (h, refl)
    over-Installs none seed m h =
        bundle-Installs (b.unpack_happ_bundle request.happ_bundle) seed m h

    granted-Installs :
        (granted : Bool) (seed : Bytes) (m : HappContextManager)
        → IsConsistent m.storage
        → Installs m (install_granted b domain request id now granted seed m)
    unfolding install_granted
    granted-Installs false seed m h =
        Comes-throws id domain m.storage m.storage not_authorized (h, refl)
    granted-Installs true seed m h =
        let k = (get_context_by_domain-Finds domain m.storage h).0 in
        let (existing, s) = Storage.get_context_by_domain domain m.storage in
        let (r, v) =
          install_over b domain request id now existing seed (record m { storage = s }) in
        Keeps-Comes id domain m.storage s v.storage r k
          (over-Installs existing seed (record m { storage = s }) k.0)

    granted_end :
        (r : ContextResult HappContext) (manager : PermissionManager)
        → ((p : Permission) × (Permissions.check_permission domain manager
              ≡ Permissions.value (some p))
            × (p.granted ≡ true))
        → IsGranted domain manager r
    granted_end (throws e) manager g = tt
    granted_end (gives c) manager g = g

    with_permission :
        (seed : Bytes) (m : HappContextManager) (p : Permission) (granted : Bool)
        → Permissions.check_permission domain m.permission_manager ≡ Permissions.value (some p)
        → p.granted ≡ granted
        → IsConsistent m.storage
        → let end = install_granted b domain request id now granted seed m in
          Installs m end × IsGranted domain m.permission_manager end.0
    unfolding install_granted
    with_permission seed m p true e g h = (
      granted-Installs true seed m h,
      granted_end (install_granted b domain request id now true seed m).0 m.permission_manager
          (p, e, g),
    )
    with_permission seed m p false e g h = (granted-Installs false seed m h, tt)

    -- What an installation comes to, by what is said of the domain's permission.
    abbrev End : HappContextManager → ContextResult HappContext × HappContextManager → Type 0
    End m end = Installs m end × IsGranted domain m.permission_manager end.0

    ended :
        (seed : Bytes) (m : HappContextManager) (o : Permissions.Outcome (Option Permission))
        → Permissions.check_permission domain m.permission_manager ≡ o
        → IsConsistent m.storage
        → End m (elim o [
          | Permissions.not_initialized ↦ (throws permissions_error, m)
          | Permissions.value none ↦ (throws not_authorized, m)
          | Permissions.value (some p) ↦ install_granted b domain request id now p.granted seed m
        ])
    ended seed m Permissions.not_initialized e h =
        (Comes-throws id domain m.storage m.storage permissions_error (h, refl), tt)
    ended seed m (Permissions.value none) e h =
        (Comes-throws id domain m.storage m.storage not_authorized (h, refl), tt)
    ended seed m (Permissions.value (some p)) e h = with_permission seed m p p.granted e refl h

    -- An installation under an id for a domain, over contexts in memory that agree with the
    -- database, gives a context only if the domain is granted and no context of another id has it;
    -- then the database has that context under the id, and the contexts of all other ids are as
    -- before. The context is the one that the unpacked app calls for: its DNAs are those of the
    -- roles with a path, in their order and one at least, each with the hash, the WASM, the
    -- modifiers and the manifest of its bundle; its agent is that of the 32 bytes of the key in
    -- the key store, or of the new seed; it is enabled, unless the app defers its membrane proofs:
    -- then it waits for them. If it throws, all contexts are as before. The contexts in memory
    -- agree with the database again.
    pub install_happ-Comes :
        (seed : Bytes) (m : HappContextManager)
        → IsConsistent m.storage
        → let (r, v) = install_happ b domain request id now seed m in
          Comes id domain m.storage r v.storage
          × IsGranted domain m.permission_manager r
          × IsNew b domain request id now seed m.lair r
    unfolding install_happ
    install_happ-Comes seed m h =
        let (c, g) =
          ended seed m (Permissions.check_permission domain m.permission_manager) refl h in
        (c, g, install_happ-IsNew b domain request id now seed m)
