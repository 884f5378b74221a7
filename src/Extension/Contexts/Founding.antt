-- ===== src/Extension/Contexts/Founding.antt =====
-- What `installHapp` writes into the new context, and where it has it from.
use holo_web_conductor.Common.{
  ℕ, ◌≡◌, refl, sym, ap, ◌∙◌, subst, inl, inr, Bool, true, false, Option, none, some, List, [], ◌∷◌,
  ◌++◌, Bytes, Text, codes, length, if◌then◌else◌, Option-cases, Bool-cases, ◌≢◌, or_else, arith,
}
use holo_web_conductor.Common.JsMap
use holo_web_conductor.Common.JsMap.{JsMap}
use holo_web_conductor.Extension.Permissions
use holo_web_conductor.Extension.Permissions.{Permission}
use holo_web_conductor.Extension.Lock.{non_empty_text}
use holo_web_conductor.Extension.Contexts.{
  HappContext, DnaContext, awaiting_memproofs, enabled_status,
}
use holo_web_conductor.Extension.Contexts.Storage
use holo_web_conductor.Extension.Contexts.Manager.{
  HappContextManager, ContextResult, gives, throws, not_stored, permissions_error, not_authorized,
  AppBundle, Bundles, InstallHappRequest, process_roles, key_of_tag, domain_tag,
  wrap_as_agent_pub_key, text_or,
}
use holo_web_conductor.Extension.Contexts.Installing.{
  store_new, store_dnas, new_context, install_keyed, install_bundle, install_over, install_granted,
  install_happ,
}
use holo_web_conductor.Extension.Contexts.Unpacking.{Unpacks, roles-Unpacks}

-- The tag that is asked for, or that of the domain where none is or an empty one.
abbrev pub tag_of : Text → Option Text → Text
tag_of domain none = domain ++ codes ":agent"
tag_of domain (some []) = domain ++ codes ":agent"
tag_of domain (some (c ∷ tag)) = c ∷ tag

module _ (b : Bundles) (domain : Text) (request : InstallHappRequest) (id : Text) (now : ℕ) where
  -- A new context: of an app that defers its membrane proofs it waits for them, of another it is
  -- enabled.
  abbrev pub fresh :
      (deferred : Bool) → (name tag : Text) → (key : Bytes) → List DnaContext → HappContext
  fresh true name tag key dnas = record {
    id = id;
    domain = domain;
    agent_pub_key = key;
    agent_key_tag = tag;
    dnas = dnas;
    app_name = text_or request.app_name (some name);
    app_version = request.app_version;
    installed_at = now;
    last_used = now;
    enabled = false;
    status = awaiting_memproofs;
    recovery_sealed = none;
  }
  fresh false name tag key dnas = record {
    id = id;
    domain = domain;
    agent_pub_key = key;
    agent_key_tag = tag;
    dnas = dnas;
    app_name = text_or request.app_name (some name);
    app_version = request.app_version;
    installed_at = now;
    last_used = now;
    enabled = true;
    status = enabled_status;
    recovery_sealed = none;
  }

  -- The context that is given is the fresh one of the unpacked app: its DNAs, of which there is
  -- one at least, are those of the roles, and its agent is that of the key of its tag, which is
  -- the one in the key store or else the new seed.
  unfoldable pub IsNew : (seed : Bytes) → JsMap Bytes → ContextResult HappContext → Type 0
  IsNew seed lair (throws e) = Unit
  IsNew seed lair (gives c) =
      (app : AppBundle) × (b.unpack_happ_bundle request.happ_bundle ≡ some app)
      × ((dnas : List DnaContext) × Unpacks b app.resources app.roles dnas
          × (dnas ≢ [])
          × (let tag = tag_of domain request.agent_key_tag in
              let key = or_else (JsMap.get tag lair) seed in
              (length key ≡ 32)
              × (c ≡ fresh app.allow_deferred_memproofs app.name tag (b.agent_hash key) dnas)))

  new_context-fresh :
      (app : AppBundle) (tag : Text) (key : Bytes) (dnas : List DnaContext)
      → new_context b domain request id now app tag key dnas
        ≡ fresh app.allow_deferred_memproofs app.name tag key dnas
  unfolding new_context
  new_context-fresh app tag key dnas = elim (Bool-cases app.allow_deferred_memproofs) [
    | inl e ↦ rw e refl
    | inr e ↦ rw e refl
  ]

  given :
      (stored : Bool) (c : HappContext) (P : ContextResult HappContext → Type 0)
      → P (throws not_stored)
      → P (gives c)
      → P (if stored then gives c else throws not_stored)
  given true c P t g = g
  given false c P t g = t

  module _ (seed : Bytes) where
    stored-IsNew :
        (app : AppBundle) (lair : JsMap Bytes) (key : Bytes) (o : Option (List DnaContext))
        (m : HappContextManager)
        → b.unpack_happ_bundle request.happ_bundle ≡ some app
        → ((dnas : List DnaContext) → o ≡ some dnas → Unpacks b app.resources app.roles dnas)
        → length (or_else (JsMap.get (tag_of domain request.agent_key_tag) lair) seed) ≡ 32
        → key ≡ b.agent_hash (or_else (JsMap.get (tag_of domain request.agent_key_tag) lair) seed)
        → IsNew seed lair
            (store_dnas o
              (new_context b domain request id now app (tag_of domain request.agent_key_tag) key)
              m).0
    unfolding store_dnas store_new IsNew
    stored-IsNew app lair key none m u d l k = tt
    stored-IsNew app lair key (some []) m u d l k = tt
    stored-IsNew app lair key (some (dna ∷ dnas)) m u d l k =
        let tag = tag_of domain request.agent_key_tag in
        let c = new_context b domain request id now app tag key (dna ∷ dnas) in
        given (Storage.put_context c m.storage).0 c (IsNew seed lair) tt (
          app,
          u,
          (
            dna ∷ dnas,
            d (dna ∷ dnas) refl,
            (λ e. cc),
            (
              l,
              new_context-fresh app tag key (dna ∷ dnas)
                  ∙ ap (λ t. fresh app.allow_deferred_memproofs app.name tag t (dna ∷ dnas)) k,
            ),
          ),
        )

    -- The key that a tag has, or gets.
    abbrev key_for : Text → JsMap Bytes → Bytes
    key_for tag lair = or_else (JsMap.get tag lair) seed

    keyed-IsNew :
        (app : AppBundle) (tag : Text) (o : Option Bytes) (lair : JsMap Bytes)
        (m : HappContextManager)
        → tag ≡ tag_of domain request.agent_key_tag
        → b.unpack_happ_bundle request.happ_bundle ≡ some app
        → ((hash : Bytes)
            → o ≡ some hash
            → (length (key_for tag lair) ≡ 32) × (hash ≡ b.agent_hash (key_for tag lair)))
        → IsNew seed lair (install_keyed b domain request id now app tag o m).0
    unfolding install_keyed IsNew
    keyed-IsNew app tag none lair m e u k = tt
    keyed-IsNew app tag (some hash) lair m e u k =
        let (l, g) = k hash refl in
        let (dnas, s) = process_roles b app.resources now app.roles m.storage in
        subst
          (λ t.
            IsNew seed lair
              (store_dnas dnas (new_context b domain request id now app t hash)
                (record m { storage = s })).0)
          (sym e)
          (stored-IsNew app lair hash dnas (record m { storage = s }) u
            (λ ds h. roles-Unpacks b app.resources now app.roles m.storage ds h)
            (subst (λ t. length (key_for t lair) ≡ 32) e l)
            (subst (λ t. hash ≡ b.agent_hash (key_for t lair)) e g))

    key_of_tag_lem :
        (tag : Text) (lair : JsMap Bytes) → (key_of_tag tag seed lair).0 ≡ key_for tag lair
    unfolding key_of_tag
    key_of_tag_lem tag lair = elim (Option-cases (JsMap.get tag lair)) [
      | inl e ↦ rw (e, key_of_tag) refl
      | inr (key, e) ↦ rw (e, key_of_tag) refl
    ]

    wrapped :
        (key hash : Bytes)
        → wrap_as_agent_pub_key b key ≡ some hash
        → (length key ≡ 32) × (hash ≡ b.agent_hash key)
    unfolding wrap_as_agent_pub_key
    wrapped key hash h = ground arith

    tag_lem : (o : Option Text) → or_else (non_empty_text o) (domain_tag domain) ≡ tag_of domain o
    tag_lem none = refl
    tag_lem (some []) = refl
    tag_lem (some (c ∷ tag)) = refl

    bundle-IsNew :
        (app : Option AppBundle) (m : HappContextManager)
        → b.unpack_happ_bundle request.happ_bundle ≡ app
        → IsNew seed m.lair (install_bundle b domain request id now app seed m).0
    unfolding install_bundle IsNew
    bundle-IsNew none m u = tt
    bundle-IsNew (some app) m u =
        let tag = or_else (non_empty_text request.agent_key_tag) (domain_tag domain) in
        let (key, lair) = key_of_tag tag seed m.lair in
        keyed-IsNew app tag (wrap_as_agent_pub_key b key) m.lair (record m { lair = lair })
          (tag_lem request.agent_key_tag) u
          (λ hash h.
            subst (λ t. (length t ≡ 32) × (hash ≡ b.agent_hash t)) (key_of_tag_lem tag m.lair)
              (wrapped key hash h))

    over-IsNew :
        (existing : Option HappContext) (m : HappContextManager)
        → IsNew seed m.lair (install_over b domain request id now existing seed m).0
    unfolding install_over IsNew
    over-IsNew (some existing) m = tt
    over-IsNew none m = bundle-IsNew (b.unpack_happ_bundle request.happ_bundle) m refl

    granted-IsNew :
        (granted : Bool) (m : HappContextManager)
        → IsNew seed m.lair (install_granted b domain request id now granted seed m).0
    unfolding install_granted IsNew
    granted-IsNew false m = tt
    granted-IsNew true m =
        let (existing, s) = Storage.get_context_by_domain domain m.storage in
        over-IsNew existing (record m { storage = s })

    abbrev Founds : HappContextManager → ContextResult HappContext × HappContextManager → Type 0
    Founds m end = IsNew seed m.lair end.0

    ended :
        (m : HappContextManager) (o : Permissions.Outcome (Option Permission))
        → Founds m (elim o [
          | Permissions.not_initialized ↦ (throws permissions_error, m)
          | Permissions.value none ↦ (throws not_authorized, m)
          | Permissions.value (some p) ↦ install_granted b domain request id now p.granted seed m
        ])
    unfolding IsNew
    ended m Permissions.not_initialized = tt
    ended m (Permissions.value none) = tt
    ended m (Permissions.value (some p)) = granted-IsNew p.granted m

    pub install_happ-IsNew :
        (m : HappContextManager) → IsNew seed m.lair (install_happ b domain request id now seed m).0
    unfolding install_happ
    install_happ-IsNew m = ended m (Permissions.check_permission domain m.permission_manager)
