-- ===== src/Extension/Contexts/Runs.antt =====
-- The manager over any calls: what becomes of the context of an id.
use holo_web_conductor.Common.{
  is_some, not, false, ◌||◌, seq_eq_iff, ap, sym, ℕ, ◌≡◌, refl, ap, ◌∙◌, ◌≢◌, ◌⊎◌, inl, inr, Bool,
  true, false, Option, none, some, List, [], ◌∷◌, Bytes, Text, seq_eq, Bool-cases,
}
use holo_web_conductor.Common.JsMap
use holo_web_conductor.Common.JsMap.{JsMap}
use holo_web_conductor.Extension.Permissions.{PermissionManager}
use holo_web_conductor.Extension.Contexts.{
  from_storable, to_storable, HappContext, HappContextStorage,
}
use holo_web_conductor.Extension.Contexts.Storage
use holo_web_conductor.Extension.Contexts.Domains.{Own}
use holo_web_conductor.Extension.Contexts.Seen.{seen}
use holo_web_conductor.Extension.Contexts.Manager.{
  HappContextManager, ContextResult, gives, throws, Bundles, InstallHappRequest,
  get_or_create_agent_key,
}
use holo_web_conductor.Extension.Contexts.Installing.{install_happ}
use holo_web_conductor.Extension.Contexts.Lifecycle.{
  look_up_context, set_context_enabled, provide_memproofs, complete_memproofs, mark_recovery_run,
  seal_recovery, get_context_for_domain, uninstall_happ, touch_context,
}
use holo_web_conductor.Extension.Contexts.Consistent.{restarted}
use holo_web_conductor.Extension.Contexts.Answers.{IsConsistent, list_contexts-Keeps}
use holo_web_conductor.Extension.Contexts.Changes.{
  Shown-view, view, act, at_id, Acts, same-Acts, act_here, act_there, same_act,
}
use holo_web_conductor.Extension.Contexts.Removing.{
  removed, act-removed, Drops, update_last_used-Acts, get_context_for_domain-Drops,
}
use holo_web_conductor.Extension.Contexts.Methods.{
  enabled_as, completed, sealed_as, set_context_enabled-Acts, complete_memproofs-Acts,
  mark_recovery_run-Acts, seal_recovery-Acts, uninstall_happ-Acts, look_up_context-Acts,
}
use holo_web_conductor.Extension.Contexts.Adding.{Comes}
use holo_web_conductor.Extension.Contexts.Granting.{install_happ-Comes}

-- The calls of the manager's methods, with what each meets outside. Others may change the
-- permissions and the key store meanwhile, and the browser may start anew.
pub data ContextCall : Type 0 where
  installs :
      (domain : Text) (request : InstallHappRequest) (id : Text) (now : ℕ) (seed : Bytes)
      → ContextCall
  looks_up : (domain : Text) → ContextCall
  gets : (id : Text) → ContextCall
  lists : ContextCall
  uninstalls : (id : Text) → ContextCall
  enables : (id : Text) → Bool → ContextCall
  provides : (id : Text) → ContextCall
  completes : (id : Text) → ContextCall
  marks : (id : Text) → ContextCall
  seals : (id : Text) → ContextCall
  touches : (id : Text) (now : ℕ) → ContextCall
  makes_key : (domain : Text) (seed : Bytes) → ContextCall
  elsewhere : PermissionManager → JsMap Bytes → ContextCall
  starts_anew : ContextCall

-- What a call makes of the context of an id, as it is meant.
unfoldable pub effect : ContextCall → Text → HappContext → Option HappContext
effect (uninstalls id) j c = at_id id removed j c
effect (enables id enabled) j c = at_id id (enabled_as enabled) j c
effect (completes id) j c = at_id id completed j c
effect (marks id) j c = at_id id (sealed_as false) j c
effect (seals id) j c = at_id id (sealed_as true) j c
effect _ j c = some c

unfoldable pub effects : List ContextCall → Text → Option HappContext → Option HappContext
unfolding effect
effects [] j o = o
effects (call ∷ calls) j o = effects calls j (act (effect call j) o)

-- No installation takes the id again.
abbrev pub IsOther : Text → ContextCall → Type 0
IsOther j (installs domain request id now seed) = id ≢ j
IsOther j _ = Unit

-- The key of a context that is there is not in the key store.
abbrev pub key_missing : JsMap Bytes → Option HappContext → Bool
key_missing lair none = false
key_missing lair (some c) = not (is_some (JsMap.get c.agent_key_tag lair))

-- A look-up by domain that may find the context of the id without its key.
unfoldable pub loses : Text → ContextCall → HappContextManager → Bool
loses j (looks_up domain) m = key_missing m.lair (view m.storage.contexts j)
loses j _ m = false

module _ (b : Bundles) where
  unfoldable pub call_manager : ContextCall → HappContextManager → HappContextManager
  call_manager (installs domain request id now seed) m =
      (install_happ b domain request id now seed m).1
  call_manager (looks_up domain) m = (get_context_for_domain domain m).1
  call_manager (gets id) m = (look_up_context id m).1
  call_manager lists m = record m { storage = (Storage.list_contexts m.storage).1 }
  call_manager (uninstalls id) m = (uninstall_happ id m).1
  call_manager (enables id enabled) m = (set_context_enabled id enabled m).1
  call_manager (provides id) m = (provide_memproofs id m).1
  call_manager (completes id) m = (complete_memproofs id m).1
  call_manager (marks id) m = (mark_recovery_run id m).1
  call_manager (seals id) m = (seal_recovery id m).1
  call_manager (touches id now) m = (touch_context id now m).1
  call_manager (makes_key domain seed) m = (get_or_create_agent_key b domain seed m).1
  call_manager (elsewhere permissions lair) m = record m {
    permission_manager = permissions;
    lair = lair;
  }
  call_manager starts_anew m = record m { storage = Storage.restart m.storage }

  unfoldable pub run_manager : List ContextCall → HappContextManager → HappContextManager
  unfolding call_manager
  run_manager [] m = m
  run_manager (call ∷ calls) m = run_manager calls (call_manager call m)

  unfoldable pub lost : Text → List ContextCall → HappContextManager → Bool
  unfolding call_manager loses
  lost j [] m = false
  lost j (call ∷ calls) m = loses j call m || lost j calls (call_manager call m)

  -- The context of an id is changed as the effect says, or is gone where it could be lost.
  abbrev pub Follows :
      Text
      → Bool
      → (HappContext → Option HappContext)
      → HappContextStorage
      → HappContextStorage
      → Type 0
  Follows j d f s v =
      (view v.contexts j ≡ act f (view s.contexts j)) ⊎ ((view v.contexts j ≡ none) × (d ≡ true))

  module _ (N : Type 0) (j : Text) (d : Bool) (s v : HappContextStorage) where
    -- The contexts in memory agree with the database, and on the condition the context follows.
    abbrev pub Leads : (HappContext → Option HappContext) → Type 0
    Leads f = IsConsistent v × (N → Follows j d f s v)

    acted : (f : Text → HappContext → Option HappContext) → Acts f s v → Leads (f j)
    unfolding Acts
    acted f (h, e) = (h, λ n. inl (e j))

  missing_key :
      (lair : JsMap Bytes) (c : HappContext) (j : Text) (s : HappContextStorage)
      → Own s.contexts (some c)
      → is_some (JsMap.get c.agent_key_tag lair) ≡ false
      → seq_eq c.id j ≡ true
      → key_missing lair (view s.contexts j) ≡ true
  unfolding seen from_storable to_storable
  missing_key lair c j s o e q =
      ap (λ t. key_missing lair (view s.contexts t)) (sym ((seq_eq_iff c.id j).0 q))
      ∙ ap (key_missing lair) (Shown-view c.id c s.contexts o)
      ∙ ap not e

  dropped :
      (N : Type 0) (lair : JsMap Bytes) (j : Text) (s v : HappContextStorage)
      → Drops lair s v
      → Leads N j (key_missing lair (view s.contexts j)) s v some
  unfolding Acts
  dropped N lair j s v (inl a) = acted N j (key_missing lair (view s.contexts j)) s v (λ i. some) a
  dropped N lair j s v (inr (c, o, e, (h, g))) = elim (Bool-cases (seq_eq c.id j)) [
    | inl q ↦ (
      h,
      λ n. inr (
        g j ∙ act_here c.id j removed (view s.contexts j) q ∙ act-removed (view s.contexts j),
        missing_key lair c j s o e q,
      ),
    )
    | inr q ↦ (
      h,
      λ n.
          inl (g j ∙ act_there c.id j removed (view s.contexts j) q ∙ same_act (view s.contexts j)),
    )
  ]

  installed :
      (domain id j : Text) (s : HappContextStorage) (r : ContextResult HappContext)
      (v : HappContextStorage)
      → Comes id domain s r v
      → Leads (id ≢ j) j false s v some
  unfolding Comes
  installed domain id j s (throws e) v (h, k) =
      (h, λ n. inl (ap (λ t. view t j) k ∙ same_act (view s.contexts j)))
  installed domain id j s (gives c) v (h, d, a, t, e, k) =
      (h, λ n. inl (k j n ∙ same_act (view s.contexts j)))

  pub call-Follows :
      (j : Text) (call : ContextCall) (m : HappContextManager)
      → IsConsistent m.storage
      → Leads
          (IsOther j call)
          j
          (loses j call m)
          m.storage
          (call_manager call m).storage
          (effect call j)
  unfolding call_manager effect loses touch_context provide_memproofs get_or_create_agent_key
      Storage.restart
  call-Follows j (installs domain request id now seed) m h =
      let (r, v) = install_happ b domain request id now seed m in
      installed domain id j m.storage r v.storage
        (install_happ-Comes b domain request id now seed m h).0
  call-Follows j (looks_up domain) m h =
      dropped Unit m.lair j m.storage (get_context_for_domain domain m).1.storage
        (get_context_for_domain-Drops domain m h)
  call-Follows j (gets id) m h =
      acted Unit j false m.storage (look_up_context id m).1.storage (λ i. some)
        (look_up_context-Acts id m h)
  call-Follows j lists m h =
      acted Unit j false m.storage (Storage.list_contexts m.storage).1 (λ i. some)
        (same-Acts m.storage (Storage.list_contexts m.storage).1 (list_contexts-Keeps m.storage h))
  call-Follows j (uninstalls id) m h =
      acted Unit j false m.storage (uninstall_happ id m).1.storage (at_id id removed)
        (uninstall_happ-Acts id m h)
  call-Follows j (enables id enabled) m h =
      acted Unit j false m.storage (set_context_enabled id enabled m).1.storage
        (at_id id (enabled_as enabled)) (set_context_enabled-Acts id enabled m h)
  call-Follows j (provides id) m h =
      acted Unit j false m.storage (look_up_context id m).1.storage (λ i. some)
        (look_up_context-Acts id m h)
  call-Follows j (completes id) m h =
      acted Unit j false m.storage (complete_memproofs id m).1.storage (at_id id completed)
        (complete_memproofs-Acts id m h)
  call-Follows j (marks id) m h =
      acted Unit j false m.storage (mark_recovery_run id m).1.storage (at_id id (sealed_as false))
        (mark_recovery_run-Acts id m h)
  call-Follows j (seals id) m h =
      acted Unit j false m.storage (seal_recovery id m).1.storage (at_id id (sealed_as true))
        (seal_recovery-Acts id m h)
  call-Follows j (touches id now) m h =
      acted Unit j false m.storage (Storage.update_last_used id now m.storage).1 (λ i. some)
        (update_last_used-Acts id now m.storage h)
  call-Follows j (makes_key domain seed) m h =
      acted Unit j false m.storage m.storage (λ i. some) (same-Acts m.storage m.storage (h, refl))
  call-Follows j (elsewhere permissions lair) m h =
      acted Unit j false m.storage m.storage (λ i. some) (same-Acts m.storage m.storage (h, refl))
  call-Follows j starts_anew m h =
      acted Unit j false m.storage (Storage.restart m.storage) (λ i. some)
        (same-Acts m.storage (Storage.restart m.storage) (restarted h, refl))
