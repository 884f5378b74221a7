-- ===== src/Extension/Contexts/Methods.antt =====
-- The methods of the manager that change a context, each as a change of what the database has.
use holo_web_conductor.Common.{
  ◌≡◌, refl, sym, subst, inl, inr, Bool, true, false, Option, none, some, Text, if◌then◌else◌,
  Bool-cases,
}
use holo_web_conductor.Extension.Contexts.{
  HappContextStatus, enabled_status, disabled_status, awaiting_memproofs, HappContext,
  HappContextStorage,
}
use holo_web_conductor.Extension.Contexts.Storage
use holo_web_conductor.Extension.Contexts.Manager.{HappContextManager}
use holo_web_conductor.Extension.Contexts.Lifecycle.{
  is_awaiting, is_sealed, enabling, sealing, look_up_context, set_enabled, set_context_enabled,
  complete_found, complete_memproofs, set_sealed, mark_recovery_run, seal_recovery, uninstall,
  uninstall_happ,
}
use holo_web_conductor.Extension.Contexts.Consistent.{}
use holo_web_conductor.Extension.Contexts.Seen.{seen}
use holo_web_conductor.Extension.Contexts.Answers.{IsConsistent, Answers, get_context-Answers}
use holo_web_conductor.Extension.Contexts.Removing.{removed, uninstall-Acts}
use holo_web_conductor.Extension.Contexts.Changes.{
  at_id, Acts, same-Acts, Keeps-Acts, rewrite-Acts, missing-Acts, refused-Acts,
}

abbrev pub waits : HappContextStatus → Bool
waits enabled_status = false
waits disabled_status = false
waits awaiting_memproofs = true

abbrev pub closed : Option Bool → Bool
closed none = false
closed (some false) = false
closed (some true) = true

-- The four changes of a context: `setContextEnabled` and the two that mark the recovery leave some
-- contexts as they are.
abbrev pub enabled_as : Bool → HappContext → Option HappContext
enabled_as true c =
    some (if waits c.status then c else record c { enabled = true; status = enabled_status })
enabled_as false c =
    some (if waits c.status then c else record c { enabled = false; status = disabled_status })

abbrev pub completed : HappContext → Option HappContext
completed c = some (record c { enabled = true; status = enabled_status })

abbrev pub sealed_as : Bool → HappContext → Option HappContext
sealed_as sealed c =
    some (if closed c.recovery_sealed then c else record c { recovery_sealed = some sealed })

pub waits_lem : (s : HappContextStatus) → waits s ≡ is_awaiting s
waits_lem enabled_status = refl
waits_lem disabled_status = refl
waits_lem awaiting_memproofs = refl

pub closed_lem : (o : Option Bool) → closed o ≡ is_sealed o
closed_lem none = refl
closed_lem (some false) = refl
closed_lem (some true) = refl

-- What is refused, and what is not, of a context as it is seen.
module _ (c : HappContext) where
  enabled_refused :
      (enabled : Bool) → is_awaiting c.status ≡ true → enabled_as enabled (seen c) ≡ some (seen c)
  unfolding seen
  enabled_refused true e = rw (waits_lem c.status, e) refl
  enabled_refused false e = rw (waits_lem c.status, e) refl

  enabled_done :
      (enabled : Bool)
      → is_awaiting c.status ≡ false
      → enabled_as enabled (seen c) ≡ some (seen (enabling enabled c))
  unfolding seen
  enabled_done true e = rw (waits_lem c.status, e) refl
  enabled_done false e = rw (waits_lem c.status, e) refl

  sealed_refused :
      (sealed : Bool)
      → is_sealed c.recovery_sealed ≡ true
      → sealed_as sealed (seen c) ≡ some (seen c)
  unfolding seen
  sealed_refused sealed e = rw (closed_lem c.recovery_sealed, e) refl

  sealed_done :
      (sealed : Bool)
      → is_sealed c.recovery_sealed ≡ false
      → sealed_as sealed (seen c) ≡ some (seen (sealing sealed c))
  unfolding seen
  sealed_done sealed e = rw (closed_lem c.recovery_sealed, e) refl

  completed_done : completed (seen c) ≡ some (seen (enabling true c))
  unfolding seen
  completed_done = refl

module _ (id : Text) where
  set_enabled-Acts :
      (enabled : Bool) (o : Option HappContext) (m : HappContextManager)
      → IsConsistent m.storage
      → Answers m.storage.contexts id o
      → Acts (at_id id (enabled_as enabled)) m.storage (set_enabled enabled o m).1.storage
  unfolding set_enabled
  set_enabled-Acts enabled none m h a = missing-Acts id (enabled_as enabled) m.storage h a
  set_enabled-Acts enabled (some c) m h a = elim (Bool-cases (is_awaiting c.status)) [
    | inl e ↦
        rw e (refused-Acts id (enabled_as enabled) c m.storage h a (enabled_refused c enabled e))
    | inr e ↦ rw e (
        rewrite-Acts tt id (enabled_as enabled) c (enabling enabled c) m h a refl refl
          (enabled_done c enabled e))
  ]

  set_sealed-Acts :
      (sealed : Bool) (o : Option HappContext) (m : HappContextManager)
      → IsConsistent m.storage
      → Answers m.storage.contexts id o
      → Acts (at_id id (sealed_as sealed)) m.storage (set_sealed sealed o m).1.storage
  unfolding set_sealed
  set_sealed-Acts sealed none m h a = missing-Acts id (sealed_as sealed) m.storage h a
  set_sealed-Acts sealed (some c) m h a = elim (Bool-cases (is_sealed c.recovery_sealed)) [
    | inl e ↦ rw e (refused-Acts id (sealed_as sealed) c m.storage h a (sealed_refused c sealed e))
    | inr e ↦ rw e (
        rewrite-Acts tt id (sealed_as sealed) c (sealing sealed c) m h a refl refl
          (sealed_done c sealed e))
  ]

  complete_found-Acts :
      (o : Option HappContext) (m : HappContextManager)
      → IsConsistent m.storage
      → Answers m.storage.contexts id o
      → Acts (at_id id completed) m.storage (complete_found o m).1.storage
  unfolding complete_found
  complete_found-Acts none m h a = missing-Acts id completed m.storage h a
  complete_found-Acts (some c) m h a =
      rewrite-Acts (enabling true c) id completed c (enabling true c) m h a refl refl
        (completed_done c)

  -- What follows a look-up of the id.
  after_look_up :
      (f : Text → HappContext → Option HappContext)
      (next : Option HappContext → HappContextManager → HappContextStorage) (m : HappContextManager)
      → IsConsistent m.storage
      → ((o : Option HappContext) (v : HappContextManager)
          → IsConsistent v.storage
          → Answers v.storage.contexts id o
          → Acts f v.storage (next o v))
      → Acts f m.storage (let (c, v) = look_up_context id m in next c v)
  unfolding look_up_context
  after_look_up f next m h k =
      let (a, g) = get_context-Answers id m.storage h in
      let (c, s) = Storage.get_context id m.storage in
      Keeps-Acts f m.storage s (next c (record m { storage = s })) g
        (k c (record m { storage = s }) g.0 (subst (λ t. Answers t id c) (sym g.1) a))

  pub set_context_enabled-Acts :
      (enabled : Bool) (m : HappContextManager)
      → IsConsistent m.storage
      → Acts (at_id id (enabled_as enabled)) m.storage (set_context_enabled id enabled m).1.storage
  unfolding set_context_enabled
  set_context_enabled-Acts enabled m h =
      after_look_up (at_id id (enabled_as enabled)) (λ c v. (set_enabled enabled c v).1.storage) m h
        (set_enabled-Acts enabled)

  pub complete_memproofs-Acts :
      (m : HappContextManager)
      → IsConsistent m.storage
      → Acts (at_id id completed) m.storage (complete_memproofs id m).1.storage
  unfolding complete_memproofs
  complete_memproofs-Acts m h =
      after_look_up (at_id id completed) (λ c v. (complete_found c v).1.storage) m h
        complete_found-Acts

  pub mark_recovery_run-Acts :
      (m : HappContextManager)
      → IsConsistent m.storage
      → Acts (at_id id (sealed_as false)) m.storage (mark_recovery_run id m).1.storage
  unfolding mark_recovery_run
  mark_recovery_run-Acts m h =
      after_look_up (at_id id (sealed_as false)) (λ c v. (set_sealed false c v).1.storage) m h
        (set_sealed-Acts false)

  pub seal_recovery-Acts :
      (m : HappContextManager)
      → IsConsistent m.storage
      → Acts (at_id id (sealed_as true)) m.storage (seal_recovery id m).1.storage
  unfolding seal_recovery
  seal_recovery-Acts m h =
      after_look_up (at_id id (sealed_as true)) (λ c v. (set_sealed true c v).1.storage) m h
        (set_sealed-Acts true)

  pub uninstall_happ-Acts :
      (m : HappContextManager)
      → IsConsistent m.storage
      → Acts (at_id id removed) m.storage (uninstall_happ id m).1.storage
  unfolding uninstall_happ
  uninstall_happ-Acts m h =
      after_look_up (at_id id removed) (λ c v. (uninstall id c v).1.storage) m h (uninstall-Acts id)

  -- A look-up changes nothing.
  pub look_up_context-Acts :
      (m : HappContextManager)
      → IsConsistent m.storage
      → Acts (λ j. some) m.storage (look_up_context id m).1.storage
  look_up_context-Acts m h =
      after_look_up (λ j. some) (λ c v. v.storage) m h
        (λ o v k a. same-Acts v.storage v.storage (k, refl))
