-- ===== src/Extension/Contexts/Safe.antt =====
-- What holds of the contexts over any calls of the manager.
use holo_web_conductor.Common.{
  Bool, true, ◌||◌, arith, ◌≡◌, refl, sym, ap, ◌∙◌, subst, ◌⊎◌, inl, inr, Option, none, some, List,
  [], ◌∷◌, All, Text,
}
use holo_web_conductor.Common.JsMap.{JsMap}
use holo_web_conductor.Extension.Contexts.{HappContext, StorableContext}
use holo_web_conductor.Extension.Contexts.Storage
use holo_web_conductor.Extension.Contexts.Manager.{HappContextManager, Bundles}
use holo_web_conductor.Extension.Contexts.Lifecycle.{}
use holo_web_conductor.Extension.Contexts.Seen.{seen}
use holo_web_conductor.Extension.Contexts.Answers.{IsConsistent, Answers, get_context-Answers}
use holo_web_conductor.Extension.Contexts.Changes.{view, row_view, act}
use holo_web_conductor.Extension.Contexts.Runs.{
  loses, lost, ContextCall, effect, effects, IsOther, call_manager, run_manager, call-Follows,
}
use holo_web_conductor.Extension.Contexts.Kept.{
  Holds, Preserves, IsSealed, IsParked, IsNotCompleting, All-IsSealed, All-IsParked,
}

effects-none : (calls : List ContextCall) (j : Text) → effects calls j none ≡ none
unfolding effects
effects-none [] j = refl
effects-none (call ∷ calls) j = effects-none calls j

effects-Holds :
    (P : HappContext → Type 0) (j : Text) (calls : List ContextCall) (o : Option HappContext)
    → All (Preserves P j) calls
    → Holds P o
    → Holds P (effects calls j o)
unfolding effects
effects-Holds P j [] o a h = h
effects-Holds P j (call ∷ calls) none (k, a) h = effects-Holds P j calls none a tt
effects-Holds P j (call ∷ calls) (some c) (k, a) h =
    effects-Holds P j calls (effect call j c) a (k c h)

module _ (b : Bundles) where
  pub run-Consistent :
      (calls : List ContextCall) (m : HappContextManager)
      → IsConsistent m.storage
      → IsConsistent (run_manager b calls m).storage
  unfolding run_manager
  run-Consistent [] m h = h
  run-Consistent (call ∷ calls) m h =
      run-Consistent calls (call_manager b call m) (call-Follows b [] call m h).0

  or_right : (a c : Bool) → c ≡ true → a || c ≡ true
  or_right a c e = ground arith

  next_effects :
      (calls : List ContextCall) (j : Text) (call : ContextCall)
      (before after end : Option HappContext) (d ds : Bool)
      → (after ≡ act (effect call j) before) ⊎ ((after ≡ none) × (d ≡ true))
      → (end ≡ effects calls j after) ⊎ ((end ≡ none) × (ds ≡ true))
      → (end ≡ effects (call ∷ calls) j before) ⊎ ((end ≡ none) × (d || ds ≡ true))
  unfolding effects
  next_effects calls j call before after end d ds f (inr (n, e)) = inr (n, or_right d ds e)
  next_effects calls j call before after end d ds (inl e) (inl g) = inl (g ∙ ap (effects calls j) e)
  next_effects calls j call before after end d ds (inr (e, k)) (inl g) =
      inr (g ∙ ap (effects calls j) e ∙ effects-none calls j, rw k refl)

  -- Over any calls of the manager, changes of the permissions and the key store by others, and
  -- restarts of the browser, from contexts in memory that agree with the database, the context
  -- that the database has of an id is, but for the time of its last use, what the effects of the
  -- calls make of it, or it is gone, if no installation takes the id again. It can be gone besides
  -- the effects only where a look-up by domain came while its key was not in the key store.
  pub run_manager-effects :
      (j : Text) (calls : List ContextCall) (m : HappContextManager)
      → All (IsOther j) calls
      → IsConsistent m.storage
      → (view (run_manager b calls m).storage.contexts j
          ≡ effects calls j (view m.storage.contexts j))
        ⊎ ((view (run_manager b calls m).storage.contexts j ≡ none) × (lost b j calls m ≡ true))
  unfolding run_manager effects lost
  run_manager-effects j [] m o h = inl refl
  run_manager-effects j (call ∷ calls) m (n, o) h =
      let (k, f) = call-Follows b j call m h in
      let v = call_manager b call m in
      next_effects calls j call (view m.storage.contexts j) (view v.storage.contexts j)
        (view (run_manager b calls v).storage.contexts j) (loses j call m) (lost b j calls v) (f n)
        (run_manager-effects j calls v o k)

  Holds-after :
      (P : HappContext → Type 0) (o end : Option HappContext) (d : Bool)
      → Holds P o
      → (end ≡ o) ⊎ ((end ≡ none) × (d ≡ true))
      → Holds P end
  Holds-after P o end d h (inl e) = subst (Holds P) (sym e) h
  Holds-after P o end d h (inr (e, k)) = subst (Holds P) (sym e) tt

  run-Holds :
      (P : HappContext → Type 0) (j : Text) (calls : List ContextCall) (m : HappContextManager)
      → All (Preserves P j) calls
      → All (IsOther j) calls
      → IsConsistent m.storage
      → Holds P (view m.storage.contexts j)
      → Holds P (view (run_manager b calls m).storage.contexts j)
  run-Holds P j calls m p o h s =
      Holds-after P (effects calls j (view m.storage.contexts j))
        (view (run_manager b calls m).storage.contexts j) (lost b j calls m)
        (effects-Holds P j calls (view m.storage.contexts j) p s)
        (run_manager-effects j calls m o h)

abbrev pub seen_of : Option HappContext → Option HappContext
seen_of none = none
seen_of (some c) = some (seen c)

answered :
    (rows : JsMap StorableContext) (id : Text) (o : Option HappContext)
    → Answers rows id o
    → seen_of o ≡ view rows id
unfolding view
answered rows id none e = sym (ap row_view e)
answered rows id (some c) (i, (row, e, s)) = sym (ap row_view e ∙ ap some s)

module _ (b : Bundles) where
  -- Recovery that is sealed for a context stays sealed over any calls of the manager, changes by
  -- others and restarts of the browser, unless the context is gone, if the contexts in memory
  -- agreed with the database before and no installation takes the id again.
  pub run-IsSealed :
      (j : Text) (calls : List ContextCall) (m : HappContextManager)
      → All (IsOther j) calls
      → IsConsistent m.storage
      → Holds IsSealed (view m.storage.contexts j)
      → Holds IsSealed (view (run_manager b calls m).storage.contexts j)
  run-IsSealed j calls m o h s = run-Holds b IsSealed j calls m (All-IsSealed j calls) o h s

  -- A context that waits for its membrane proofs and is not enabled stays so over any calls that
  -- do not complete its proofs, unless it is gone, if the contexts in memory agreed with the
  -- database before and no installation takes the id again: in particular it is not enabled by
  -- `setContextEnabled`.
  pub run-IsParked :
      (j : Text) (calls : List ContextCall) (m : HappContextManager)
      → All (IsOther j) calls
      → All (IsNotCompleting j) calls
      → IsConsistent m.storage
      → Holds IsParked (view m.storage.contexts j)
      → Holds IsParked (view (run_manager b calls m).storage.contexts j)
  run-IsParked j calls m o n h s = run-Holds b IsParked j calls m (All-IsParked j calls n) o h s

  -- After any calls, changes by others and restarts, from contexts in memory that agree with the
  -- database, `getContext` answers, from memory or not, with the context that the database has of
  -- the id, but for the time of its last use, and with none if it has none.
  pub run-get_context :
      (id : Text) (calls : List ContextCall) (m : HappContextManager)
      → IsConsistent m.storage
      → let s = (run_manager b calls m).storage in
        seen_of (Storage.get_context id s).0 ≡ view s.contexts id
  run-get_context id calls m h =
      let s = (run_manager b calls m).storage in
      answered s.contexts id (Storage.get_context id s).0
        (get_context-Answers id s (run-Consistent b calls m h)).0
