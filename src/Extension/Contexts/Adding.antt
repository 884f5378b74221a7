-- ===== src/Extension/Contexts/Adding.antt =====
-- What an installation makes of the contexts.
use holo_web_conductor.Common.{
  ◌≡◌, refl, ap, ◌∙◌, subst, ◌≢◌, inl, inr, false, not, some, Text, seq_eq, seq_eq_iff, seq_eq_refl,
  arith, Bool-cases,
}
use holo_web_conductor.Common.JsMap
use holo_web_conductor.Common.JsMap.{JsMap}
use holo_web_conductor.Extension.Contexts.{HappContext, HappContextStorage, to_storable, is_taken}
use holo_web_conductor.Extension.Contexts.Storage
use holo_web_conductor.Extension.Contexts.Manager.{
  HappContextManager, ContextResult, gives, throws, not_stored, ContextError,
}
use holo_web_conductor.Extension.Contexts.Installing.{store_new}
use holo_web_conductor.Extension.Contexts.Lifecycle.{is_awaiting}
use holo_web_conductor.Extension.Contexts.Consistent.{written}
use holo_web_conductor.Extension.Contexts.Seen.{seen, seen-from_storable}
use holo_web_conductor.Extension.Contexts.Answers.{IsConsistent, Keeps}
use holo_web_conductor.Extension.Contexts.Changes.{view, view_here, view_there}

-- What comes of an installation under an id for a domain: a context that the database has and
-- whose domain no other has, or an error and the contexts as before. The others stay.
unfoldable pub Comes :
    (id domain : Text)
    → HappContextStorage
    → ContextResult HappContext
    → HappContextStorage
    → Type 0
Comes id domain s (throws e) v = IsConsistent v × (v.contexts ≡ s.contexts)
Comes id domain s (gives c) v =
    IsConsistent v
    × (c.domain ≡ domain)
    × (is_awaiting c.status ≡ not c.enabled)
    × (is_taken id domain s.contexts ≡ false)
    × (view v.contexts id ≡ some (seen c))
    × ((j : Text) → id ≢ j → view v.contexts j ≡ view s.contexts j)

pub Comes-throws :
    (id domain : Text) (s v : HappContextStorage) (e : ContextError)
    → Keeps s v
    → Comes id domain s (throws e) v
unfolding Comes
Comes-throws id domain s v e h = h

-- The installation goes on from a state over the same rows.
pub Keeps-Comes :
    (id domain : Text) (s w v : HappContextStorage) (r : ContextResult HappContext)
    → Keeps s w
    → Comes id domain w r v
    → Comes id domain s r v
unfolding Comes
Keeps-Comes id domain s w v (throws e) (h, k) (g, i) = (g, i ∙ k)
Keeps-Comes id domain s w v (gives c) (h, k) g =
    subst
      (λ t.
        IsConsistent v
        × (c.domain ≡ domain)
        × (is_awaiting c.status ≡ not c.enabled)
        × (is_taken id domain t ≡ false)
        × (view v.contexts id ≡ some (seen c))
        × ((j : Text) → id ≢ j → view v.contexts j ≡ view t j))
      k g

stored_id : (c : HappContext) → ((to_storable c).id ≡ c.id) × ((to_storable c).domain ≡ c.domain)
unfolding to_storable
stored_id c = (refl, refl)

other_id : (i j : Text) → i ≢ j → seq_eq i j ≡ false
other_id i j n = ground (arith, seq_eq_iff i j)

put_Comes :
    (c : HappContext) (s : HappContextStorage)
    → IsConsistent s
    → is_awaiting c.status ≡ not c.enabled
    → is_taken c.id c.domain s.contexts ≡ false
    → Comes c.id c.domain s
        (gives c)
        (Storage.remember c (record s { contexts = JsMap.set c.id (to_storable c) s.contexts }))
unfolding Comes Storage.remember
put_Comes c s h a t = (
  (written c.id s.contexts s.context_cache s.cache_initialized (to_storable c) c
      (JsMap.set c.id c s.context_cache) h (stored_id c).0 refl
      (ap (λ u. is_taken c.id u s.contexts) (stored_id c).1 ∙ t) (seen-from_storable c)
      (λ j. JsMap.get-set c.id j c s.context_cache)),
  refl,
  a,
  t,
  view_here c.id c.id (to_storable c) s.contexts (seq_eq_refl c.id)
      ∙ ap some (seen-from_storable c),
  λ j n. view_there c.id j (to_storable c) s.contexts (other_id c.id j n),
)

pub store_new-Comes :
    (c : HappContext) (m : HappContextManager)
    → IsConsistent m.storage
    → is_awaiting c.status ≡ not c.enabled
    → let (r, v) = store_new c m in Comes c.id c.domain m.storage r v.storage
unfolding store_new Storage.put_context
store_new-Comes c m h a = elim (Bool-cases (is_taken c.id c.domain m.storage.contexts)) [
  | inl t ↦ rw t (Comes-throws c.id c.domain m.storage m.storage not_stored (h, refl))
  | inr t ↦ rw t (put_Comes c m.storage h a t)
]
