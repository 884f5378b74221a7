-- ===== src/Extension/Contexts/Domains.antt =====
-- What the storage answers of a domain is a context that the database has under its id.
use holo_web_conductor.Common.{◌≡◌, refl, sym, ap, ◌∙◌, subst, Option, none, some, [], ◌∷◌, Text}
use holo_web_conductor.Common.JsMap
use holo_web_conductor.Common.JsMap.{JsMap}
use holo_web_conductor.Extension.Contexts.{
  HappContext, StorableContext, HappContextStorage, from_storable, domain_index, find_domain,
}
use holo_web_conductor.Extension.Contexts.Storage
use holo_web_conductor.Extension.Contexts.Consistent.{Shown}
use holo_web_conductor.Extension.Contexts.Answers.{
  IsConsistent, Keeps, own_Shown, remember-Keeps, initialize-Loaded,
}

-- What is answered is under its own id in the database.
abbrev pub Own : JsMap StorableContext → Option HappContext → Type 0
Own rows none = Unit
Own rows (some c) = Shown rows c.id c

abbrev Finds : HappContextStorage → Option HappContext × HappContextStorage → Type 0
Finds s (o, v) = Keeps s v × Own s.contexts o

found-none : (s : HappContextStorage) → IsConsistent s → Finds s (Storage.found none s)
unfolding Storage.found
found-none s h = ((h, refl), tt)

Shown-Own :
    (rows : JsMap StorableContext) (id : Text) (c : HappContext)
    → Shown rows id c
    → Own rows (some c)
Shown-Own rows id c s = subst (λ t. Shown rows t c) (sym s.0) s

found_at :
    (s : HappContextStorage) (id : Text) (o : Option StorableContext)
    → IsConsistent s
    → JsMap.get id s.contexts ≡ o
    → Finds s (Storage.found o s)
unfolding Storage.found
found_at s id none h e = ((h, refl), tt)
found_at s id (some row) h e = (
  remember-Keeps s id row h e,
  Shown-Own s.contexts id (from_storable row) (own_Shown id row s.contexts h.keyed e),
)

led_to :
    (domain : Text) (rows : JsMap StorableContext) (o : Option Text)
    → JsMap.get domain (domain_index rows) ≡ o
    → find_domain domain rows ≡ elim o [ none ↦ none | some id ↦ JsMap.get id rows ]
unfolding find_domain
led_to domain rows o e = ap (λ t. elim t [ none ↦ none | some id ↦ JsMap.get id rows ]) e

found-Finds :
    (domain : Text) (s : HappContextStorage)
    → IsConsistent s
    → (o : Option Text) → JsMap.get domain (domain_index s.contexts) ≡ o
    → Finds s (Storage.found (find_domain domain s.contexts) s)
found-Finds domain s h none e =
    subst (λ t. Finds s (Storage.found t s)) (sym (led_to domain s.contexts none e))
      (found-none s h)
found-Finds domain s h (some id) e =
    subst (λ t. Finds s (Storage.found t s)) (sym (led_to domain s.contexts (some id) e))
      (found_at s id (JsMap.get id s.contexts) h refl)

cached_Own :
    (s : HappContextStorage) (id : Text) (o : Option HappContext)
    → IsConsistent s
    → JsMap.get id s.context_cache ≡ o
    → Own s.contexts o
cached_Own s id none h e = tt
cached_Own s id (some c) h e = Shown-Own s.contexts id c (h.shown id c e)

by_id_Finds :
    (o : Option Text) (domain : Text) (s : HappContextStorage)
    → IsConsistent s
    → Finds s (Storage.by_cached_id o domain s)
unfolding Storage.by_cached_id
by_id_Finds none domain s h =
    found-Finds domain s h (JsMap.get domain (domain_index s.contexts)) refl
by_id_Finds (some []) domain s h =
    found-Finds domain s h (JsMap.get domain (domain_index s.contexts)) refl
by_id_Finds (some (c ∷ id)) domain s h =
    ((h, refl), cached_Own s (c ∷ id) (JsMap.get (c ∷ id) s.context_cache) h refl)

-- `getContextByDomain` leaves the rows as they are and the caches in agreement with them, and
-- what it answers is what the row of its id shows.
pub get_context_by_domain-Finds :
    (domain : Text) (s : HappContextStorage)
    → IsConsistent s
    → let (o, v) = Storage.get_context_by_domain domain s in Keeps s v × Own s.contexts o
unfolding Storage.get_context_by_domain
get_context_by_domain-Finds domain s h =
    let (k, e, l) = initialize-Loaded s h in
    let v = Storage.initialize_cache s in
    let ((q, f), w) = by_id_Finds (JsMap.get domain v.domain_to_id) domain v k in
    ((q, f ∙ e), subst (λ t. Own t (Storage.get_context_by_domain domain s).0) e w)
