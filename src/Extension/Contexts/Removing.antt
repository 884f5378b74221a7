-- ===== src/Extension/Contexts/Removing.antt =====
-- The methods of the manager that remove a context or note its use.
use holo_web_conductor.Common.{
  is_some, Bytes, ℕ, ◌+◌, ltb, ◌≡◌, refl, sym, ap, ◌∙◌, subst, ◌⊎◌, inl, inr, Bool, true, false,
  Option, none, some, List, [], ◌∷◌, Text, seq_eq, seq_eq_iff, Bool-cases,
}
use holo_web_conductor.Common.JsMap
use holo_web_conductor.Common.JsMap.{JsMap}
use holo_web_conductor.Extension.Contexts.{
  HappContext, StorableContext, HappContextStorage, DnaContext, to_storable, from_storable,
  is_taken,
}
use holo_web_conductor.Extension.Contexts.Storage
use holo_web_conductor.Extension.Contexts.Manager.{HappContextManager}
use holo_web_conductor.Extension.Contexts.Lifecycle.{
  delete_wasm, uninstall, validate_agent_key, keep_valid, get_context_for_domain,
}
use holo_web_conductor.Extension.Contexts.Rows.{get-IsKeyed}
use holo_web_conductor.Extension.Contexts.Consistent.{Shown, rewritten, recached, deleted}
use holo_web_conductor.Extension.Contexts.Seen.{seen}
use holo_web_conductor.Extension.Contexts.Answers.{IsConsistent, Answers, Keeps, if_cases}
use holo_web_conductor.Extension.Contexts.Domains.{Own, get_context_by_domain-Finds}
use holo_web_conductor.Extension.Contexts.Changes.{
  row_view, view, act, at_id, Acts, same-Acts, Keeps-Acts, missing-Acts, act_here, act_there,
  same_act, view_here, view_there,
}

abbrev pub removed : HappContext → Option HappContext
removed c = none

pub act-removed : (o : Option HappContext) → act removed o ≡ none
act-removed none = refl
act-removed (some c) = refl

view_deleted :
    (id j : Text) (rows : JsMap StorableContext)
    → view (JsMap.delete id rows) j ≡ act (at_id id removed j) (view rows j)
unfolding view
view_deleted id j rows = elim (Bool-cases (seq_eq id j)) [
  | inl e ↦
      rw (JsMap.get-delete id j rows, e)
        (sym (
          act_here id j removed (row_view (JsMap.get j rows)) e
          ∙ act-removed (row_view (JsMap.get j rows))))
  | inr e ↦
      rw (JsMap.get-delete id j rows, e)
        (sym (act_there id j removed (row_view (JsMap.get j rows)) e))
]

pub delete_context-Acts :
    (id : Text) (s : HappContextStorage)
    → IsConsistent s
    → Acts (at_id id removed) s (Storage.delete_context id s)
unfolding Acts Storage.delete_context
delete_context-Acts id s h =
    (deleted id s.contexts s.context_cache s.cache_initialized h, λ j. view_deleted id j s.contexts)

delete_wasm-Keeps :
    (dnas : List DnaContext) (s : HappContextStorage)
    → IsConsistent s
    → Keeps s (delete_wasm dnas s)
unfolding delete_wasm Storage.delete_dna_wasm
delete_wasm-Keeps [] s h = (h, refl)
delete_wasm-Keeps (dna ∷ dnas) s h = delete_wasm-Keeps dnas (Storage.delete_dna_wasm dna.hash s) h

pub uninstall-Acts :
    (id : Text) (o : Option HappContext) (m : HappContextManager)
    → IsConsistent m.storage
    → Answers m.storage.contexts id o
    → Acts (at_id id removed) m.storage (uninstall id o m).1.storage
unfolding uninstall
uninstall-Acts id none m h a = missing-Acts id removed m.storage h a
uninstall-Acts id (some c) m h a =
    let k = delete_wasm-Keeps c.dnas m.storage h in
    Keeps-Acts (at_id id removed) m.storage (delete_wasm c.dnas m.storage)
      (Storage.delete_context id (delete_wasm c.dnas m.storage)) k
      (delete_context-Acts id (delete_wasm c.dnas m.storage) k.0)

-- A row that has got its time shows the same.
stamped :
    (row : StorableContext) (now : ℕ)
    → seen (from_storable (record row { last_used = now })) ≡ seen (from_storable row)
unfolding seen from_storable to_storable
stamped row now = refl

used : (c : HappContext) (now : ℕ) → seen (record c { last_used = now }) ≡ seen c
unfolding seen
used c now = refl

view_row :
    (id : Text) (row : StorableContext) (rows : JsMap StorableContext)
    → JsMap.get id rows ≡ some row
    → view rows id ≡ some (seen (from_storable row))
unfolding view
view_row id row rows e = ap row_view e

view_stamped :
    (id j : Text) (old row : StorableContext) (rows : JsMap StorableContext)
    → JsMap.get id rows ≡ some old
    → seen (from_storable row) ≡ seen (from_storable old)
    → view (JsMap.set id row rows) j ≡ act some (view rows j)
view_stamped id j old row rows o e = elim (Bool-cases (seq_eq id j)) [
  | inl q ↦
      view_here id j row rows q
      ∙ ap some e
      ∙ sym (ap (act some) (ap (view rows) (sym ((seq_eq_iff id j).0 q)) ∙ view_row id old rows o))
  | inr q ↦ view_there id j row rows q ∙ same_act (view rows j)
]

stamp_set-Acts :
    (id : Text) (row : StorableContext) (now : ℕ) (s : HappContextStorage)
    → IsConsistent s
    → JsMap.get id s.contexts ≡ some row
    → Acts
        (λ j. some)
        s
        (record s { contexts = JsMap.set id (record row { last_used = now }) s.contexts })
unfolding Acts
stamp_set-Acts id row now s h e = (
  rewritten id s.contexts s.context_cache s.cache_initialized row (record row { last_used = now }) h
      e (get-IsKeyed id row s.contexts h.keyed e) refl (stamped row now),
  λ j. view_stamped id j row (record row { last_used = now }) s.contexts e (stamped row now),
)

stamp_row-Acts :
    (o : Option StorableContext) (id : Text) (now : ℕ) (s : HappContextStorage)
    → IsConsistent s
    → JsMap.get id s.contexts ≡ o
    → Acts (λ j. some) s (Storage.stamp_row o id now s).1
unfolding Storage.stamp_row
stamp_row-Acts none id now s h e = same-Acts s s (h, refl)
stamp_row-Acts (some row) id now s h e =
    if_cases (λ (p : Bool × HappContextStorage). Acts (λ j. some) s p.1)
      (is_taken row.id row.domain s.contexts) (false, s)
      (true, record s { contexts = JsMap.set row.id (record row { last_used = now }) s.contexts })
      (λ t. same-Acts s s (h, refl))
      (λ t.
        let k = get-IsKeyed id row s.contexts h.keyed e in
        subst
          (λ (i : Text).
            Acts (λ j. some) s
              (record s { contexts = JsMap.set i (record row { last_used = now }) s.contexts }))
          (sym k) (stamp_set-Acts id row now s h e))

stamp_later-Acts :
    (previous : ℕ) (id : Text) (now : ℕ) (s : HappContextStorage)
    → IsConsistent s
    → Acts (λ j. some) s (Storage.stamp_later previous id now s).1
unfolding Storage.stamp_later
stamp_later-Acts previous id now s h =
    if_cases (λ (p : Bool × HappContextStorage). Acts (λ j. some) s p.1)
      (ltb now (previous + 60000)) (true, s) (Storage.stamp_row (JsMap.get id s.contexts) id now s)
      (λ e. same-Acts s s (h, refl)) (λ e. stamp_row-Acts (JsMap.get id s.contexts) id now s h refl)

touched_Shown :
    (id : Text) (c : HappContext) (now : ℕ) (rows : JsMap StorableContext)
    → Shown rows id c
    → Shown rows id (record c { last_used = now })
touched_Shown id c now rows (i, (row, e, s)) = (i, (row, e, s ∙ sym (used c now)))

use_cached-Acts :
    (o : Option HappContext) (id : Text) (now : ℕ) (s : HappContextStorage)
    → IsConsistent s
    → JsMap.get id s.context_cache ≡ o
    → Acts (λ j. some) s (Storage.use_cached o id now s).1
unfolding Storage.use_cached
use_cached-Acts none id now s h e = stamp_later-Acts 0 id now s h
use_cached-Acts (some c) id now s h e =
    let v : HappContextStorage = record s {
      context_cache = JsMap.set id (record c { last_used = now }) s.context_cache;
    } in
    let k =
      recached id s.contexts s.context_cache s.cache_initialized (record c { last_used = now }) h
        (touched_Shown id c now s.contexts (h.shown id c e)) in
    Keeps-Acts (λ j. some) s v (Storage.stamp_later c.last_used id now v).1 (k, refl)
      (stamp_later-Acts c.last_used id now v k)

-- Noting the use of a context changes nothing that is seen of the contexts.
pub update_last_used-Acts :
    (id : Text) (now : ℕ) (s : HappContextStorage)
    → IsConsistent s
    → Acts (λ j. some) s (Storage.update_last_used id now s).1
unfolding Storage.update_last_used
update_last_used-Acts id now s h = use_cached-Acts (JsMap.get id s.context_cache) id now s h refl

-- A look-up by domain leaves all contexts, or removes one whose key the key store does not have.
abbrev pub Drops : JsMap Bytes → HappContextStorage → HappContextStorage → Type 0
Drops lair s v =
    Acts (λ j. some) s v
    ⊎ ((c : HappContext) × Own s.contexts (some c)
        × (is_some (JsMap.get c.agent_key_tag lair) ≡ false)
        × Acts (at_id c.id removed) s v)

keep_valid-Drops :
    (o : Option HappContext) (m : HappContextManager)
    → IsConsistent m.storage
    → Own m.storage.contexts o
    → Drops m.lair m.storage (keep_valid o m).1.storage
unfolding keep_valid validate_agent_key
keep_valid-Drops none m h w = inl (same-Acts m.storage m.storage (h, refl))
keep_valid-Drops (some c) m h w =
    if_cases (λ (p : Option HappContext × HappContextManager). Drops m.lair m.storage p.1.storage)
      (validate_agent_key c m) (some c, m)
      (none, record m { storage = Storage.delete_context c.id m.storage })
      (λ e. inl (same-Acts m.storage m.storage (h, refl)))
      (λ e. inr (c, w, e, delete_context-Acts c.id m.storage h))

Keeps-Drops :
    (lair : JsMap Bytes) (s w v : HappContextStorage) → Keeps s w → Drops lair w v → Drops lair s v
Keeps-Drops lair s w v k (inl a) = inl (Keeps-Acts (λ j. some) s w v k a)
Keeps-Drops lair s w v k (inr (c, o, e, a)) =
    inr (c, subst (λ t. Own t (some c)) k.1 o, e, Keeps-Acts (at_id c.id removed) s w v k a)

pub get_context_for_domain-Drops :
    (domain : Text) (m : HappContextManager)
    → IsConsistent m.storage
    → Drops m.lair m.storage (get_context_for_domain domain m).1.storage
unfolding get_context_for_domain
get_context_for_domain-Drops domain m h =
    let (k, w) = get_context_by_domain-Finds domain m.storage h in
    let (c, s) = Storage.get_context_by_domain domain m.storage in
    Keeps-Drops m.lair m.storage s (keep_valid c (record m { storage = s })).1.storage k
      (keep_valid-Drops c (record m { storage = s }) k.0 (subst (λ t. Own t c) (sym k.1) w))
