-- ===== src/Extension/Contexts/Changes.antt =====
-- What a call of the manager makes of the rows of the database, seen without the time of last use.
use holo_web_conductor.Common.{
  ◌≡◌, refl, sym, ap, ◌∙◌, subst, inl, inr, Bool, true, false, Option, none, some, Text, seq_eq,
  seq_eq_iff, if◌then◌else◌, arith, Bool-cases,
}
use holo_web_conductor.Common.JsMap
use holo_web_conductor.Common.JsMap.{JsMap}
use holo_web_conductor.Extension.Contexts.{
  HappContext, StorableContext, HappContextStorage, to_storable, from_storable, is_taken,
}
use holo_web_conductor.Extension.Contexts.Storage
use holo_web_conductor.Extension.Contexts.Manager.{HappContextManager}
use holo_web_conductor.Extension.Contexts.Lifecycle.{rewrite}
use holo_web_conductor.Extension.Contexts.Rows.{own-is_taken}
use holo_web_conductor.Extension.Contexts.Consistent.{Shown, Consistent, written}
use holo_web_conductor.Extension.Contexts.Seen.{seen, seen-from_storable}
use holo_web_conductor.Extension.Contexts.Answers.{IsConsistent, Keeps}

-- What a row shows.
abbrev pub row_view : Option StorableContext → Option HappContext
row_view none = none
row_view (some row) = some (seen (from_storable row))

-- The context of an id in the database.
unfoldable pub view : JsMap StorableContext → Text → Option HappContext
view rows id = row_view (JsMap.get id rows)

-- A change of the contexts by their ids; one may be removed.
abbrev pub act : (HappContext → Option HappContext) → Option HappContext → Option HappContext
act f none = none
act f (some c) = f c

abbrev pub at_id :
    Text → (HappContext → Option HappContext) → Text → HappContext → Option HappContext
at_id id f j c = if seq_eq id j then f c else some c

-- The rows are changed as the function says, and the contexts in memory agree with them again.
unfoldable pub Acts :
    (Text → HappContext → Option HappContext) → HappContextStorage → HappContextStorage → Type 0
Acts f s v = IsConsistent v × ((j : Text) → view v.contexts j ≡ act (f j) (view s.contexts j))

pub same_act : (o : Option HappContext) → o ≡ act some o
same_act none = refl
same_act (some c) = refl

pub same-Acts : (s v : HappContextStorage) → Keeps s v → Acts (λ j. some) s v
unfolding Acts
same-Acts s v (h, e) = (h, λ j. ap (λ t. view t j) e ∙ same_act (view s.contexts j))

-- A call first looks something up.
pub Keeps-Acts :
    (f : Text → HappContext → Option HappContext) (s w v : HappContextStorage)
    → Keeps s w
    → Acts f w v
    → Acts f s v
unfolding Acts
Keeps-Acts f s w v (h, e) (k, g) = (k, λ j. g j ∙ ap (λ t. act (f j) (view t j)) e)

-- Nothing is changed where the change would do nothing.
still_act :
    (id j : Text) (f : HappContext → Option HappContext) (o : Option HappContext)
    → (seq_eq id j ≡ true → act f o ≡ o)
    → o ≡ act (at_id id f j) o
still_act id j f none h = refl
still_act id j f (some c) h = ground (arith, h)

pub still-Acts :
    (id : Text) (f : HappContext → Option HappContext) (s : HappContextStorage)
    → IsConsistent s
    → act f (view s.contexts id) ≡ view s.contexts id
    → Acts (at_id id f) s s
unfolding Acts
still-Acts id f s h e = (
  h,
  λ j.
      still_act id j f (view s.contexts j)
        (λ q. subst (λ t. act f (view s.contexts t) ≡ view s.contexts t) ((seq_eq_iff id j).0 q) e),
)

pub Shown-view :
    (id : Text) (c : HappContext) (rows : JsMap StorableContext)
    → Shown rows id c
    → view rows id ≡ some (seen c)
unfolding view
Shown-view id c rows (i, (row, e, s)) = ap row_view e ∙ ap some s

own_is_taken :
    (id : Text) (c : HappContext) (rows : JsMap StorableContext) (cache : JsMap HappContext)
    (loaded : Bool)
    → Consistent rows cache loaded
    → Shown rows id c
    → is_taken id c.domain rows ≡ false
unfolding seen from_storable to_storable
own_is_taken id c rows cache loaded h (i, (row, e, s)) =
    subst (λ t. is_taken id t rows ≡ false) (ap (λ t. t.domain) s)
      (own-is_taken id row rows h.unique e)

storable_id : (c : HappContext) → ((to_storable c).id ≡ c.id) × ((to_storable c).domain ≡ c.domain)
unfolding to_storable
storable_id c = (refl, refl)

set_twice :
    (id : Text) (rows : JsMap StorableContext) (cache : JsMap HappContext) (c : HappContext)
    (j : Text)
    → JsMap.get j (JsMap.set id c (JsMap.set id c cache))
      ≡ (if seq_eq id j then some c else JsMap.get j cache)
set_twice id rows cache c j =
    ground (arith, JsMap.get-set id j c (JsMap.set id c cache), JsMap.get-set id j c cache)

-- The state that a change which is stored leaves.
abbrev stored_change : HappContext → HappContextStorage → HappContextStorage
stored_change c s = Storage.remember c (record s {
  contexts = JsMap.set c.id (to_storable c) s.contexts;
  context_cache = JsMap.set c.id c s.context_cache;
})

rewrite_lem :
    {A : Type 0} (answer : A) (c : HappContext) (m : HappContextManager)
    → is_taken c.id c.domain m.storage.contexts ≡ false
    → (rewrite answer c m).1.storage ≡ stored_change c m.storage
unfolding rewrite Storage.put_context
rewrite_lem answer c m t = rw t refl

pub act_here :
    (id j : Text) (f : HappContext → Option HappContext) (o : Option HappContext)
    → seq_eq id j ≡ true
    → act (at_id id f j) o ≡ act f o
act_here id j f none e = refl
act_here id j f (some c) e = rw e refl

pub act_there :
    (id j : Text) (f : HappContext → Option HappContext) (o : Option HappContext)
    → seq_eq id j ≡ false
    → act (at_id id f j) o ≡ o
act_there id j f none e = refl
act_there id j f (some c) e = rw e refl

pub view_here :
    (id j : Text) (row : StorableContext) (rows : JsMap StorableContext)
    → seq_eq id j ≡ true
    → view (JsMap.set id row rows) j ≡ some (seen (from_storable row))
unfolding view
view_here id j row rows e = rw (JsMap.get-set id j row rows, e) refl

pub view_there :
    (id j : Text) (row : StorableContext) (rows : JsMap StorableContext)
    → seq_eq id j ≡ false
    → view (JsMap.set id row rows) j ≡ view rows j
unfolding view
view_there id j row rows e = rw (JsMap.get-set id j row rows, e) refl

stored_Acts :
    (id : Text) (f : HappContext → Option HappContext) (old c : HappContext)
    (s : HappContextStorage)
    → IsConsistent s
    → Shown s.contexts id old
    → c.id ≡ id
    → c.domain ≡ old.domain
    → f (seen old) ≡ some (seen c)
    → Acts (at_id id f) s (stored_change c s)
unfolding Acts Storage.remember
stored_Acts id f old c s h o i d e =
    let (p, q) = storable_id c in
    let taken =
      subst (λ t. is_taken id t s.contexts ≡ false) (sym d)
        (own_is_taken id old s.contexts s.context_cache s.cache_initialized h o) in
    (
      written c.id s.contexts s.context_cache s.cache_initialized (to_storable c) c
          (JsMap.set c.id c (JsMap.set c.id c s.context_cache)) h p refl
          (ap (λ u. is_taken c.id u s.contexts) q
            ∙ ap (λ u. is_taken u c.domain s.contexts) i
            ∙ taken)
          (seen-from_storable c) (set_twice c.id s.contexts s.context_cache c),
      λ j. elim (Bool-cases (seq_eq id j)) [
        | inl k ↦
            view_here c.id j (to_storable c) s.contexts (ap (λ t. seq_eq t j) i ∙ k)
            ∙ ap some (seen-from_storable c)
            ∙ sym (
                act_here id j f (view s.contexts j) k
                ∙ ap (λ t. act f (view s.contexts t)) (sym ((seq_eq_iff id j).0 k))
                ∙ ap (act f) (Shown-view id old s.contexts o)
                ∙ e)
        | inr k ↦
            view_there c.id j (to_storable c) s.contexts (ap (λ t. seq_eq t j) i ∙ k)
            ∙ sym (act_there id j f (view s.contexts j) k)
      ],
    )

-- A change that is stored.
pub rewrite-Acts :
    {A : Type 0} (answer : A) (id : Text) (f : HappContext → Option HappContext)
    (old c : HappContext) (m : HappContextManager)
    → IsConsistent m.storage
    → Shown m.storage.contexts id old
    → c.id ≡ old.id
    → c.domain ≡ old.domain
    → f (seen old) ≡ some (seen c)
    → Acts (at_id id f) m.storage (rewrite answer c m).1.storage
rewrite-Acts answer id f old c m h o i d e =
    let free =
      ap (λ t. is_taken t c.domain m.storage.contexts) (i ∙ o.0)
      ∙ ap (λ t. is_taken id t m.storage.contexts) d
      ∙ own_is_taken id old m.storage.contexts m.storage.context_cache m.storage.cache_initialized h
          o in
    subst (λ t. Acts (at_id id f) m.storage t) (sym (rewrite_lem answer c m free))
      (stored_Acts id f old c m.storage h o (i ∙ o.0) d e)

pub missing-Acts :
    (id : Text) (f : HappContext → Option HappContext) (s : HappContextStorage)
    → IsConsistent s
    → JsMap.get id s.contexts ≡ none
    → Acts (at_id id f) s s
unfolding view
missing-Acts id f s h e = still-Acts id f s h (rw e refl)

pub refused-Acts :
    (id : Text) (f : HappContext → Option HappContext) (c : HappContext) (s : HappContextStorage)
    → IsConsistent s
    → Shown s.contexts id c
    → f (seen c) ≡ some (seen c)
    → Acts (at_id id f) s s
refused-Acts id f c s h o e =
    let v = Shown-view id c s.contexts o in still-Acts id f s h (ap (act f) v ∙ e ∙ sym v)
