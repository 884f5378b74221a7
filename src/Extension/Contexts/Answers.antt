-- ===== src/Extension/Contexts/Answers.antt =====
-- What the storage answers, from memory, is what the database has.
use holo_web_conductor.Common.{
  ◌≡◌, refl, sym, ◌∙◌, subst, Bool, true, false, Option, none, some, [], ◌∷◌, Text, seq_eq_iff,
  if◌then◌else◌, arith,
}
use holo_web_conductor.Common.JsMap
use holo_web_conductor.Common.JsMap.{JsMap}
use holo_web_conductor.Extension.Contexts.{
  HappContext, StorableContext, HappContextStorage, from_storable,
}
use holo_web_conductor.Extension.Contexts.Storage
use holo_web_conductor.Extension.Contexts.Rows.{IsKeyed, get-IsKeyed}
use holo_web_conductor.Extension.Contexts.Consistent.{Shown, Consistent, recached, deleted}

abbrev pub IsConsistent : HappContextStorage → Type 0
IsConsistent s = Consistent s.contexts s.context_cache s.cache_initialized

abbrev row_or : Option StorableContext → Option HappContext → Option HappContext
row_or none c = c
row_or (some row) c = some (from_storable row)

-- After the loop each context is what its row makes of it.
load_rows_lem :
    (rows : JsMap StorableContext) (s : HappContextStorage)
    → IsKeyed rows
    → JsMap.Distinct rows
    → (id : Text)
    → JsMap.get id (Storage.load_rows rows s).context_cache
      ≡ row_or (JsMap.get id rows) (JsMap.get id s.context_cache)
unfolding Storage.load_rows JsMap.get Storage.remember from_storable
load_rows_lem [] s k d id = refl
load_rows_lem ((j, row) ∷ rows) s k d id = ground (
  arith,
  load_rows_lem rows (Storage.remember (from_storable row) s) k.1 d.1 id,
  JsMap.get-set row.id id (from_storable row) s.context_cache,
  JsMap.get_missing j rows d.0,
  seq_eq_iff j id,
)

load_rows-contexts :
    (rows : JsMap StorableContext) (s : HappContextStorage)
    → (Storage.load_rows rows s).contexts ≡ s.contexts
unfolding Storage.load_rows Storage.remember
load_rows-contexts [] s = refl
load_rows-contexts ((j, row) ∷ rows) s =
    load_rows-contexts rows (Storage.remember (from_storable row) s)

pub if_cases :
    {S : Type 0} (P : S → Type 0) (b : Bool) (x y : S)
    → (b ≡ true → P x)
    → (b ≡ false → P y)
    → P (if b then x else y)
if_cases P true x y h k = h refl
if_cases P false x y h k = k refl

row_id : (row : StorableContext) → (from_storable row).id ≡ row.id
unfolding from_storable
row_id row = refl

pub own_Shown :
    (id : Text) (row : StorableContext) (rows : JsMap StorableContext)
    → IsKeyed rows
    → JsMap.get id rows ≡ some row
    → Shown rows id (from_storable row)
own_Shown id row rows k e = (row_id row ∙ get-IsKeyed id row rows k e, (row, e, refl))

shown_loaded :
    (rows : JsMap StorableContext) (o : Option StorableContext) (old : Option HappContext)
    (id : Text) (c : HappContext)
    → IsKeyed rows
    → JsMap.get id rows ≡ o
    → row_or o old ≡ some c
    → (old ≡ some c → Shown rows id c)
    → Shown rows id c
shown_loaded rows none old id c k e q h = h q
shown_loaded rows (some row) old id c k e q h =
    let p : from_storable row ≡ c = cc in subst (λ t. Shown rows id t) p (own_Shown id row rows k e)

missing_row :
    (o : Option StorableContext) (old : Option HappContext) → row_or o old ≡ none → o ≡ none
missing_row none old e = refl
missing_row (some row) old e = cc

loaded_Consistent :
    (rows : JsMap StorableContext) (cache after : JsMap HappContext) (loaded : Bool)
    → Consistent rows cache loaded
    → ((id : Text) → JsMap.get id after ≡ row_or (JsMap.get id rows) (JsMap.get id cache))
    → Consistent rows after true
loaded_Consistent rows cache after loaded h g = record {
  keyed = h.keyed;
  distinct = h.distinct;
  unique = h.unique;
  shown = λ id c e.
      shown_loaded rows (JsMap.get id rows) (JsMap.get id cache) id c h.keyed refl (sym (g id) ∙ e)
        (h.shown id c);
  complete = λ l id e. missing_row (JsMap.get id rows) (JsMap.get id cache) (sym (g id) ∙ e);
}

-- A state that is consistent, loaded, and over the same rows.
abbrev pub Loaded : HappContextStorage → HappContextStorage → Type 0
Loaded s v = IsConsistent v × (v.contexts ≡ s.contexts) × (v.cache_initialized ≡ true)

pub initialize-Loaded :
    (s : HappContextStorage) → IsConsistent s → Loaded s (Storage.initialize_cache s)
unfolding Storage.initialize_cache
initialize-Loaded s h =
    if_cases (Loaded s) s.cache_initialized s
      (record (Storage.load_rows s.contexts s) { cache_initialized = true }) (λ e. (h, refl, e))
      (λ e. (
        subst (λ t. Consistent t (Storage.load_rows s.contexts s).context_cache true)
            (sym (load_rows-contexts s.contexts s))
            (loaded_Consistent s.contexts s.context_cache
              (Storage.load_rows s.contexts s).context_cache s.cache_initialized h
              (load_rows_lem s.contexts s h.keyed h.distinct)),
        load_rows-contexts s.contexts s,
        refl,
      ))

-- What is answered of an id.
abbrev pub Answers : JsMap StorableContext → Text → Option HappContext → Type 0
Answers rows id none = JsMap.get id rows ≡ none
Answers rows id (some c) = Shown rows id c

-- A state that is consistent and over the same rows.
abbrev pub Keeps : HappContextStorage → HappContextStorage → Type 0
Keeps s v = IsConsistent v × (v.contexts ≡ s.contexts)

-- A context that the database has is remembered.
pub remember-Keeps :
    (s : HappContextStorage) (id : Text) (row : StorableContext)
    → IsConsistent s
    → JsMap.get id s.contexts ≡ some row
    → Keeps s (Storage.remember (from_storable row) s)
unfolding Storage.remember
remember-Keeps s id row h e =
    let k = row_id row ∙ get-IsKeyed id row s.contexts h.keyed e in
    (
      recached (from_storable row).id s.contexts s.context_cache s.cache_initialized
          (from_storable row) h
          (subst (λ t. Shown s.contexts t (from_storable row)) (sym k)
            (own_Shown id row s.contexts h.keyed e)),
      refl,
    )

cached_Answers :
    (s : HappContextStorage) (id : Text) (o : Option HappContext)
    → IsConsistent s
    → s.cache_initialized ≡ true
    → JsMap.get id s.context_cache ≡ o
    → Answers s.contexts id (Storage.get_cached o id s).0 × Keeps s (Storage.get_cached o id s).1
unfolding Storage.get_cached Storage.found
cached_Answers s id none h l e = let k = h.complete l id e in rw k (k, (h, refl))
cached_Answers s id (some c) h l e = (h.shown id c e, (h, refl))

-- `getContext` answers with what the row of the id shows, or with none if there is no row.
pub get_context-Answers :
    (id : Text) (s : HappContextStorage)
    → IsConsistent s
    → let (o, v) = Storage.get_context id s in Answers s.contexts id o × Keeps s v
unfolding Storage.get_context
get_context-Answers id s h =
    let (k, e, l) = initialize-Loaded s h in
    let v = Storage.initialize_cache s in
    let (a, (q, f)) = cached_Answers v id (JsMap.get id v.context_cache) k l refl in
    (subst (λ t. Answers t id (Storage.get_context id s).0) e a, (q, f ∙ e))

pub list_contexts-Keeps :
    (s : HappContextStorage) → IsConsistent s → Keeps s (Storage.list_contexts s).1
unfolding Storage.list_contexts
list_contexts-Keeps s h = let (k, e, l) = initialize-Loaded s h in (k, e)

pub delete_context-Consistent :
    (id : Text) (s : HappContextStorage)
    → IsConsistent s
    → IsConsistent (Storage.delete_context id s)
unfolding Storage.delete_context
delete_context-Consistent id s h = deleted id s.contexts s.context_cache s.cache_initialized h
