-- ===== src/Extension/Contexts/Storage.antt =====
-- The methods of `HappContextStorage`. One that can be rejected also gives whether it was not.
use holo_web_conductor.Common.{
  ℕ, ◌+◌, ltb, Bool, true, false, Option, none, some, List, [], ◌∷◌, map, Bytes, Text, length,
  if◌then◌else◌,
}
use holo_web_conductor.Common.JsMap
use holo_web_conductor.Common.JsMap.{JsMap}
use holo_web_conductor.Extension.Contexts.{
  HappContext, StorableContext, HappContextStorage, to_storable, from_storable, is_taken,
  find_domain, uint8_array,
}

-- The two caches take a context.
unfoldable pub remember : HappContext → HappContextStorage → HappContextStorage
remember c s = record s {
  context_cache = JsMap.set c.id c s.context_cache;
  domain_to_id = JsMap.set c.domain c.id s.domain_to_id;
}

unfoldable pub load_rows : JsMap StorableContext → HappContextStorage → HappContextStorage
load_rows [] s = s
load_rows ((id, row) ∷ rows) s = load_rows rows (remember (from_storable row) s)

-- `initializeCache`
unfoldable pub initialize_cache : HappContextStorage → HappContextStorage
initialize_cache s =
    if s.cache_initialized then s else record (load_rows s.contexts s) { cache_initialized = true }

-- `putContext`
unfoldable pub put_context : HappContext → HappContextStorage → Bool × HappContextStorage
put_context c s =
    if is_taken c.id c.domain s.contexts
    then (false, s)
    else (true, remember c (record s { contexts = JsMap.set c.id (to_storable c) s.contexts }))

-- A row that was asked for, which the caches then take.
unfoldable pub found :
    Option StorableContext → HappContextStorage → Option HappContext × HappContextStorage
found none s = (none, s)
found (some row) s = (some (from_storable row), remember (from_storable row) s)

unfoldable pub get_cached :
    Option HappContext → Text → HappContextStorage → Option HappContext × HappContextStorage
get_cached (some c) id s = (some c, s)
get_cached none id s = found (JsMap.get id s.contexts) s

-- `getContext`
unfoldable pub get_context : Text → HappContextStorage → Option HappContext × HappContextStorage
get_context id s = let v = initialize_cache s in get_cached (JsMap.get id v.context_cache) id v

-- An empty id is none.
unfoldable pub by_cached_id :
    Option Text → Text → HappContextStorage → Option HappContext × HappContextStorage
by_cached_id none domain s = found (find_domain domain s.contexts) s
by_cached_id (some []) domain s = found (find_domain domain s.contexts) s
by_cached_id (some (c ∷ id)) domain s = (JsMap.get (c ∷ id) s.context_cache, s)

-- `getContextByDomain`
unfoldable pub get_context_by_domain :
    Text → HappContextStorage → Option HappContext × HappContextStorage
get_context_by_domain domain s =
    let v = initialize_cache s in by_cached_id (JsMap.get domain v.domain_to_id) domain v

-- `listContexts`
unfoldable pub list_contexts : HappContextStorage → List HappContext × HappContextStorage
list_contexts s = let v = initialize_cache s in (map (λ e. e.1) v.context_cache, v)

-- An empty domain is not deleted.
unfoldable pub forget_domain : Option HappContext → JsMap Text → JsMap Text
forget_domain none m = m
forget_domain (some c) m = elim c.domain [ [] ↦ m | x ∷ domain ↦ JsMap.delete (x ∷ domain) m ]

-- `deleteContext`
unfoldable pub delete_context : Text → HappContextStorage → HappContextStorage
delete_context id s = record s {
  contexts = JsMap.delete id s.contexts;
  context_cache = JsMap.delete id s.context_cache;
  domain_to_id = forget_domain (JsMap.get id s.context_cache) s.domain_to_id;
}

-- The row gets its time, if it is there.
unfoldable pub stamp_row :
    Option StorableContext → Text → (now : ℕ) → HappContextStorage → Bool × HappContextStorage
stamp_row none id now s = (true, s)
stamp_row (some row) id now s = if is_taken row.id row.domain s.contexts then (false, s) else (
  true,
  record s { contexts = JsMap.set row.id (record row { last_used = now }) s.contexts },
)

-- The row is not written again within a minute.
unfoldable pub stamp_later :
    (previous : ℕ) → Text → (now : ℕ) → HappContextStorage → Bool × HappContextStorage
stamp_later previous id now s =
    if ltb now (previous + 60000) then (true, s) else stamp_row (JsMap.get id s.contexts) id now s

unfoldable pub use_cached :
    Option HappContext → Text → (now : ℕ) → HappContextStorage → Bool × HappContextStorage
use_cached none id now s = stamp_later 0 id now s
use_cached (some c) id now s =
    stamp_later c.last_used id now
      (record s { context_cache = JsMap.set id (record c { last_used = now }) s.context_cache })

-- `updateLastUsed`
unfoldable pub update_last_used : Text → (now : ℕ) → HappContextStorage → Bool × HappContextStorage
update_last_used id now s = use_cached (JsMap.get id s.context_cache) id now s

-- `putDnaWasm`
unfoldable pub put_dna_wasm : Bytes → Bytes → (now : ℕ) → HappContextStorage → HappContextStorage
put_dna_wasm hash wasm now s = record s {
  dna_wasm =
      JsMap.set hash (record { hash = hash; wasm = wasm; size = length wasm; stored_at = now })
        s.dna_wasm;
}

-- `getDnaWasm`
unfoldable pub get_dna_wasm : Bytes → HappContextStorage → Option Bytes
get_dna_wasm hash s = elim (JsMap.get hash s.dna_wasm) [
  | none ↦ none
  | some entry ↦ some (uint8_array entry.wasm)
]

-- `deleteDnaWasm`
unfoldable pub delete_dna_wasm : Bytes → HappContextStorage → HappContextStorage
delete_dna_wasm hash s = record s { dna_wasm = JsMap.delete hash s.dna_wasm }

-- `clear`
unfoldable pub clear : HappContextStorage → HappContextStorage
clear s = record {
  contexts = [];
  dna_wasm = [];
  context_cache = [];
  domain_to_id = [];
  cache_initialized = false;
}

-- A new object over the database, as after a restart of the browser.
unfoldable pub restart : HappContextStorage → HappContextStorage
restart s = record s { context_cache = []; domain_to_id = []; cache_initialized = false }
