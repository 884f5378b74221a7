-- ===== src/Network/Cache/Ttl.antt =====
-- `TTLCache` of packages/core/src/network/cache.ts. Each operation is given the clock's value, one
-- for each time that it reads the clock.
pub mod Expiry
use holo_web_conductor.Common.{
  ℕ, zero, suc, ◌+◌, Bool, true, false, Option, none, some, List, [], ◌∷◌, Text, if◌then◌else◌, ltb,
  length,
}
use holo_web_conductor.Common.JsMap
use holo_web_conductor.Common.JsMap.{JsMap}
use holo_web_conductor.Network.Cache.Lru.{evict_while}

-- `CacheEntry` of types.ts; `data` is reserved.
pub record CacheEntry {ℓ} (A : Type ℓ) : Type ℓ where
  pub content : A
  pub fetched_at : ℕ
  pub expires_at : ℕ

pub record Ttl {ℓ} (A : Type ℓ) : Type ℓ where
  pub map : JsMap (CacheEntry A)
  pub max_entries : ℕ
  pub ttl : ℕ

module _ {ℓ} {A : Type ℓ} where
  -- `get`: an expired entry is deleted.
  unfoldable pub get : ℕ → Text → Ttl A → Option A × Ttl A
  get now key c = elim (JsMap.get key c.map) [
    | none ↦ (none, c)
    | some entry ↦
        if ltb entry.expires_at now
        then (none, record c { map = JsMap.delete key c.map })
        else (some entry.content, c)
  ]

  drop_expired : ℕ → JsMap (CacheEntry A) → JsMap (CacheEntry A)
  drop_expired now [] = []
  drop_expired now ((key, entry) ∷ m) =
      let rest = drop_expired now m in
      if ltb entry.expires_at now then rest else (key, entry) ∷ rest

  -- `evict`: expired entries first, then the oldest, with a round for each entry.
  unfoldable pub evict : ℕ → Ttl A → Ttl A
  unfolding drop_expired
  evict now c =
      let m = drop_expired now c.map in record c { map = evict_while (length m) c.max_entries m }

  abbrev pub entry_at : ℕ → ℕ → A → CacheEntry A
  entry_at now ttl content = record { content = content; fetched_at = now; expires_at = now + ttl }

  -- `set`
  unfoldable pub set : ℕ → ℕ → Text → A → Ttl A → Ttl A
  unfolding evict
  set now later key content c =
      let c' = record c {
        map = JsMap.set key (entry_at now c.ttl content) (JsMap.delete key c.map);
      } in
      if ltb c.max_entries (length c'.map) then evict later c' else c'

  -- `delete`
  unfoldable pub delete : Text → Ttl A → Ttl A
  delete key c = record c { map = JsMap.delete key c.map }

  -- `clear`
  unfoldable pub clear : Ttl A → Ttl A
  clear c = record c { map = [] }

  -- `size`
  unfoldable pub size : Ttl A → ℕ
  size c = length c.map
