-- ===== src/Network/Cache/Lru.antt =====
-- `LRULinkCache` and `LRULinkDetailsCache` of packages/core/src/network/cache.ts: two classes with
-- the same text over different values.
pub mod Eviction
use holo_web_conductor.Common.{
  ℕ, zero, suc, Bool, true, false, Option, none, some, List, [], ◌∷◌, ◌++◌, Text, if◌then◌else◌,
  ltb, length, seq_eq, starts_with, ◌||◌,
}
use holo_web_conductor.Common.JsMap
use holo_web_conductor.Common.JsMap.{JsMap}

pub record Lru {ℓ} (V : Type ℓ) : Type ℓ where
  pub map : JsMap V
  pub max_entries : ℕ

-- `key === baseKey || key.startsWith(baseKey + ':')`
abbrev pub has_base : Text → Text → Bool
has_base base key = seq_eq key base || starts_with (base ++ b':' ∷ []) key

module _ {ℓ} {V : Type ℓ} where
  -- `get`: a hit moves its key to the end.
  unfoldable pub get : Text → Lru V → Option V × Lru V
  get key c = elim (JsMap.get key c.map) [
    | none ↦ (none, c)
    | some value ↦ (some value, record c { map = JsMap.set key value (JsMap.delete key c.map) })
  ]

  -- One round of the eviction: the first key of the map is deleted, if there is one.
  unfoldable pub evict_oldest : JsMap V → JsMap V
  evict_oldest [] = []
  evict_oldest ((oldest, v) ∷ m) = JsMap.delete oldest ((oldest, v) ∷ m)

  -- The `while` loop of `set`, with fuel.
  unfoldable pub evict_while : ℕ → ℕ → JsMap V → JsMap V
  unfolding evict_oldest
  evict_while zero max m = m
  evict_while (suc fuel) max m =
      let next = evict_while fuel max (evict_oldest m) in if ltb max (length m) then next else m

  -- `set`; a round for each entry is enough.
  unfoldable pub set : Text → V → Lru V → Lru V
  unfolding evict_while
  set key value c =
      let m = JsMap.set key value (JsMap.delete key c.map) in
      record c { map = evict_while (length m) c.max_entries m }

  -- `delete`
  unfoldable pub delete : Text → Lru V → Lru V
  delete key c = record c { map = JsMap.delete key c.map }

  unfoldable pub delete_matching : Text → JsMap V → JsMap V
  delete_matching base [] = []
  delete_matching base ((key, v) ∷ m) =
      let rest = delete_matching base m in if has_base base key then rest else (key, v) ∷ rest

  -- `deleteByPrefix`; a key that the loop deletes is the one that it stands at.
  unfoldable pub delete_by_prefix : Text → Lru V → Lru V
  unfolding delete_matching
  delete_by_prefix base c = record c { map = delete_matching base c.map }

  -- `clear`
  unfoldable pub clear : Lru V → Lru V
  clear c = record c { map = [] }

  -- `size`
  unfoldable pub size : Lru V → ℕ
  size c = length c.map
