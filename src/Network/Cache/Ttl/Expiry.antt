-- ===== src/Network/Cache/Ttl/Expiry.antt =====
-- When entries expire, and the size of the cache.
use holo_web_conductor.Common.{
  ℕ, ◌+◌, ◌-◌, ◌≤◌, ◌<◌, ◌≡◌, none, some, [], ◌∷◌, ◌++◌, Text, arith, if◌then◌else◌, length,
  length-drop, length-append, ltb, ltb→ge, Bool-cases, inl, inr, seq_eq_refl,
}
use holo_web_conductor.Common.JsMap
use holo_web_conductor.Common.JsMap.{JsMap}
use holo_web_conductor.Network.Cache.Lru.Eviction.{evict_while-drop, get-drop_last}
use holo_web_conductor.Network.Cache.Ttl.{CacheEntry, Ttl, entry_at, get, drop_expired, set}

module _ {ℓ} {A : Type ℓ} where
  drop_expired-Fresh :
      (now : ℕ) (key : Text) (m : JsMap (CacheEntry A))
      → JsMap.Fresh key m
      → JsMap.Fresh key (drop_expired now m)
  unfolding drop_expired
  drop_expired-Fresh now key [] f = tt
  drop_expired-Fresh now key ((k, e) ∷ m) f = ground (arith, drop_expired-Fresh now key m f.1)

  drop_expired-Distinct :
      (now : ℕ) (m : JsMap (CacheEntry A)) → JsMap.Distinct m → JsMap.Distinct (drop_expired now m)
  unfolding drop_expired
  drop_expired-Distinct now [] d = tt
  drop_expired-Distinct now ((k, e) ∷ m) d =
      ground (arith, drop_expired-Distinct now m d.1, drop_expired-Fresh now k m d.0)

  drop_expired-last :
      (now : ℕ) (key : Text) (entry : CacheEntry A) (m : JsMap (CacheEntry A))
      → now ≤ entry.expires_at
      → drop_expired now (m ++ (key, entry) ∷ []) ≡ drop_expired now m ++ (key, entry) ∷ []
  unfolding drop_expired
  drop_expired-last now key entry [] h = ground arith
  drop_expired-last now key entry ((k, e) ∷ m) h =
      ground (arith, drop_expired-last now key entry m h)

  -- A write leaves the cache within its limit.
  pub set-bounded :
      (now later : ℕ) (key : Text) (content : A) (c : Ttl A)
      → JsMap.Distinct c.map
      → length (set now later key content c).map ≤ c.max_entries
  unfolding set
  set-bounded now later key content c d =
      let entry = entry_at now c.ttl content in
      let m = JsMap.set key entry (JsMap.delete key c.map) in
      let distinct =
        drop_expired-Distinct later m
          (JsMap.set-Distinct key entry _ (JsMap.delete-Distinct key c.map d)) in
      let kept = drop_expired later m in
      elim (Bool-cases (ltb c.max_entries (length m))) [
        | inl over ↦ rw over (
            rw (evict_while-drop (length kept) c.max_entries kept distinct (omega arith))
              (omega (arith, length-drop (length kept - c.max_entries) kept)))
        | inr within ↦ rw within (ltb→ge _ _ within)
      ]

  -- An entry that the map has lasts until it expires, and no read gives an expired one: that is
  -- deleted.
  pub get_lem :
      (now : ℕ) (key : Text) (entry : CacheEntry A) (c : Ttl A)
      → JsMap.get key c.map ≡ some entry
      → (now ≤ entry.expires_at → get now key c ≡ (some entry.content, c))
        × (entry.expires_at < now
            → ((get now key c).0 ≡ none) × (JsMap.get key (get now key c).1.map ≡ none))
  unfolding get
  get_lem now key entry c e = (
    λ h. ground arith,
    λ h. (ground arith, ground (arith, JsMap.get-delete key key c.map, seq_eq_refl key)),
  )

  -- Unless the clock passes the time to live within the write itself, the entry is there.
  set-present :
      (now later : ℕ) (key : Text) (content : A) (c : Ttl A)
      → JsMap.Distinct c.map
      → 1 ≤ c.max_entries
      → later ≤ now + c.ttl
      → JsMap.get key (set now later key content c).map ≡ some (entry_at now c.ttl content)
  unfolding set
  set-present now later key content c d room fresh =
      let entry = entry_at now c.ttl content in
      let old = JsMap.delete key c.map in
      let m = JsMap.set key entry old in
      let distinct =
        drop_expired-Distinct later m
          (JsMap.set-Distinct key entry old (JsMap.delete-Distinct key c.map d)) in
      let kept = drop_expired later m in
      let last : kept ≡ drop_expired later old ++ (key, entry) ∷ [] =
        rw (JsMap.set-delete key entry c.map) (drop_expired-last later key entry old fresh) in
      elim (Bool-cases (ltb c.max_entries (length m))) [
        | inl over ↦ rw over (
            rw (evict_while-drop (length kept) c.max_entries kept distinct (omega arith)) (
              rw last (
                get-drop_last (length (drop_expired later old ++ (key, entry) ∷ []) - c.max_entries)
                  key entry (drop_expired later old)
                  (omega (arith, length-append (drop_expired later old) ((key, entry) ∷ [])))
                  (drop_expired-Fresh later key old (JsMap.delete-Fresh key c.map)))))
        | inr within ↦ rw within (ground (arith, JsMap.get-set key key entry old, seq_eq_refl key))
      ]

  -- What is written is read back for `ttl` from the time of the write, and not after it, where
  -- the cache has room for an entry and the clock does not pass that time within the write.
  pub ttl_get-set :
      (now later read : ℕ) (key : Text) (content : A) (c : Ttl A)
      → JsMap.Distinct c.map
      → 1 ≤ c.max_entries
      → later ≤ now + c.ttl
      → (get read key (set now later key content c)).0
        ≡ (if ltb (now + c.ttl) read then none else some content)
  unfolding get
  ttl_get-set now later read key content c d room fresh =
      rw (set-present now later key content c d room fresh, get) (ground arith)
