-- ===== src/Network/Cache/Lru/Eviction.antt =====
-- Which entries a cache keeps, and how many.
use holo_web_conductor.Common.{
  ℕ, zero, suc, ◌+◌, ◌-◌, ◌≤◌, ◌≡◌, refl, sym, ◌∙◌, ap, none, some, [], ◌∷◌, ◌++◌, Text, arith,
  length, length-append, length-drop, drop, ltb, ltb→lt, ltb→ge, Bool-cases, inl, inr, seq_eq_iff,
  seq_eq_refl,
}
use holo_web_conductor.Common.JsMap
use holo_web_conductor.Common.JsMap.{JsMap}
use holo_web_conductor.Network.Cache.Lru.{Lru, get, set, evict_oldest, evict_while}

module _ {ℓ} {V : Type ℓ} where
  evict_oldest-drop : (m : JsMap V) → JsMap.Distinct m → evict_oldest m ≡ drop 1 m
  unfolding evict_oldest JsMap.delete
  evict_oldest-drop [] d = refl
  evict_oldest-drop ((k, v) ∷ m) d = ground (arith, seq_eq_refl k, JsMap.delete_missing k m d.0)

  drop-Distinct : (m : JsMap V) → JsMap.Distinct m → JsMap.Distinct (drop 1 m)
  drop-Distinct [] d = tt
  drop-Distinct (e ∷ m) d = d.1

  drop-drop_one : (n : ℕ) (m : JsMap V) → drop n (drop 1 m) ≡ drop (suc n) m
  drop-drop_one zero [] = refl
  drop-drop_one (suc n) [] = refl
  drop-drop_one n (e ∷ m) = refl

  -- With a round for each entry over the limit, the loop drops just those, from the front.
  pub evict_while-drop :
      (fuel max : ℕ) (m : JsMap V)
      → JsMap.Distinct m
      → length m ≤ max + fuel
      → evict_while fuel max m ≡ drop (length m - max) m
  unfolding evict_while
  evict_while-drop zero max m d h =
      let none_over : length m - max ≡ 0 = omega arith in rw none_over refl
  evict_while-drop (suc fuel) max m d h = elim (Bool-cases (ltb max (length m))) [
    | inl over ↦
        let shorter : length (drop 1 m) ≡ length m - 1 = length-drop 1 m in
        let more : length m - max ≡ suc (length m - 1 - max) =
          omega (arith, ltb→lt max (length m) over) in
        rw over (
          rw (evict_oldest-drop m d) (
            evict_while-drop fuel max (drop 1 m) (drop-Distinct m d) (omega (arith, shorter))
            ∙ ap (λ n. drop (n - max) (drop 1 m)) shorter
            ∙ drop-drop_one (length m - 1 - max) m
            ∙ ap (λ n. drop n m) (sym more)))
    | inr within ↦
        let none_over : length m - max ≡ 0 = omega (arith, ltb→ge max (length m) within) in
        rw within (rw none_over refl)
  ]

  -- A write puts its key at the end and then drops the oldest entries, just as many as are over
  -- the limit.
  pub set-keeps_newest :
      (key : Text) (value : V) (c : Lru V)
      → JsMap.Distinct c.map
      → let m = JsMap.delete key c.map ++ (key, value) ∷ [] in
        (set key value c).map ≡ drop (length m - c.max_entries) m
  unfolding set
  set-keeps_newest key value c d = rw (JsMap.set-delete key value c.map) (
      evict_while-drop _ c.max_entries _
        (rw (← JsMap.set-delete key value c.map)
          (JsMap.set-Distinct key value _ (JsMap.delete-Distinct key c.map d)))
        (omega arith))

  drop-Distinct_all : (n : ℕ) (m : JsMap V) → JsMap.Distinct m → JsMap.Distinct (drop n m)
  drop-Distinct_all zero m d = d
  drop-Distinct_all (suc n) [] d = tt
  drop-Distinct_all (suc n) (e ∷ m) d = drop-Distinct_all n m d.1

  -- A write leaves the cache within its limit and its keys distinct.
  pub set-bounded :
      (key : Text) (value : V) (c : Lru V)
      → JsMap.Distinct c.map
      → (length (set key value c).map ≤ c.max_entries) × JsMap.Distinct (set key value c).map
  set-bounded key value c d =
      let m = JsMap.delete key c.map ++ (key, value) ∷ [] in
      let newest = set-keeps_newest key value c d in
      let distinct : JsMap.Distinct m =
        rw (← JsMap.set-delete key value c.map)
          (JsMap.set-Distinct key value _ (JsMap.delete-Distinct key c.map d)) in
      (
        rw newest (omega (arith, length-drop (length m - c.max_entries) m)),
        rw newest (drop-Distinct_all (length m - c.max_entries) m distinct),
      )

  pub get-drop_last :
      (n : ℕ) (key : Text) (value : V) (m : JsMap V)
      → n ≤ length m
      → JsMap.Fresh key m
      → JsMap.get key (drop n (m ++ (key, value) ∷ [])) ≡ some value
  unfolding JsMap.get
  get-drop_last zero key value [] h f = ground (arith, seq_eq_refl key)
  get-drop_last (suc n) key value [] h f = absurd (omega arith)
  get-drop_last zero key value ((k, v) ∷ m) h f =
      ground (arith, get-drop_last zero key value m (omega arith) f.1, seq_eq_iff k key)
  get-drop_last (suc n) key value ((k, v) ∷ m) h f = get-drop_last n key value m (omega arith) f.1

  -- What was just written is read back, where the cache has room for an entry at all.
  pub get-set_self :
      (key : Text) (value : V) (c : Lru V)
      → JsMap.Distinct c.map
      → 1 ≤ c.max_entries
      → (get key (set key value c)).0 ≡ some value
  unfolding get
  get-set_self key value c d room =
      let m = JsMap.delete key c.map in
      let found : JsMap.get key (set key value c).map ≡ some value =
        rw (set-keeps_newest key value c d) (
          get-drop_last (length (m ++ (key, value) ∷ []) - c.max_entries) key value m
            (omega (arith, length-append m ((key, value) ∷ []))) (JsMap.delete-Fresh key c.map)) in
      rw (found, get) refl

  -- A read answers as the map does. A hit becomes the newest entry and the other entries keep
  -- their order; a miss changes nothing.
  pub get-moves_to_end :
      (key : Text) (c : Lru V)
      → ((get key c).0 ≡ JsMap.get key c.map)
        × ((value : V)
            → JsMap.get key c.map ≡ some value
            → (get key c).1.map ≡ JsMap.delete key c.map ++ (key, value) ∷ [])
        × (JsMap.get key c.map ≡ none → (get key c).1 ≡ c)
  unfolding get
  get-moves_to_end key c = (
    ground arith,
    λ value e. rw (e, get) (JsMap.set-delete key value c.map),
    λ e. rw (e, get) refl,
  )
