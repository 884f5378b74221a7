-- ===== src/Network/Cache/Records/Newest.antt =====
-- Which entries the record cache keeps.
use holo_web_conductor.Common.{
  ℕ, zero, suc, ◌-◌, ◌≤◌, ◌≡◌, refl, ◌∙◌, ap, none, some, [], ◌∷◌, ◌++◌, Text, arith, length,
  length-append, drop, length-drop, ltb, Bool-cases, inl, inr,
}
use holo_web_conductor.Common.JsMap
use holo_web_conductor.Common.JsMap.{JsMap}
use holo_web_conductor.Network.Cache.Lru
use holo_web_conductor.Network.Cache.Lru.Eviction.{evict_while-drop, get-drop_last}
use holo_web_conductor.Network.Cache.Records.{
  RecordCache, drop_aliases, evict_key, evict_first, evict_while, put_last, set,
}

drop_aliases-none :
    (key j : Text) (m : JsMap Text) → JsMap.get j m ≡ none → JsMap.get j (drop_aliases key m) ≡ none
unfolding drop_aliases JsMap.get
drop_aliases-none key j [] e = refl
drop_aliases-none key j ((a, t) ∷ m) e = ground (arith, drop_aliases-none key j m)

module _ {ℓ} {V : Type ℓ} where
  evict_first-map :
      (m : JsMap V) (c : RecordCache V) → c.map ≡ m → (evict_first m c).map ≡ Lru.evict_oldest m
  unfolding evict_first evict_key Lru.evict_oldest
  evict_first-map [] c e = e
  evict_first-map ((k, v) ∷ m) c e = ap (JsMap.delete k) e

  evict_first-max :
      (m : JsMap V) (c : RecordCache V) → (evict_first m c).max_entries ≡ c.max_entries
  unfolding evict_first evict_key
  evict_first-max [] c = refl
  evict_first-max ((k, v) ∷ m) c = refl

  evict_while-map :
      (fuel : ℕ) (c : RecordCache V)
      → (evict_while fuel c).map ≡ Lru.evict_while fuel c.max_entries c.map
  unfolding evict_while Lru.evict_while
  evict_while-map zero c = refl
  evict_while-map (suc fuel) c = elim (Bool-cases (ltb c.max_entries (length c.map))) [
    | inl over ↦ rw over (
        evict_while-map fuel (evict_first c.map c)
        ∙ rw (evict_first-max c.map c, evict_first-map c.map c refl) refl)
    | inr within ↦ rw within refl
  ]

  -- Whether or not the key is there, its old entry is gone and the new one is last.
  put_last-map :
      (key : Text) (value : V) (c : RecordCache V)
      → (put_last key value c).map ≡ JsMap.delete key c.map ++ (key, value) ∷ []
  unfolding put_last
  put_last-map key value c = elim (Bool-cases (JsMap.has key c.map)) [
    | inl old ↦ rw old (JsMap.set-delete key value c.map)
    | inr new ↦
        let fresh : JsMap.Fresh key c.map =
          JsMap.none-Fresh key c.map (ground (arith, new, JsMap.has-eq key c.map)) in
        rw new
          (JsMap.set_new key value c.map fresh ∙ rw (JsMap.delete_missing key c.map fresh) refl)
  ]

  -- A write puts its key at the end and then drops the oldest entries, just as many as are over
  -- the limit.
  pub records_set-keeps_newest :
      (key : Text) (value : V) (c : RecordCache V)
      → JsMap.Distinct c.map
      → let m = JsMap.delete key c.map ++ (key, value) ∷ [] in
        (set key value c).map ≡ drop (length m - c.max_entries) m
  unfolding set
  records_set-keeps_newest key value c d =
      let m = JsMap.delete key c.map ++ (key, value) ∷ [] in
      let distinct : JsMap.Distinct m =
        rw (← JsMap.set-delete key value c.map)
          (JsMap.set-Distinct key value _ (JsMap.delete-Distinct key c.map d)) in
      evict_while-map (length (put_last key value c).map) (put_last key value c)
      ∙ rw (put_last-map key value c)
          (unfold put_last in evict_while-drop (length m) c.max_entries m distinct (omega arith))

  pub set-bounded :
      (key : Text) (value : V) (c : RecordCache V)
      → JsMap.Distinct c.map
      → length (set key value c).map ≤ c.max_entries
  set-bounded key value c d =
      let m = JsMap.delete key c.map ++ (key, value) ∷ [] in
      rw (records_set-keeps_newest key value c d)
        (omega (arith, length-drop (length m - c.max_entries) m))

  pub set-present :
      (key : Text) (value : V) (c : RecordCache V)
      → JsMap.Distinct c.map
      → 1 ≤ c.max_entries
      → JsMap.get key (set key value c).map ≡ some value
  set-present key value c d room =
      let m = JsMap.delete key c.map in
      rw (records_set-keeps_newest key value c d) (
        get-drop_last (length (m ++ (key, value) ∷ []) - c.max_entries) key value m
          (omega (arith, length-append m ((key, value) ∷ []))) (JsMap.delete-Fresh key c.map))

  evict_first-none :
      (m : JsMap V) (c : RecordCache V) (j : Text)
      → JsMap.get j c.alias_map ≡ none
      → JsMap.get j (evict_first m c).alias_map ≡ none
  unfolding evict_first evict_key
  evict_first-none [] c j e = e
  evict_first-none ((k, v) ∷ m) c j e = drop_aliases-none k j c.alias_map e

  evict_while-none :
      (fuel : ℕ) (c : RecordCache V) (j : Text)
      → JsMap.get j c.alias_map ≡ none
      → JsMap.get j (evict_while fuel c).alias_map ≡ none
  unfolding evict_while
  evict_while-none zero c j e = e
  evict_while-none (suc fuel) c j e = elim (Bool-cases (ltb c.max_entries (length c.map))) [
    | inl over ↦
        rw over (evict_while-none fuel (evict_first c.map c) j (evict_first-none c.map c j e))
    | inr within ↦ rw within e
  ]

  -- A write makes no alias.
  pub set-no_alias :
      (key : Text) (value : V) (c : RecordCache V) (j : Text)
      → JsMap.get j c.alias_map ≡ none
      → JsMap.get j (set key value c).alias_map ≡ none
  unfolding set put_last
  set-no_alias key value c j e =
      evict_while-none (length (put_last key value c).map) (put_last key value c) j e

  evict_while-max :
      (fuel : ℕ) (c : RecordCache V) → (evict_while fuel c).max_entries ≡ c.max_entries
  unfolding evict_while
  evict_while-max zero c = refl
  evict_while-max (suc fuel) c = elim (Bool-cases (ltb c.max_entries (length c.map))) [
    | inl over ↦ rw over (evict_while-max fuel (evict_first c.map c) ∙ evict_first-max c.map c)
    | inr within ↦ rw within refl
  ]

  pub set-max :
      (key : Text) (value : V) (c : RecordCache V) → (set key value c).max_entries ≡ c.max_entries
  unfolding set put_last
  set-max key value c = evict_while-max (length (put_last key value c).map) (put_last key value c)
