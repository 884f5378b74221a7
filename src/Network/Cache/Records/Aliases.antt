-- ===== src/Network/Cache/Records/Aliases.antt =====
-- The aliases of the record cache, and its well-formedness.
use holo_web_conductor.Common.{
  ℕ, zero, suc, ◌≡◌, true, [], ◌∷◌, Text, arith, All, length, ltb, Bool-cases, inl, inr, seq_eq,
  seq_eq_iff, Option-cases, is_some,
}
use holo_web_conductor.Common.JsMap
use holo_web_conductor.Common.JsMap.{JsMap}
use holo_web_conductor.Network.Cache.Records.{
  RecordCache, canonical, drop_aliases, get, evict_key, evict_first, evict_while, put_last, set,
  set_alias, delete,
}

-- Every alias leads to a key of the map.
abbrev pub Lead {ℓ} : {V : Type ℓ} → JsMap Text → JsMap V → Type 0
Lead aliases m = All (λ e. is_some (JsMap.get e.1 m) ≡ true) aliases

-- Keys are distinct, aliases too, and no alias dangles.
pub record IsCache {ℓ} {V : Type ℓ} (c : RecordCache V) : Type 0 where
  pub distinct : JsMap.Distinct c.map
  pub distinct_aliases : JsMap.Distinct c.alias_map
  pub leads : Lead c.alias_map c.map

drop_aliases-Fresh :
    (key alias : Text) (m : JsMap Text)
    → JsMap.Fresh alias m
    → JsMap.Fresh alias (drop_aliases key m)
unfolding drop_aliases
drop_aliases-Fresh key alias [] f = tt
drop_aliases-Fresh key alias ((a, t) ∷ m) f = ground (arith, drop_aliases-Fresh key alias m f.1)

drop_aliases-Distinct :
    (key : Text) (m : JsMap Text) → JsMap.Distinct m → JsMap.Distinct (drop_aliases key m)
unfolding drop_aliases
drop_aliases-Distinct key [] d = tt
drop_aliases-Distinct key ((a, t) ∷ m) d =
    ground (arith, drop_aliases-Distinct key m d.1, drop_aliases-Fresh key a m d.0)

module _ {ℓ} {V : Type ℓ} where
  Lead-evict :
      (key : Text) (aliases : JsMap Text) (m : JsMap V)
      → Lead aliases m
      → Lead (drop_aliases key aliases) (JsMap.delete key m)
  unfolding drop_aliases
  Lead-evict key [] m h = tt
  Lead-evict key ((a, t) ∷ as_) m h = ground (
    arith,
    Lead-evict key as_ m h.1,
    JsMap.get-delete key t m,
    seq_eq_iff key t,
    seq_eq_iff t key,
  )

  -- A key that is written again, at the end, keeps its aliases.
  Lead-rewrite :
      (key : Text) (value : V) (aliases : JsMap Text) (m : JsMap V)
      → Lead aliases m
      → Lead aliases (JsMap.set key value (JsMap.delete key m))
  Lead-rewrite key value [] m h = tt
  Lead-rewrite key value ((a, t) ∷ as_) m h = (
    ground (arith, h.0, JsMap.get-set key t value (JsMap.delete key m), JsMap.get-delete key t m),
    Lead-rewrite key value as_ m h.1,
  )

  Lead-write :
      (key : Text) (value : V) (aliases : JsMap Text) (m : JsMap V)
      → Lead aliases m
      → Lead aliases (JsMap.set key value m)
  Lead-write key value [] m h = tt
  Lead-write key value ((a, t) ∷ as_) m h =
      (ground (arith, h.0, JsMap.get-set key t value m), Lead-write key value as_ m h.1)

  Lead-alias :
      (alias target : Text) (aliases : JsMap Text) (m : JsMap V)
      → is_some (JsMap.get target m) ≡ true
      → Lead aliases m
      → Lead (JsMap.set alias target aliases) m
  unfolding JsMap.set
  Lead-alias alias target [] m p h = (p, tt)
  Lead-alias alias target ((a, t) ∷ as_) m p h =
      ground (arith, p, Lead-alias alias target as_ m p h.1)

  pub evict_key-IsCache : (key : Text) (c : RecordCache V) → IsCache c → IsCache (evict_key key c)
  unfolding evict_key
  evict_key-IsCache key c v = record {
    distinct = JsMap.delete-Distinct key c.map v.distinct;
    distinct_aliases = drop_aliases-Distinct key c.alias_map v.distinct_aliases;
    leads = Lead-evict key c.alias_map c.map v.leads;
  }

  evict_first-IsCache : (m : JsMap V) (c : RecordCache V) → IsCache c → IsCache (evict_first m c)
  unfolding evict_first
  evict_first-IsCache [] c v = v
  evict_first-IsCache ((k, w) ∷ m) c v = evict_key-IsCache k c v

  evict_while-IsCache : (fuel : ℕ) (c : RecordCache V) → IsCache c → IsCache (evict_while fuel c)
  unfolding evict_while
  evict_while-IsCache zero c v = v
  evict_while-IsCache (suc fuel) c v = elim (Bool-cases (ltb c.max_entries (length c.map))) [
    | inl over ↦ rw over (evict_while-IsCache fuel _ (evict_first-IsCache c.map c v))
    | inr within ↦ rw within v
  ]

  put_last-IsCache :
      (key : Text) (value : V) (c : RecordCache V) → IsCache c → IsCache (put_last key value c)
  unfolding put_last
  put_last-IsCache key value c v = elim (Bool-cases (JsMap.has key c.map)) [
    | inl old ↦ rw old (record {
      distinct = JsMap.set-Distinct key value _ (JsMap.delete-Distinct key c.map v.distinct);
      distinct_aliases = v.distinct_aliases;
      leads = Lead-rewrite key value c.alias_map c.map v.leads;
    })
    | inr new ↦ rw new (record {
      distinct = JsMap.set-Distinct key value c.map v.distinct;
      distinct_aliases = v.distinct_aliases;
      leads = Lead-write key value c.alias_map c.map v.leads;
    })
  ]

  pub set-IsCache :
      (key : Text) (value : V) (c : RecordCache V) → IsCache c → IsCache (set key value c)
  unfolding set
  set-IsCache key value c v = evict_while-IsCache _ _ (put_last-IsCache key value c v)

  pub get-IsCache : (key : Text) (c : RecordCache V) → IsCache c → IsCache (get key c).1
  unfolding get
  get-IsCache key c v =
      let k = canonical key c.alias_map in
      elim (Option-cases (JsMap.get k c.map)) [
        | inl e ↦ rw (e, get) v
        | inr (value, e) ↦
            rw (e, get)
              (record {
                distinct = JsMap.set-Distinct k value _ (JsMap.delete-Distinct k c.map v.distinct);
                distinct_aliases = v.distinct_aliases;
                leads = Lead-rewrite k value c.alias_map c.map v.leads;
              })
      ]

  pub delete-IsCache : (key : Text) (c : RecordCache V) → IsCache c → IsCache (delete key c)
  unfolding delete
  delete-IsCache key c v = evict_key-IsCache (canonical key c.alias_map) c v

  pub set_alias-IsCache :
      (alias target : Text) (c : RecordCache V)
      → is_some (JsMap.get target c.map) ≡ true
      → IsCache c
      → IsCache (set_alias alias target c)
  unfolding set_alias
  set_alias-IsCache alias target c p v = elim (Bool-cases (seq_eq alias target)) [
    | inl same ↦ rw same v
    | inr other ↦ rw other (record {
      distinct = v.distinct;
      distinct_aliases = JsMap.set-Distinct alias target c.alias_map v.distinct_aliases;
      leads = Lead-alias alias target c.alias_map c.map p v.leads;
    })
  ]
