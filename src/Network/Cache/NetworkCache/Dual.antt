-- ===== src/Network/Cache/NetworkCache/Dual.antt =====
-- Finding a record by either of its hashes.
use holo_web_conductor.Common.{
  ◌≤◌, ◌≡◌, ◌≢◌, ◌⊎◌, inl, inr, refl, sym, true, false, not, ◌&&◌, Option, none, some, Bytes, Text,
  arith, Bool-cases, seq_eq, seq_eq_iff, seq_eq_refl, is_some, subst,
}
use holo_web_conductor.Common.JsMap
use holo_web_conductor.Common.JsMap.{JsMap}
use holo_web_conductor.Network.Types.{NetworkRecord}
use holo_web_conductor.Network.Cache.Records
use holo_web_conductor.Network.Cache.Records.{RecordCache, canonical, drop_aliases, evict_while}
use holo_web_conductor.Network.Cache.Records.Aliases.{IsCache, set-IsCache, set_alias-IsCache}
use holo_web_conductor.Network.Cache.Records.Newest.{set-present, set-no_alias}
use holo_web_conductor.Network.Cache.NetworkCache.{
  entry_hash_of, non_empty, alias_other, cache_record,
}

-- The hashes of the action and of the entry of a record, neither of them empty.
abbrev pub HasHashes : NetworkRecord → Bytes → Bytes → Type 0
HasHashes r action entry =
    (non_empty r.hash ≡ some action) × (non_empty (entry_hash_of r) ≡ some entry)

-- Under its key, and by an alias from another, a record that was just written is found.
found_by_both :
    {V : Type 0} (key other : Text) (value : V) (c : RecordCache V)
    → IsCache c
    → 1 ≤ c.max_entries
    → key ≢ other
    → JsMap.get key c.alias_map ≡ none
    → let c' = Records.set_alias other key (Records.set key value c) in
      ((Records.get key c').0 ≡ some value) × ((Records.get other c').0 ≡ some value)
unfolding Records.set_alias Records.get canonical
found_by_both key other value c v room ne free =
    let c' = Records.set key value c in
    let present = set-present key value c v.distinct room in
    let no_alias = set-no_alias key value c key free in
    let different : seq_eq other key ≡ false =
      ground (arith, seq_eq_iff other key, λ (e : other ≡ key). ne (sym e)) in
    let own : JsMap.get key (JsMap.set other key c'.alias_map) ≡ none =
      ground (arith, JsMap.get-set other key key c'.alias_map, different, no_alias) in
    let by_alias : JsMap.get other (JsMap.set other key c'.alias_map) ≡ some key =
      ground (arith, JsMap.get-set other other key c'.alias_map, seq_eq_refl other) in
    rw different (ground (arith, own, present), ground (arith, by_alias, present))

module _ (encode : Bytes → Text) where
  -- After a record is cached under one of its two hashes it is found by both: the cache has room,
  -- the texts of the hashes differ, and the text of the hash that was used is no alias yet.
  pub cache_record-both :
      (hash action entry : Bytes) (r : NetworkRecord) (c : RecordCache NetworkRecord)
      → IsCache c
      → 1 ≤ c.max_entries
      → HasHashes r action entry
      → (hash ≡ action) ⊎ (hash ≡ entry)
      → encode action ≢ encode entry
      → JsMap.get (encode hash) c.alias_map ≡ none
      → let c' = cache_record encode hash r c in
        ((Records.get (encode action) c').0 ≡ some r) × ((Records.get (encode entry) c').0 ≡ some r)
  unfolding cache_record alias_other
  cache_record-both hash action entry r c v room (ha, he) (inl e) ne free =
      let differ : seq_eq (encode entry) (encode action) ≡ false = ground (
        arith,
        seq_eq_iff (encode entry) (encode action),
        λ (q : encode entry ≡ encode action). ne (sym q),
      ) in
      let free' : JsMap.get (encode action) c.alias_map ≡ none = rw (← e) free in
      let both = found_by_both (encode action) (encode entry) r c v room ne free' in
      rw (e, ha, he) (rw (seq_eq_refl (encode action), differ) both)
  cache_record-both hash action entry r c v room (ha, he) (inr e) ne free =
      let differ : seq_eq (encode entry) (encode action) ≡ false = ground (
        arith,
        seq_eq_iff (encode entry) (encode action),
        λ (q : encode entry ≡ encode action). ne (sym q),
      ) in
      let differ' : seq_eq (encode action) (encode entry) ≡ false =
        ground (arith, seq_eq_iff (encode action) (encode entry), ne) in
      let free' : JsMap.get (encode entry) c.alias_map ≡ none = rw (← e) free in
      let both = found_by_both (encode entry) (encode action) r c v room (λ q. ne (sym q)) free' in
      rw (e, ha, he) (rw (differ, seq_eq_refl (encode entry), differ') (both.1, both.0))

  alias_other-IsCache :
      (key : Text) (action entry : Option Bytes) (c : RecordCache NetworkRecord)
      → is_some (JsMap.get key c.map) ≡ true
      → IsCache c
      → IsCache (alias_other encode key action entry c)
  unfolding alias_other
  alias_other-IsCache key none entry c p v = v
  alias_other-IsCache key (some a) none c p v = v
  alias_other-IsCache key (some a) (some e) c p v =
      elim (Bool-cases (seq_eq key (encode a) && not (seq_eq (encode e) (encode a)))) [
        | inl by_action ↦
            let same : key ≡ encode a = ground (arith, seq_eq_iff key (encode a)) in
            rw by_action (
              set_alias-IsCache (encode e) (encode a) c
                (subst (λ k. is_some (JsMap.get k c.map) ≡ true) same p) v)
        | inr not_action ↦
            elim (Bool-cases (seq_eq key (encode e) && not (seq_eq (encode a) (encode e)))) [
              | inl by_entry ↦
                  let same : key ≡ encode e = ground (arith, seq_eq_iff key (encode e)) in
                  rw (not_action, by_entry)
                    (set_alias-IsCache (encode a) (encode e) c
                      (subst (λ k. is_some (JsMap.get k c.map) ≡ true) same p) v)
              | inr neither ↦ rw (not_action, neither) v
            ]
      ]

  -- Caching a record keeps the cache well-formed: keys and aliases are distinct and no alias leads
  -- to a key that is gone, where the cache has room for a record.
  pub cache_record-IsCache :
      (hash : Bytes) (r : NetworkRecord) (c : RecordCache NetworkRecord)
      → 1 ≤ c.max_entries
      → IsCache c
      → IsCache (cache_record encode hash r c)
  unfolding cache_record
  cache_record-IsCache hash r c room v =
      alias_other-IsCache (encode hash) (non_empty r.hash) (non_empty (entry_hash_of r))
        (Records.set (encode hash) r c) (rw (set-present (encode hash) r c v.distinct room) refl)
        (set-IsCache (encode hash) r c v)
