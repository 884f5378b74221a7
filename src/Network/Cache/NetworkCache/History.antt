-- ===== src/Network/Cache/NetworkCache/History.antt =====
-- The record cache over any sequence of calls.
use holo_web_conductor.Common.{
  ℕ, ◌≤◌, ◌≡◌, refl, ◌∙◌, ap, Option, none, some, List, [], ◌∷◌, Bytes, Text, arith, length, inl,
  inr, Option-cases,
}
use holo_web_conductor.Common.JsMap
use holo_web_conductor.Network.Types.{NetworkRecord}
use holo_web_conductor.Network.Cache.Records
use holo_web_conductor.Network.Cache.Records.{RecordCache, canonical}
use holo_web_conductor.Network.Cache.Records.Aliases.{IsCache, get-IsCache, delete-IsCache}
use holo_web_conductor.Network.Cache.Records.Newest.{set-bounded, set-max}
use holo_web_conductor.Network.Cache.NetworkCache.{
  alias_other, cache_record, non_empty, entry_hash_of,
}
use holo_web_conductor.Network.Cache.NetworkCache.Dual.{cache_record-IsCache}

-- The calls of `NetworkCache` on its records.
pub data RecordCall : Type 0 where
  look_up : Bytes → RecordCall
  store : Bytes → NetworkRecord → RecordCall
  invalidate : Bytes → RecordCall
  clear_all : RecordCall

-- Well-formed, and within the limit `max`.
pub record IsSound (max : ℕ) (c : RecordCache NetworkRecord) : Type 0 where
  pub shape : IsCache c
  pub limit : c.max_entries ≡ max
  pub bounded : length c.map ≤ max

module _ (encode : Bytes → Text) where
  unfoldable pub step : RecordCall → RecordCache NetworkRecord → RecordCache NetworkRecord
  step (look_up hash) c = (Records.get (encode hash) c).1
  step (store hash r) c = cache_record encode hash r c
  step (invalidate hash) c = Records.delete (encode hash) c
  step clear_all c = Records.clear c

  unfoldable pub run : List RecordCall → RecordCache NetworkRecord → RecordCache NetworkRecord
  unfolding step
  run [] c = c
  run (call ∷ calls) c = run calls (step call c)

  alias_other-same :
      (key : Text) (action entry : Option Bytes) (c : RecordCache NetworkRecord)
      → let c' = alias_other encode key action entry c in
        (c'.map ≡ c.map) × (c'.max_entries ≡ c.max_entries)
  unfolding alias_other Records.set_alias
  alias_other-same key none entry c = (refl, refl)
  alias_other-same key (some a) none c = (refl, refl)
  alias_other-same key (some a) (some e) c = ground arith

  store-IsSound :
      (max : ℕ) (hash : Bytes) (r : NetworkRecord) (c : RecordCache NetworkRecord)
      → 1 ≤ max
      → IsSound max c
      → IsSound max (cache_record encode hash r c)
  store-IsSound max hash r c room v =
      let c' = Records.set (encode hash) r c in
      let (same, same_max) =
        alias_other-same (encode hash) (non_empty r.hash) (non_empty (entry_hash_of r)) c' in
      record {
        shape = cache_record-IsCache encode hash r c (omega (arith, v.limit)) v.shape;
        limit = unfold cache_record in (same_max ∙ set-max (encode hash) r c ∙ v.limit);
        bounded =
            unfold cache_record in
            (omega
              (arith, ap length same, set-bounded (encode hash) r c v.shape.distinct, v.limit));
      }

  look_up-IsSound :
      (max : ℕ) (key : Text) (c : RecordCache NetworkRecord)
      → IsSound max c
      → IsSound max (Records.get key c).1
  unfolding Records.get
  look_up-IsSound max key c v =
      let k = canonical key c.alias_map in
      let shape = get-IsCache key c v.shape in
      elim (Option-cases (JsMap.get k c.map)) [
        | inl e ↦ rw (e, Records.get) v
        | inr (value, e) ↦
            let found : length (JsMap.set k value (JsMap.delete k c.map)) ≤ length c.map = omega (
              arith,
              JsMap.length-set-le k value (JsMap.delete k c.map),
              JsMap.length-delete-lt k c.map e,
            ) in
            rw (e, Records.get)
              (record {
                shape = rw (e, Records.get) at shape;
                limit = v.limit;
                bounded = omega (arith, found, v.bounded);
              })
      ]

  delete-IsSound :
      (max : ℕ) (key : Text) (c : RecordCache NetworkRecord)
      → IsSound max c
      → IsSound max (Records.delete key c)
  delete-IsSound max key c v = record {
    shape = delete-IsCache key c v.shape;
    limit = unfold Records.delete in v.limit;
    bounded =
        unfold Records.delete in
        (omega (arith, JsMap.length-delete-le (canonical key c.alias_map) c.map, v.bounded));
  }

  pub step-IsSound :
      (max : ℕ) (call : RecordCall) (c : RecordCache NetworkRecord)
      → 1 ≤ max
      → IsSound max c
      → IsSound max (step call c)
  unfolding step
  step-IsSound max (look_up hash) c room v = look_up-IsSound max (encode hash) c v
  step-IsSound max (store hash r) c room v = store-IsSound max hash r c room v
  step-IsSound max (invalidate hash) c room v = delete-IsSound max (encode hash) c v
  step-IsSound max clear_all c room v =
      unfold Records.clear in
      record {
        shape = record { distinct = tt; distinct_aliases = tt; leads = tt };
        limit = v.limit;
        bounded = omega arith;
      }

  -- After any calls on a cache with room for at least one record: no key and no alias stands
  -- twice, every alias leads to a record that is there, and there are no more records than the
  -- limit.
  pub run-IsSound :
      (max : ℕ) (calls : List RecordCall) (c : RecordCache NetworkRecord)
      → 1 ≤ max
      → IsSound max c
      → IsSound max (run calls c)
  unfolding run
  run-IsSound max [] c room v = v
  run-IsSound max (call ∷ calls) c room v =
      run-IsSound max calls (step call c) room (step-IsSound max call c room v)
