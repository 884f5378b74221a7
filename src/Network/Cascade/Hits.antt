-- ===== src/Network/Cascade/Hits.antt =====
-- What the record cache serves after a hit and after a write
-- (packages/core/src/network/cache.ts), for the cascade.
use holo_web_conductor.Common.{
  ◌≡◌, ◌≢◌, ◌≤◌, refl, sym, ◌∙◌, ap, true, false, Option, none, some, [], ◌∷◌, Bytes, Text, arith,
  seq_eq, seq_eq_iff, seq_eq_refl, Bool-cases, inl, inr, Option-cases, is_some, not, ◌&&◌,
}
use holo_web_conductor.Common.JsMap
use holo_web_conductor.Common.JsMap.{JsMap}
use holo_web_conductor.Network.Types.{NetworkRecord}
use holo_web_conductor.Network.Cache.Records
use holo_web_conductor.Network.Cache.Records.{RecordCache, canonical}
use holo_web_conductor.Network.Cache.Records.Aliases.{IsCache, Lead}
use holo_web_conductor.Network.Cache.Records.Newest.{set-present, set-no_alias}
use holo_web_conductor.Network.Cache.NetworkCache.{
  cache_record, alias_other, non_empty, entry_hash_of,
}
use holo_web_conductor.Network.Cascade.Sources.{}
use holo_web_conductor.Network.Cascade.Fetch.{}

-- The record is in the map under its own key, which is no alias.
abbrev Stored : Text → NetworkRecord → RecordCache NetworkRecord → Type 0
Stored key r c = (JsMap.get key c.map ≡ some r) × (JsMap.get key c.alias_map ≡ none)

Stored-get :
    (key : Text) (r : NetworkRecord) (c : RecordCache NetworkRecord)
    → Stored key r c
    → (Records.get key c).0 ≡ some r
unfolding Records.get canonical
Stored-get key r c (h, n) = ground (arith, h, n)

not_none : (r : NetworkRecord) → some r ≢ none
not_none r e = cc

-- The key after a hit: it is at the end.
moved : Text → NetworkRecord → RecordCache NetworkRecord → RecordCache NetworkRecord
moved k r c = record c { map = JsMap.set k r (JsMap.delete k c.map) }

get_hit :
    (key : Text) (r : NetworkRecord) (c : RecordCache NetworkRecord)
    → JsMap.get (canonical key c.alias_map) c.map ≡ some r
    → Records.get key c ≡ (some r, moved (canonical key c.alias_map) r c)
unfolding Records.get moved
get_hit key r c e = rw (e, Records.get) refl

get_miss :
    (key : Text) (c : RecordCache NetworkRecord)
    → JsMap.get (canonical key c.alias_map) c.map ≡ none
    → Records.get key c ≡ (none, c)
unfolding Records.get
get_miss key c e = rw (e, Records.get) refl

moved-get :
    (key : Text) (r : NetworkRecord) (c : RecordCache NetworkRecord)
    → (Records.get key (moved (canonical key c.alias_map) r c)).0 ≡ some r
unfolding moved
moved-get key r c =
    let k = canonical key c.alias_map in
    let present : JsMap.get k (JsMap.set k r (JsMap.delete k c.map)) ≡ some r =
      ground (arith, JsMap.get-set k k r (JsMap.delete k c.map), seq_eq_refl k) in
    ap (λ x. x.0) (get_hit key r (record c { map = JsMap.set k r (JsMap.delete k c.map) }) present)

-- What was read is read again.
pub get-get :
    (key : Text) (r : NetworkRecord) (c : RecordCache NetworkRecord)
    → (Records.get key c).0 ≡ some r
    → (Records.get key (Records.get key c).1).0 ≡ some r
get-get key r c h = elim (Option-cases (JsMap.get (canonical key c.alias_map) c.map)) [
  | inl e ↦ absurd (not_none r (sym h ∙ ap (λ x. x.0) (get_miss key c e)))
  | inr (q, e) ↦
      let hit = get_hit key q c e in
      rw (ap (λ x. x.1) hit) (moved-get key q c ∙ sym (ap (λ x. x.0) hit) ∙ h)
]

pub missed :
    (key : Text) (c : RecordCache NetworkRecord)
    → (Records.get key c).0 ≡ none
    → (Records.get key c).1 ≡ c
missed key c h = elim (Option-cases (JsMap.get (canonical key c.alias_map) c.map)) [
  | inl e ↦ ap (λ x. x.1) (get_miss key c e)
  | inr (r, e) ↦ absurd (not_none r (sym (ap (λ x. x.0) (get_hit key r c e)) ∙ h))
]

Lead-get :
    (key target : Text) (aliases : JsMap Text) (m : JsMap NetworkRecord)
    → Lead aliases m
    → JsMap.get key aliases ≡ some target
    → is_some (JsMap.get target m) ≡ true
unfolding JsMap.get
Lead-get key target [] m h g = cc
Lead-get key target ((a, t) ∷ as_) m h g = elim (Bool-cases (seq_eq a key)) [
  | inl e ↦ ground (arith, h.0)
  | inr e ↦ Lead-get key target as_ m h.1 (ground arith)
]

set_alias-Stored :
    (key alias target : Text) (r : NetworkRecord) (c : RecordCache NetworkRecord)
    → seq_eq alias key ≡ false
    → Stored key r c
    → Stored key r (Records.set_alias alias target c)
unfolding Records.set_alias
set_alias-Stored key alias target r c ne (h, n) =
    (ground (arith, h), ground (arith, n, JsMap.get-set alias key target c.alias_map))

canonical_alias :
    (key target : Text) (aliases : JsMap Text)
    → JsMap.get key aliases ≡ some target
    → canonical key aliases ≡ target
unfolding canonical
canonical_alias key target aliases e = rw (e, canonical) refl

-- A hash that is not found is no alias.
no_alias :
    (key : Text) (c : RecordCache NetworkRecord)
    → IsCache c
    → (Records.get key c).0 ≡ none
    → JsMap.get key c.alias_map ≡ none
no_alias key c v miss = elim (Option-cases (JsMap.get key c.alias_map)) [
  | inl e ↦ e
  | inr (target, e) ↦
      let held = Lead-get key target c.alias_map c.map v.leads e in
      elim (Option-cases (JsMap.get target c.map)) [
        | inl n ↦ ground (arith, held, n)
        | inr (r, f) ↦
            let found =
              ap (λ k. JsMap.get k c.map) (canonical_alias key target c.alias_map e) ∙ f in
            absurd (not_none r (sym (ap (λ x. x.0) (get_hit key r c found)) ∙ miss))
      ]
]

alias_other-Stored :
    (encode : Bytes → Text) (key : Text) (action entry : Option Bytes) (r : NetworkRecord)
    (c : RecordCache NetworkRecord)
    → Stored key r c
    → Stored key r (alias_other encode key action entry c)
unfolding alias_other
alias_other-Stored encode key none entry r c h = h
alias_other-Stored encode key (some a) none r c h = h
alias_other-Stored encode key (some a) (some e) r c h =
    elim (Bool-cases (seq_eq key (encode a) && not (seq_eq (encode e) (encode a)))) [
      | inl by_action ↦ rw by_action (
          set_alias-Stored key (encode e) (encode a) r c
            (ground (arith, seq_eq_iff key (encode a), seq_eq_iff (encode e) key)) h)
      | inr not_action ↦
          elim (Bool-cases (seq_eq key (encode e) && not (seq_eq (encode a) (encode e)))) [
            | inl by_entry ↦
                rw (not_action, by_entry)
                  (set_alias-Stored key (encode a) (encode e) r c
                    (ground (arith, seq_eq_iff key (encode e), seq_eq_iff (encode a) key)) h)
            | inr neither ↦ rw (not_action, neither) h
          ]
    ]

-- A record that was not found is found by its hash after it was cached.
pub cache_record-get :
    (encode : Bytes → Text) (hash : Bytes) (r : NetworkRecord) (c : RecordCache NetworkRecord)
    → IsCache c
    → 1 ≤ c.max_entries
    → (Records.get (encode hash) c).0 ≡ none
    → (Records.get (encode hash) (cache_record encode hash r c)).0 ≡ some r
unfolding cache_record
cache_record-get encode hash r c v room miss =
    let key = encode hash in
    let free = no_alias key c v miss in
    Stored-get key r (cache_record encode hash r c) (
      alias_other-Stored encode key (non_empty r.hash) (non_empty (entry_hash_of r)) r
        (Records.set key r c) (set-present key r c v.distinct room, set-no_alias key r c key free))
