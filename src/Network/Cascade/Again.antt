-- ===== src/Network/Cascade/Again.antt =====
-- A record that was fetched once is served again without the network
-- (packages/core/src/network/cascade.ts over packages/core/src/network/cache.ts).
use holo_web_conductor.Common.{
  ◌≡◌, ◌≢◌, ◌≤◌, refl, sym, ◌∙◌, ap, Bool, true, false, Option, none, some, Bytes, Text, inl, inr,
  Option-cases, if◌then◌else◌,
}
use holo_web_conductor.Network.Types.{NetworkRecord}
use holo_web_conductor.Network.Cache.Records.Aliases.{IsCache}
use holo_web_conductor.Network.Cache.NetworkCache.{NetworkCache, get_record_sync, cache_record_sync}
use holo_web_conductor.Network.Cascade.Sources.{
  Answer, answers, throws, Storage, NetworkService, Details, CascadeOptions, GetStrategy, network,
  local, ErrorMode, with_strategy, usable, passes,
}
use holo_web_conductor.Network.Cascade.Fetch.{
  fetch_record, record_after, record_from_cache, record_from_network, record_answer,
}
use holo_web_conductor.Network.Cascade.Hits.{get-get, missed, cache_record-get}

-- The cache serves the record for the hash.
Serves :
    {Local : Type 0}
    → (Bytes → Text)
    → Bytes
    → NetworkRecord
    → NetworkCache (Details Local)
    → Type 0
Serves encode hash r c = (get_record_sync encode hash c).0 ≡ some r

answers_none :
    (r : NetworkRecord) → ◌≢◌ {A = Answer (Option NetworkRecord)} (answers none) (answers (some r))
answers_none r e = cc

answers_same :
    (q r : NetworkRecord)
    → ◌≡◌ {A = Answer (Option NetworkRecord)} (answers (some q)) (answers (some r))
    → q ≡ r
answers_same q r e = cc

not_given :
    (test b : Bool) (r : NetworkRecord)
    → (if test then throws b else answers none) ≢ answers (some r)
not_given true b r e = cc
not_given false b r e = cc

still_caching :
    (o : CascadeOptions) (strategy : Option GetStrategy)
    → o.cache_network_results ≡ true
    → (with_strategy strategy o).cache_network_results ≡ true
still_caching o none h = h
still_caching o (some network) h = h
still_caching o (some local) h = h

module _ (encode : Bytes → Text) {Local : Type 0} (storage : Storage Local) where
  served :
      (mode : ErrorMode) (service : Option NetworkService) (o : CascadeOptions) (dna hash : Bytes)
      (r : NetworkRecord) (c : NetworkCache (Details Local))
      → Serves encode hash r c
      → (record_from_cache encode mode storage service o dna hash c).0 ≡ answers (some r)
  unfolding record_from_cache Serves
  served mode service o dna hash r c h = rw (h, record_from_cache) refl

  answer-Serves :
      (mode : ErrorMode) (service : Option NetworkService) (o : CascadeOptions) (hash : Bytes)
      (a : Answer (Option NetworkRecord)) (r : NetworkRecord) (c : NetworkCache (Details Local))
      → IsCache c.records
      → 1 ≤ c.records.max_entries
      → (get_record_sync encode hash c).0 ≡ none
      → o.cache_network_results ≡ true
      → (record_answer encode mode storage service o hash a c).0 ≡ answers (some r)
      → Serves encode hash r (record_answer encode mode storage service o hash a c).1
  unfolding record_answer Serves get_record_sync cache_record_sync
  answer-Serves mode service o hash (answers none) r c v room miss keep h =
      absurd (answers_none r h)
  answer-Serves mode service o hash (answers (some q)) r c v room miss keep h =
      rw keep (cache_record-get encode hash q c.records v room miss ∙ ap some (answers_same q r h))
  answer-Serves mode service o hash (throws b) r c v room miss keep h =
      absurd (not_given (passes mode b) b r h)

  used :
      (mode : ErrorMode) (service : Option NetworkService) (o : CascadeOptions) (dna hash : Bytes)
      (c : NetworkCache (Details Local)) (n : NetworkService)
      → usable o service ≡ some n
      → record_from_network encode mode storage service o dna hash c
        ≡ record_answer encode mode storage service o hash (n.fetch_record dna hash) c
  unfolding record_from_network
  used mode service o dna hash c n e = rw (e, record_from_network) refl

  unused :
      (mode : ErrorMode) (service : Option NetworkService) (o : CascadeOptions) (dna hash : Bytes)
      (c : NetworkCache (Details Local))
      → usable o service ≡ none
      → record_from_network encode mode storage service o dna hash c ≡ (answers none, c)
  unfolding record_from_network
  unused mode service o dna hash c e = rw (e, record_from_network) refl

  network-Serves :
      (mode : ErrorMode) (service : Option NetworkService) (o : CascadeOptions) (dna hash : Bytes)
      (r : NetworkRecord) (c : NetworkCache (Details Local))
      → IsCache c.records
      → 1 ≤ c.records.max_entries
      → (get_record_sync encode hash c).0 ≡ none
      → o.cache_network_results ≡ true
      → (record_from_network encode mode storage service o dna hash c).0 ≡ answers (some r)
      → Serves encode hash r (record_from_network encode mode storage service o dna hash c).1
  network-Serves mode service o dna hash r c v room miss keep h =
      elim (Option-cases (usable o service)) [
        | inl e ↦
            absurd (answers_none r (sym (ap (λ x. x.0) (unused mode service o dna hash c e)) ∙ h))
        | inr (n, e) ↦
            let same = used mode service o dna hash c n e in
            rw same (
              answer-Serves mode service o hash (n.fetch_record dna hash) r c v room miss keep
                (sym (ap (λ x. x.0) same) ∙ h))
      ]

  in_cache :
      (mode : ErrorMode) (service : Option NetworkService) (o : CascadeOptions) (dna hash : Bytes)
      (q : NetworkRecord) (c : NetworkCache (Details Local))
      → (get_record_sync encode hash c).0 ≡ some q
      → record_from_cache encode mode storage service o dna hash c
        ≡ (answers (some q), (get_record_sync encode hash c).1)
  unfolding record_from_cache
  in_cache mode service o dna hash q c e = rw (e, record_from_cache) refl

  missed_sync :
      (hash : Bytes) (c : NetworkCache (Details Local))
      → (get_record_sync encode hash c).0 ≡ none
      → (get_record_sync encode hash c).1 ≡ c
  unfolding get_record_sync
  missed_sync hash c e = ap (λ rs. record c { records = rs }) (missed (encode hash) c.records e)

  not_in_cache :
      (mode : ErrorMode) (service : Option NetworkService) (o : CascadeOptions) (dna hash : Bytes)
      (c : NetworkCache (Details Local))
      → (get_record_sync encode hash c).0 ≡ none
      → record_from_cache encode mode storage service o dna hash c
        ≡ record_from_network encode mode storage service o dna hash c
  unfolding record_from_cache
  not_in_cache mode service o dna hash c e =
      rw (e, record_from_cache)
        (ap (record_from_network encode mode storage service o dna hash) (missed_sync hash c e))

  cache-Serves :
      (mode : ErrorMode) (service : Option NetworkService) (o : CascadeOptions) (dna hash : Bytes)
      (r : NetworkRecord) (c : NetworkCache (Details Local))
      → IsCache c.records
      → 1 ≤ c.records.max_entries
      → o.cache_network_results ≡ true
      → (record_from_cache encode mode storage service o dna hash c).0 ≡ answers (some r)
      → Serves encode hash r (record_from_cache encode mode storage service o dna hash c).1
  unfolding Serves get_record_sync
  cache-Serves mode service o dna hash r c v room keep h =
      elim (Option-cases (get_record_sync encode hash c).0) [
        | inl e ↦
            let same = not_in_cache mode service o dna hash c e in
            rw same (
              network-Serves mode service o dna hash r c v room e keep
                (sym (ap (λ x. x.0) same) ∙ h))
        | inr (q, e) ↦
            let same = in_cache mode service o dna hash q c e in
            let q_is_r = answers_same q r (sym (ap (λ x. x.0) same) ∙ h) in
            rw same (get-get (encode hash) r c.records (e ∙ ap some q_is_r))
      ]

  after-Serves :
      (found : Option NetworkRecord) (mode mode' : ErrorMode)
      (service service' : Option NetworkService) (o o' : CascadeOptions) (dna dna' hash : Bytes)
      (r : NetworkRecord) (c : NetworkCache (Details Local))
      → IsCache c.records
      → 1 ≤ c.records.max_entries
      → o.cache_network_results ≡ true
      → (record_after encode mode storage service found o dna hash c).0 ≡ answers (some r)
      → (record_after encode mode' storage service' found o' dna' hash
          (record_after encode mode storage service found o dna hash c).1).0
        ≡ answers (some r)
  unfolding record_after
  after-Serves (some q) mode mode' service service' o o' dna dna' hash r c v room keep h = h
  after-Serves none mode mode' service service' o o' dna dna' hash r c v room keep h =
      served mode' service' o' dna' hash r _
        (cache-Serves mode service o dna hash r c v room keep h)

  -- A record that was fetched with the caching of results on is given again by the next fetch of
  -- its hash over the same storage, whatever network, mode, strategy and options that one has: in
  -- particular where there is no network. The cache is well-formed and has room for a record.
  pub fetch_record-again :
      (mode mode' : ErrorMode) (service service' : Option NetworkService)
      (options options' : CascadeOptions) (strategy strategy' : Option GetStrategy)
      (dna dna' hash : Bytes) (r : NetworkRecord) (c : NetworkCache (Details Local))
      → IsCache c.records
      → 1 ≤ c.records.max_entries
      → options.cache_network_results ≡ true
      → (fetch_record encode mode storage service options strategy dna hash c).0 ≡ answers (some r)
      → (fetch_record encode mode' storage service' options' strategy' dna' hash
          (fetch_record encode mode storage service options strategy dna hash c).1).0
        ≡ answers (some r)
  unfolding fetch_record
  fetch_record-again mode mode' service service' options options' strategy strategy' dna dna' hash r
        c v room keep h =
      after-Serves _ mode mode' service service' (with_strategy strategy options)
        (with_strategy strategy' options') dna dna' hash r c v room
        (still_caching options strategy keep) h
