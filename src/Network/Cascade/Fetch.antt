-- ===== src/Network/Cascade/Fetch.antt =====
-- The fetches of `Cascade` of packages/core/src/network/cascade.ts. A fetch gives what it returns
-- or throws, and the cache that it leaves.
use holo_web_conductor.Common.{
  ℕ, Bool, true, false, not, Option, none, some, List, [], ◌∷◌, Bytes, Text, if◌then◌else◌, keep,
  map, or_else, codes, zero, suc,
}
use holo_web_conductor.Network.Types.{
  NetworkRecord, NetworkLink, NetworkEntry, present, not_applicable, CachedLinkDetail,
}
use holo_web_conductor.Network.Cache.NetworkCache.{
  NetworkCache, merge_link, get_record_sync, cache_record_sync, get_links_sync, cache_links_sync,
  get_link_details_sync, get_details_sync, cache_details_sync, invalidate_record,
  invalidate_details,
}
use holo_web_conductor.Network.Cascade.Values.{Value, normalize}
use holo_web_conductor.Network.Cascade.Sources.{
  StoredAction, StoredEntry, StoredLink, Answer, answers, throws, Storage, NetworkService, Details,
  from_storage, from_network, CascadeOptions, GetStrategy, ErrorMode, with_strategy, usable, passes,
  is_entry_hash,
}

-- The entry as the applications expect it.
abbrev pub entry_value : StoredEntry → NetworkEntry
entry_value e = present (if e.is_agent then codes "Agent" else codes "App") e.entry_content

abbrev pub and_then : {A B : Type 0} → Option A → (A → Option B) → Option B
and_then none f = none
and_then (some a) f = f a

abbrev pub zeros : ℕ → Bytes
zeros zero = []
zeros (suc n) = 0 ∷ zeros n

-- The record that is built of an action, under a hash; a missing signature is 64 zeros.
abbrev pub record_of : Bytes → StoredAction → NetworkEntry → NetworkRecord
record_of hash a entry = record {
  hash = some hash;
  entry_hash = none;
  entry_hash_camel = a.entry_hash;
  signature = or_else a.signature (zeros 64);
  entry = entry;
}

-- `storedLinkToNetworkLink`
unfoldable pub stored_link_to_network_link : StoredLink → NetworkLink
stored_link_to_network_link l = record {
  create_link_hash = l.create_link_hash;
  base = l.base_address;
  target = l.target_address;
  zome_index = l.zome_index;
  link_type = l.link_type;
  tag = l.tag;
  timestamp = l.timestamp;
  author = l.author;
}

-- The loop that adds each link whose create hash is not there yet (`linksEqual`).
unfoldable pub merge_links : List NetworkLink → List NetworkLink → List NetworkLink
unfolding merge_link
merge_links all [] = all
merge_links all (l ∷ ls) = merge_links (merge_link l all) ls

-- The links of the details cache that no delete is known of.
unfoldable pub live_from_details : List CachedLinkDetail → List NetworkLink
live_from_details ds = map (λ d. d.create) (keep (λ d. not (is_some_hash d.delete_hashes)) ds)
  where
    is_some_hash : List Bytes → Bool
    is_some_hash [] = false
    is_some_hash (h ∷ hs) = true

module _ {Local : Type 0} (storage : Storage Local) where
  -- `buildRecordFromActionHash`
  unfoldable pub build_record_from_action_hash : Bytes → Option NetworkRecord
  build_record_from_action_hash hash = elim (storage.get_action hash) [
    | none ↦ none
    | some a ↦ some (
        record_of hash a (elim (and_then a.entry_hash storage.get_entry) [
          | none ↦ not_applicable
          | some e ↦ entry_value e
        ]))
  ]

  -- `buildRecordFromEntryHash`
  unfoldable pub build_record_from_entry_hash : Bytes → Option NetworkRecord
  build_record_from_entry_hash hash = elim (storage.get_action_by_entry_hash hash) [
    | none ↦ none
    | some a ↦ elim (storage.get_entry hash) [
      | none ↦ none
      | some e ↦ some (record_of a.action_hash a (entry_value e))
    ]
  ]

module _ (encode : Bytes → Text) (mode : ErrorMode) {Local : Type 0} (storage : Storage Local)
    (service : Option NetworkService) where
  -- What becomes of the network's answer.
  unfoldable pub record_answer :
      CascadeOptions
      → Bytes
      → Answer (Option NetworkRecord)
      → NetworkCache (Details Local)
      → Answer (Option NetworkRecord) × NetworkCache (Details Local)
  record_answer o hash (answers none) c = (answers none, c)
  record_answer o hash (answers (some r)) c =
      (answers (some r), if o.cache_network_results then cache_record_sync encode hash r c else c)
  record_answer o hash (throws b) c = (if passes mode b then throws b else answers none, c)

  -- The third step of a fetch of a record.
  unfoldable pub record_from_network :
      CascadeOptions
      → (dna hash : Bytes) → NetworkCache (Details Local)
      → Answer (Option NetworkRecord) × NetworkCache (Details Local)
  unfolding record_answer
  record_from_network o dna hash c = elim (usable o service) [
    | none ↦ (answers none, c)
    | some n ↦ record_answer o hash (n.fetch_record dna hash) c
  ]

  -- The second and the third step.
  unfoldable pub record_from_cache :
      CascadeOptions
      → (dna hash : Bytes) → NetworkCache (Details Local)
      → Answer (Option NetworkRecord) × NetworkCache (Details Local)
  unfolding record_from_network
  record_from_cache o dna hash c =
      let (cached, c') = get_record_sync encode hash c in
      elim cached [ none ↦ record_from_network o dna hash c' | some r ↦ (answers (some r), c') ]

  -- `fetchRecordByActionHash` and `fetchRecordByEntryHash`, which have the same text but for what
  -- the storage gives.
  unfoldable pub record_after :
      Option NetworkRecord
      → CascadeOptions
      → (dna hash : Bytes) → NetworkCache (Details Local)
      → Answer (Option NetworkRecord) × NetworkCache (Details Local)
  unfolding record_from_cache
  record_after (some r) o dna hash c = (answers (some r), c)
  record_after none o dna hash c = record_from_cache o dna hash c

  -- `fetchRecord`; `options` are those of the call over those of the cascade.
  unfoldable pub fetch_record :
      CascadeOptions
      → Option GetStrategy
      → (dna hash : Bytes) → NetworkCache (Details Local)
      → Answer (Option NetworkRecord) × NetworkCache (Details Local)
  unfolding record_after build_record_from_action_hash build_record_from_entry_hash
  fetch_record options strategy dna hash c =
      record_after
        (if is_entry_hash hash
          then build_record_from_entry_hash storage hash
          else build_record_from_action_hash storage hash)
        (with_strategy strategy options) dna hash c

  -- The links when the network did not answer: the agent's own, the cached ones, and those that
  -- the cached details have alive.
  unfoldable pub links_offline :
      Bytes
      → Option ℕ
      → List NetworkLink
      → NetworkCache (Details Local)
      → Answer (List NetworkLink) × NetworkCache (Details Local)
  unfolding merge_links live_from_details
  links_offline base link_type own c =
      let (cached, c1) = get_links_sync encode base link_type c in
      let (details, c2) = get_link_details_sync encode base link_type c1 in
      (
        answers (
            merge_links (merge_links own (or_else cached []))
              (live_from_details (or_else details []))),
        c2,
      )

  -- What becomes of the network's answer.
  unfoldable pub links_answer :
      CascadeOptions
      → Bytes
      → Option ℕ
      → List NetworkLink
      → Answer (List NetworkLink)
      → NetworkCache (Details Local)
      → Answer (List NetworkLink) × NetworkCache (Details Local)
  unfolding links_offline
  links_answer o base link_type own (answers links) c = (
    answers (merge_links links own),
    if o.cache_network_results then cache_links_sync encode base links link_type c else c,
  )
  links_answer o base link_type own (throws b) c =
      let offline = links_offline base link_type own c in
      if passes mode b then (throws b, c) else offline

  -- `fetchLinks`
  unfoldable pub fetch_links :
      CascadeOptions
      → Option GetStrategy
      → (dna agent base : Bytes) (zome_index link_type : Option ℕ) → NetworkCache (Details Local)
      → Answer (List NetworkLink) × NetworkCache (Details Local)
  unfolding links_offline links_answer stored_link_to_network_link
  fetch_links options strategy dna agent base zome_index link_type c =
      let o = with_strategy strategy options in
      let own = map stored_link_to_network_link (storage.get_links base dna agent link_type) in
      elim (usable o service) [
        | none ↦ links_offline base link_type own c
        | some n ↦ links_answer o base link_type own (n.fetch_links dna base link_type zome_index) c
      ]

  -- What becomes of the network's answer; `now` and `later` are the times of the clock.
  unfoldable pub details_answer :
      CascadeOptions
      → (now later : ℕ) → Bytes
      → Answer (Option Value)
      → NetworkCache (Details Local)
      → Answer (Option (Details Local)) × NetworkCache (Details Local)
  unfolding normalize
  details_answer o now later hash (answers none) c = (answers none, c)
  details_answer o now later hash (answers (some v)) c = (
    answers (some (from_network (normalize v))),
    if o.cache_network_results
        then cache_details_sync encode now later hash (from_network (normalize v)) c
        else c,
  )
  details_answer o now later hash (throws b) c =
      (if passes mode b then throws b else answers none, c)

  -- The third step of a fetch of details.
  unfoldable pub details_from_network :
      CascadeOptions
      → (now later : ℕ) → (dna hash : Bytes) → NetworkCache (Details Local)
      → Answer (Option (Details Local)) × NetworkCache (Details Local)
  unfolding details_answer
  details_from_network o now later dna hash c = elim (usable o service) [
    | none ↦ (answers none, c)
    | some n ↦ details_answer o now later hash (n.fetch_details dna hash) c
  ]

  -- The second and the third step.
  unfoldable pub details_from_cache :
      CascadeOptions
      → (read now later : ℕ) → (dna hash : Bytes) → NetworkCache (Details Local)
      → Answer (Option (Details Local)) × NetworkCache (Details Local)
  unfolding details_from_network
  details_from_cache o read now later dna hash c =
      let (cached, c') = get_details_sync encode read hash c in
      elim cached [
        | some d ↦ (answers (some d), c')
        | none ↦ details_from_network o now later dna hash c'
      ]

  -- The details of the storage: of an entry, or of the entry of an action, with the action.
  unfoldable pub details_from_storage : (dna agent hash : Bytes) → Option (Details Local)
  details_from_storage dna agent hash =
      if is_entry_hash hash
      then elim (storage.get_entry_details hash dna agent) [
        | none ↦ none
        | some d ↦ some (from_storage d none)
      ]
      else elim (storage.get_action hash) [
        | none ↦ none
        | some a ↦ elim (and_then a.entry_hash (λ e. storage.get_details e dna agent)) [
          | none ↦ none
          | some d ↦ some (from_storage d (some a))
        ]
      ]

  -- `fetchDetailsByEntryHash` and `fetchDetailsByActionHash`, but for what the storage gives.
  unfoldable pub details_after :
      Option (Details Local)
      → CascadeOptions
      → (read now later : ℕ) → (dna hash : Bytes) → NetworkCache (Details Local)
      → Answer (Option (Details Local)) × NetworkCache (Details Local)
  unfolding details_from_cache
  details_after (some d) o read now later dna hash c = (answers (some d), c)
  details_after none o read now later dna hash c = details_from_cache o read now later dna hash c

  -- `fetchDetails`
  unfoldable pub fetch_details :
      CascadeOptions
      → Option GetStrategy
      → (read now later : ℕ) → (dna agent hash : Bytes) → NetworkCache (Details Local)
      → Answer (Option (Details Local)) × NetworkCache (Details Local)
  unfolding details_after details_from_storage
  fetch_details options strategy read now later dna agent hash c =
      details_after (details_from_storage dna agent hash) (with_strategy strategy options) read now
        later dna hash c

  -- `invalidate`
  unfoldable pub invalidate : Bytes → NetworkCache (Details Local) → NetworkCache (Details Local)
  invalidate hash c = invalidate_details encode hash (invalidate_record encode hash c)
