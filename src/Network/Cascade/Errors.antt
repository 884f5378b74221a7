-- ===== src/Network/Cascade/Errors.antt =====
-- When the fetches of `Cascade` of packages/core/src/network/cascade.ts reach the network, and when
-- they throw.
use holo_web_conductor.Common.{
  ℕ, ◌≡◌, refl, Bool, true, false, Option, none, some, List, Bytes, Text, map, arith, Option-cases,
  Bool-cases, inl, inr, if◌then◌else◌, subst,
}
use holo_web_conductor.Network.Types.{NetworkRecord, NetworkLink}
use holo_web_conductor.Network.Cache.NetworkCache.{NetworkCache, get_record_sync, get_details_sync}
use holo_web_conductor.Network.Cascade.Values.{Value}
use holo_web_conductor.Network.Cascade.Sources.{
  Answer, answers, throws, Storage, NetworkService, Details, CascadeOptions, GetStrategy, ErrorMode,
  swallow, propagate, with_strategy, usable, passes,
}
use holo_web_conductor.Network.Cascade.Fetch.{
  stored_link_to_network_link, record_answer, links_answer, details_answer, details_after,
  details_from_cache, fetch_record, fetch_links, fetch_details, record_after, record_from_cache,
  record_from_network, details_from_network, links_offline,
}

-- The answer is no error, or it is a `NetworkError` that the mode passes on, of a call that may
-- use the network: the network is there, and has thrown it when it was asked.
abbrev pub Passed :
    {A B : Type 0}
    → ErrorMode
    → CascadeOptions
    → Option NetworkService
    → (NetworkService → Answer B)
    → Answer A
    → Type 0
Passed mode o service ask (answers a) = Unit
Passed mode o service ask (throws b) =
    (mode ≡ propagate)
    × (b ≡ true)
    × (o.use_network ≡ true)
    × ((n : NetworkService) × (service ≡ some n) × (ask n ≡ throws true))

usable_on :
    (o : CascadeOptions) (service : Option NetworkService) (n : NetworkService)
    → usable o service ≡ some n
    → o.use_network ≡ true
usable_on o none n h = cc
usable_on o (some m) n h = ground arith

usable_there :
    (o : CascadeOptions) (service : Option NetworkService) (n : NetworkService)
    → usable o service ≡ some n
    → service ≡ some n
usable_there o none n h = cc
usable_there o (some m) n h = ground arith

-- The network is there and has answered so.
abbrev Asked :
    {B : Type 0} → Option NetworkService → (NetworkService → Answer B) → Answer B → Type 0
Asked service ask a = (n : NetworkService) × (service ≡ some n) × (ask n ≡ a)

passes_lem :
    {A B : Type 0} (mode : ErrorMode) (o : CascadeOptions) (service : Option NetworkService)
    (ask : NetworkService → Answer B) (b : Bool) (a : A)
    → o.use_network ≡ true
    → Asked service ask (throws b)
    → Passed mode o service ask (if passes mode b then throws b else answers a)
passes_lem swallow o service ask b a u k = tt
passes_lem propagate o service ask true a u k = (refl, refl, u, k)
passes_lem propagate o service ask false a u k = tt

passes_on : (mode : ErrorMode) (b : Bool) → passes mode b ≡ true → (mode ≡ propagate) × (b ≡ true)
passes_on swallow b h = cc
passes_on propagate b h = (refl, h)

module _ (encode : Bytes → Text) (mode : ErrorMode) {Local : Type 0} (storage : Storage Local)
    (service : Option NetworkService) where
  record_answer-Passed :
      (ask : NetworkService → Answer (Option NetworkRecord)) (o : CascadeOptions) (hash : Bytes)
      (a : Answer (Option NetworkRecord)) (c : NetworkCache (Details Local))
      → o.use_network ≡ true
      → Asked service ask a
      → Passed mode o service ask (record_answer encode mode storage service o hash a c).0
  unfolding record_answer
  record_answer-Passed ask o hash (answers none) c u k = tt
  record_answer-Passed ask o hash (answers (some r)) c u k = tt
  record_answer-Passed ask o hash (throws b) c u k = passes_lem mode o service ask b none u k

  details_answer-Passed :
      (ask : NetworkService → Answer (Option Value)) (o : CascadeOptions) (now later : ℕ)
      (hash : Bytes) (a : Answer (Option Value)) (c : NetworkCache (Details Local))
      → o.use_network ≡ true
      → Asked service ask a
      → Passed mode o service ask
          (details_answer encode mode storage service o now later hash a c).0
  unfolding details_answer
  details_answer-Passed ask o now later hash (answers none) c u k = tt
  details_answer-Passed ask o now later hash (answers (some r)) c u k = tt
  details_answer-Passed ask o now later hash (throws b) c u k =
      passes_lem mode o service ask b none u k

  record_from_network-Passed :
      (o : CascadeOptions) (dna hash : Bytes) (c : NetworkCache (Details Local))
      → Passed mode o service
          (λ n. n.fetch_record dna hash)
          (record_from_network encode mode storage service o dna hash c).0
  unfolding record_from_network
  record_from_network-Passed o dna hash c = elim (Option-cases (usable o service)) [
    | inl e ↦ rw (e, record_from_network) tt
    | inr (n, e) ↦
        rw (e, record_from_network)
          (record_answer-Passed (λ n. n.fetch_record dna hash) o hash (n.fetch_record dna hash) c
            (usable_on o service n e) (n, usable_there o service n e, refl))
  ]

  details_from_network-Passed :
      (o : CascadeOptions) (now later : ℕ) (dna hash : Bytes) (c : NetworkCache (Details Local))
      → Passed mode o service
          (λ n. n.fetch_details dna hash)
          (details_from_network encode mode storage service o now later dna hash c).0
  unfolding details_from_network
  details_from_network-Passed o now later dna hash c = elim (Option-cases (usable o service)) [
    | inl e ↦ rw (e, details_from_network) tt
    | inr (n, e) ↦
        rw (e, details_from_network)
          (details_answer-Passed (λ n. n.fetch_details dna hash) o now later hash
            (n.fetch_details dna hash) c (usable_on o service n e)
            (n, usable_there o service n e, refl))
  ]

  record_after-Passed :
      (found : Option NetworkRecord) (o : CascadeOptions) (dna hash : Bytes)
      (c : NetworkCache (Details Local))
      → Passed mode o service
          (λ n. n.fetch_record dna hash)
          (record_after encode mode storage service found o dna hash c).0
  unfolding record_after record_from_cache
  record_after-Passed (some r) o dna hash c = tt
  record_after-Passed none o dna hash c = elim (Option-cases (get_record_sync encode hash c).0) [
    | inl e ↦
        rw (e, record_from_cache)
          (record_from_network-Passed o dna hash (get_record_sync encode hash c).1)
    | inr (r, e) ↦ rw (e, record_from_cache) tt
  ]

  details_after-Passed :
      (found : Option (Details Local)) (o : CascadeOptions) (read now later : ℕ) (dna hash : Bytes)
      (c : NetworkCache (Details Local))
      → Passed mode o service
          (λ n. n.fetch_details dna hash)
          (details_after encode mode storage service found o read now later dna hash c).0
  unfolding details_after details_from_cache
  details_after-Passed (some r) o read now later dna hash c = tt
  details_after-Passed none o read now later dna hash c =
      elim (Option-cases (get_details_sync encode read hash c).0) [
        | inl e ↦
            rw (e, details_from_cache)
              (details_from_network-Passed o now later dna hash
                (get_details_sync encode read hash c).1)
        | inr (r, e) ↦ rw (e, details_from_cache) tt
      ]

  links_answer-Passed :
      (ask : NetworkService → Answer (List NetworkLink)) (o : CascadeOptions) (base : Bytes)
      (link_type : Option ℕ) (own : List NetworkLink) (a : Answer (List NetworkLink))
      (c : NetworkCache (Details Local))
      → o.use_network ≡ true
      → Asked service ask a
      → Passed mode o service ask
          (links_answer encode mode storage service o base link_type own a c).0
  unfolding links_answer links_offline
  links_answer-Passed ask o base link_type own (answers links) c u k = tt
  links_answer-Passed ask o base link_type own (throws b) c u k =
      elim (Bool-cases (passes mode b)) [
        | inl e ↦
            let (m, x) = passes_on mode b e in
            rw e (m, x, u, subst (λ t. Asked service ask (throws t)) x k)
        | inr e ↦ rw e tt
      ]

  links-Passed :
      (options : CascadeOptions) (strategy : Option GetStrategy) (dna agent base : Bytes)
      (zome_index link_type : Option ℕ) (c : NetworkCache (Details Local))
      → Passed mode
          (with_strategy strategy options)
          service
          (λ n. n.fetch_links dna base link_type zome_index)
          (fetch_links encode mode storage service options strategy dna agent base zome_index
            link_type c).0
  unfolding fetch_links links_offline
  links-Passed options strategy dna agent base zome_index link_type c =
      let o = with_strategy strategy options in
      elim (Option-cases (usable o service)) [
        | inl e ↦ rw (e, fetch_links) tt
        | inr (n, e) ↦
            rw (e, fetch_links)
              (links_answer-Passed (λ n. n.fetch_links dna base link_type zome_index) o base
                link_type
                (map stored_link_to_network_link (storage.get_links base dna agent link_type))
                (n.fetch_links dna base link_type zome_index) c (usable_on o service n e)
                (n, usable_there o service n e, refl))
      ]

  -- A fetch throws only a `NetworkError` that the network, asked for the same, has thrown, and only
  -- where the mode passes errors on and the call may use the network: the options allow it and the
  -- strategy is not the local one.
  pub fetch-Passed :
      (options : CascadeOptions) (strategy : Option GetStrategy) (dna agent hash : Bytes)
      (zome_index link_type : Option ℕ) (read now later : ℕ) (c : NetworkCache (Details Local))
      → let o = with_strategy strategy options in
        Passed mode o service
          (λ n. n.fetch_record dna hash)
          (fetch_record encode mode storage service options strategy dna hash c).0
        × Passed mode o service
            (λ n. n.fetch_links dna hash link_type zome_index)
            (fetch_links encode mode storage service options strategy dna agent hash zome_index
              link_type c).0
        × Passed mode o service
            (λ n. n.fetch_details dna hash)
            (fetch_details encode mode storage service options strategy read now later dna agent
              hash c).0
  unfolding fetch_record fetch_links fetch_details links_offline
  fetch-Passed options strategy dna agent hash zome_index link_type read now later c =
      let o = with_strategy strategy options in
      (
        record_after-Passed _ o dna hash c,
        links-Passed options strategy dna agent hash zome_index link_type c,
        details_after-Passed _ o read now later dna hash c,
      )
