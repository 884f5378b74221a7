-- ===== src/Network/Cascade/Merging.antt =====
-- Which links `fetchLinks` of packages/core/src/network/cascade.ts gives.
use holo_web_conductor.Common.{
  ◌≡◌, refl, sym, ◌∙◌, Bool, true, false, not, ◌&&◌, ◌||◌, Option, none, some, List, [], ◌∷◌, ◌++◌,
  Bytes, Text, ℕ, arith, seq_eq_iff, map, Bool-cases, inl, inr, append_assoc, append-nil, or_else,
  subst, if◌then◌else◌,
}
use holo_web_conductor.Network.Types.{NetworkLink}
use holo_web_conductor.Network.Cache.NetworkCache.{
  NetworkCache, has_hash, merge_link, get_links_sync, get_link_details_sync,
}
use holo_web_conductor.Network.Cache.NetworkCache.Links.{holds}
use holo_web_conductor.Network.Cascade.Sources.{
  Answer, answers, throws, Storage, NetworkService, Details, CascadeOptions, GetStrategy, ErrorMode,
  with_strategy, usable,
}
use holo_web_conductor.Network.Cascade.Fetch.{
  merge_links, fetch_links, links_answer, links_offline, stored_link_to_network_link,
  live_from_details,
}

holds-append :
    (hash : Bytes) (a b : List NetworkLink) → holds hash (a ++ b) ≡ (holds hash a || holds hash b)
holds-append hash [] b = refl
holds-append hash (l ∷ a) b = ground (arith, holds-append hash a b)

same_hash :
    (hash : Bytes) (l : NetworkLink) (all : List NetworkLink)
    → holds l.create_link_hash all ≡ true
    → has_hash hash l ≡ true
    → holds hash all ≡ true
same_hash hash l all h e =
    subst (λ x. holds x all ≡ true) ((seq_eq_iff l.create_link_hash hash).0 e) h

holds-merge_link :
    (hash : Bytes) (l : NetworkLink) (all : List NetworkLink)
    → holds hash (merge_link l all) ≡ (holds hash all || has_hash hash l)
unfolding merge_link
holds-merge_link hash l all = elim (Bool-cases (holds l.create_link_hash all)) [
  | inl old ↦ rw old (elim (Bool-cases (has_hash hash l)) [
    | inl e ↦ ground (arith, same_hash hash l all old e)
    | inr e ↦ ground arith
  ])
  | inr new ↦ rw new (ground (arith, holds-append hash all (l ∷ [])))
]

holds-merge_links :
    (hash : Bytes) (all ls : List NetworkLink)
    → holds hash (merge_links all ls) ≡ (holds hash all || holds hash ls)
unfolding merge_links
holds-merge_links hash all [] = ground arith
holds-merge_links hash all (l ∷ ls) =
    ground (arith, holds-merge_links hash (merge_link l all) ls, holds-merge_link hash l all)

-- No two links of a list have the same create hash.
pub distinct : List NetworkLink → Bool
distinct [] = true
distinct (l ∷ ls) = not (holds l.create_link_hash ls) && distinct ls

distinct_last :
    (l : NetworkLink) (all : List NetworkLink)
    → distinct all ≡ true
    → holds l.create_link_hash all ≡ false
    → distinct (all ++ l ∷ []) ≡ true
unfolding distinct
distinct_last l [] d h = refl
distinct_last l (x ∷ all) d h = ground (
  arith,
  distinct_last l all,
  holds-append x.create_link_hash all (l ∷ []),
  seq_eq_iff x.create_link_hash l.create_link_hash,
  seq_eq_iff l.create_link_hash x.create_link_hash,
)

distinct-merge_link :
    (l : NetworkLink) (all : List NetworkLink)
    → distinct all ≡ true
    → distinct (merge_link l all) ≡ true
unfolding merge_link
distinct-merge_link l all d = elim (Bool-cases (holds l.create_link_hash all)) [
  | inl old ↦ rw old d
  | inr new ↦ rw new (distinct_last l all d new)
]

distinct-merge_links :
    (all ls : List NetworkLink) → distinct all ≡ true → distinct (merge_links all ls) ≡ true
unfolding merge_links
distinct-merge_links all [] d = d
distinct-merge_links all (l ∷ ls) d =
    distinct-merge_links (merge_link l all) ls (distinct-merge_link l all d)

-- Of the second links those whose create hash neither a first one has nor an earlier second one.
abbrev pub added : List NetworkLink → List NetworkLink → List NetworkLink
added all [] = []
added all (l ∷ ls) =
    if holds l.create_link_hash all then added all ls else l ∷ added (all ++ l ∷ []) ls

merge_links-added : (all ls : List NetworkLink) → merge_links all ls ≡ all ++ added all ls
unfolding merge_links merge_link
merge_links-added all [] = sym (append-nil all)
merge_links-added all (l ∷ ls) = elim (Bool-cases (holds l.create_link_hash all)) [
  | inl old ↦ rw old (merge_links-added all ls)
  | inr new ↦
      rw new (
        merge_links-added (all ++ l ∷ []) ls ∙ append_assoc all (l ∷ []) (added (all ++ l ∷ []) ls))
]

merge_links-append :
    (all a b : List NetworkLink) → merge_links (merge_links all a) b ≡ merge_links all (a ++ b)
unfolding merge_links
merge_links-append all [] b = refl
merge_links-append all (l ∷ a) b = merge_links-append (merge_link l all) a b

-- The links of `first`, and after them those of `second` whose create hash is new, all as they
-- stand and in their order.
pub record IsUnion (first second all : List NetworkLink) : Type 0 where
  pub in_order : all ≡ first ++ added first second
  pub same_hashes : (hash : Bytes) → holds hash all ≡ (holds hash first || holds hash second)
  pub stays_distinct : distinct first ≡ true → distinct all ≡ true

merge_links-IsUnion : (a b : List NetworkLink) → IsUnion a b (merge_links a b)
merge_links-IsUnion a b = record {
  in_order = merge_links-added a b;
  same_hashes = λ hash. holds-merge_links hash a b;
  stays_distinct = distinct-merge_links a b;
}

-- The answer is links with a property, and no error.
abbrev pub Gives : Answer (List NetworkLink) → (List NetworkLink → Type 0) → Type 0
Gives (answers all) P = P all
Gives (throws b) P = true ≡ false

module _ (encode : Bytes → Text) (mode : ErrorMode) {Local : Type 0} (storage : Storage Local)
    (service : Option NetworkService) where
  -- The agent's own links at a base, each with its hashes, zome, type, tag, time and author.
  abbrev pub own_links : (dna agent base : Bytes) → Option ℕ → List NetworkLink
  own_links dna agent base link_type =
      map
        (λ l. record {
          create_link_hash = l.create_link_hash;
          base = l.base_address;
          target = l.target_address;
          zome_index = l.zome_index;
          link_type = l.link_type;
          tag = l.tag;
          timestamp = l.timestamp;
          author = l.author;
        })
        (storage.get_links base dna agent link_type)

  -- Where the network is used and answers, its links are given as they stand, and after them the
  -- agent's own whose create hash is not among them; two links have the same hash only if two of
  -- the network's have.
  pub fetch_links-online :
      (options : CascadeOptions) (strategy : Option GetStrategy) (dna agent base : Bytes)
      (zome_index link_type : Option ℕ) (c : NetworkCache (Details Local)) (n : NetworkService)
      (links : List NetworkLink)
      → usable (with_strategy strategy options) service ≡ some n
      → n.fetch_links dna base link_type zome_index ≡ answers links
      → Gives
          (fetch_links encode mode storage service options strategy dna agent base zome_index
            link_type c).0
          (IsUnion links (own_links dna agent base link_type))
  unfolding fetch_links links_answer stored_link_to_network_link
  fetch_links-online options strategy dna agent base zome_index link_type c n links e a =
      rw (e, fetch_links, a) (merge_links-IsUnion links (own_links dna agent base link_type))

  -- Where the network is not used, the agent's own links are given as they stand, and after them
  -- the cached links and those that the cached details have alive, each hash once.
  pub fetch_links-offline :
      (options : CascadeOptions) (strategy : Option GetStrategy) (dna agent base : Bytes)
      (zome_index link_type : Option ℕ) (c : NetworkCache (Details Local))
      → usable (with_strategy strategy options) service ≡ none
      → Gives
          (fetch_links encode mode storage service options strategy dna agent base zome_index
            link_type c).0
          (IsUnion (own_links dna agent base link_type) (
            or_else (get_links_sync encode base link_type c).0 []
            ++ live_from_details (or_else (get_link_details_sync encode base link_type c).0 [])))
  unfolding fetch_links links_offline stored_link_to_network_link get_links_sync
      get_link_details_sync
  fetch_links-offline options strategy dna agent base zome_index link_type c e =
      let own = own_links dna agent base link_type in
      let cached = or_else (get_links_sync encode base link_type c).0 [] in
      let live = live_from_details (or_else (get_link_details_sync encode base link_type c).0 []) in
      rw (e, fetch_links)
        (rw (merge_links-append own cached live) (merge_links-IsUnion own (cached ++ live)))
