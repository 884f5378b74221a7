-- ===== src/Network/Cache/NetworkCache/Links.antt =====
-- Optimistic changes of the cached links: what `create_link` adds, what `delete_link` takes away.
use holo_web_conductor.Common.{
  ℕ, ◌≡◌, refl, sym, ◌∙◌, ap, not, Bool, true, false, ◌||◌, Option, none, some, List, [], ◌∷◌, ◌++◌,
  Bytes, Text, arith, All, if◌then◌else◌, Bool-cases, inl, inr, seq_eq, seq_eq_iff, seq_eq_refl,
  any, starts_with, starts_with_append, decimal, map, append_assoc,
}
use holo_web_conductor.Common.JsMap
use holo_web_conductor.Common.JsMap.{JsMap}
use holo_web_conductor.Network.Types.{NetworkLink, CachedLinkDetail}
use holo_web_conductor.Network.Cache.Lru
use holo_web_conductor.Network.Cache.Lru.{Lru, has_base, delete_matching}
use holo_web_conductor.Network.Cache.NetworkCache.{
  NetworkCache, has_hash, merge_link, remove_link, add_delete_hash, add_delete, edit, link_key,
  get_links_sync, invalidate_links, merge_link_into_cache, remove_link_from_cache,
}

-- Some link of the list has the hash.
abbrev pub holds : Bytes → List NetworkLink → Bool
holds hash links = any (has_hash hash) links

holds_last :
    (link : NetworkLink) (links : List NetworkLink)
    → holds link.create_link_hash (links ++ link ∷ []) ≡ true
holds_last link [] = ground (arith, seq_eq_refl link.create_link_hash)
holds_last link (l ∷ links) = ground (arith, holds_last link links)

-- Merging leaves a link with the hash in the list, and merging again changes nothing.
pub merge_link-holds :
    (link : NetworkLink) (links : List NetworkLink)
    → (holds link.create_link_hash (merge_link link links) ≡ true)
      × (merge_link link (merge_link link links) ≡ merge_link link links)
unfolding merge_link
merge_link-holds link links = elim (Bool-cases (holds link.create_link_hash links)) [
  | inl old ↦ rw old (old, rw old refl)
  | inr new ↦ rw new (holds_last link links, rw (holds_last link links) refl)
]

remove_link_last :
    (link : NetworkLink) (links : List NetworkLink)
    → holds link.create_link_hash links ≡ false
    → remove_link link.create_link_hash (links ++ link ∷ []) ≡ links
unfolding remove_link
remove_link_last link [] h = ground (arith, seq_eq_refl link.create_link_hash)
remove_link_last link (l ∷ links) h = ground (arith, remove_link_last link links)

remove_link_absent :
    (hash : Bytes) (links : List NetworkLink)
    → holds hash links ≡ false
    → remove_link hash links ≡ links
unfolding remove_link
remove_link_absent hash [] h = refl
remove_link_absent hash (l ∷ links) h = ground (arith, remove_link_absent hash links)

-- A link that was merged into a list without it is removed again without a trace.
pub remove_link-merge_link :
    (link : NetworkLink) (links : List NetworkLink)
    → holds link.create_link_hash links ≡ false
    → remove_link link.create_link_hash (merge_link link links) ≡ links
unfolding merge_link
remove_link-merge_link link links h = rw h (remove_link_last link links h)

-- A loop over the entries keeps every key, and changes the values of the keys that fit.
pub get-edit {ℓ} :
    {V : Type ℓ} (fits : Text → Bool) (f : V → V) (m : JsMap V) (k : Text)
    → JsMap.get k (edit fits f m)
      ≡ elim (JsMap.get k m) [ none ↦ none | some v ↦ some (if fits k then f v else v) ]
unfolding edit JsMap.get
get-edit fits f [] k = refl
get-edit fits f ((j, v) ∷ m) k = ground (arith, get-edit fits f m k, seq_eq_iff j k)

-- The lists at the keys of a base hold no link with the hash.
abbrev pub BaseLacks : Text → Bytes → JsMap (List NetworkLink) → Type 0
BaseLacks base hash m = All (λ e. has_base base e.0 ≡ true → holds hash e.1 ≡ false) m

delete_matching-get :
    {V : Type 0} (base k : Text) (m : JsMap V)
    → JsMap.get k (Lru.delete_matching base m) ≡ (if has_base base k then none else JsMap.get k m)
unfolding Lru.delete_matching JsMap.get
delete_matching-get base k [] = ground arith
delete_matching-get base k ((j, v) ∷ m) =
    ground (arith, delete_matching-get base k m, seq_eq_iff j k)

module _ (encode : Bytes → Text) where
  -- Every key of the links at a base begins with the text of the base.
  pub link_key-has_base :
      (base : Bytes) (link_type : Option ℕ)
      → has_base (encode base) (link_key encode base link_type) ≡ true
  link_key-has_base base none = ground (arith, seq_eq_refl (encode base))
  link_key-has_base base (some t) =
      let key : encode base ++ b':' ∷ decimal t ≡ (encode base ++ b':' ∷ []) ++ decimal t =
        sym (append_assoc (encode base) (b':' ∷ []) (decimal t)) in
      let begins : starts_with (encode base ++ b':' ∷ []) (encode base ++ b':' ∷ decimal t) ≡ true =
        rw key (starts_with_append (encode base ++ b':' ∷ []) (decimal t)) in
      ground (arith, begins)

  edit-undone :
      (base : Bytes) (link : NetworkLink) (m : JsMap (List NetworkLink))
      → BaseLacks (encode base) link.create_link_hash m
      → edit (has_base (encode base)) (remove_link link.create_link_hash) (
          edit
            (λ key.
              seq_eq key (encode base) || seq_eq key (link_key encode base (some link.link_type)))
            (merge_link link)
            m)
        ≡ m
  unfolding edit
  edit-undone base link [] h = refl
  edit-undone base link ((key, links) ∷ m) (here, later) = ground (
    arith,
    edit-undone base link m later,
    here,
    remove_link-merge_link link links,
    remove_link_absent link.create_link_hash links,
    seq_eq_iff key (encode base),
    seq_eq_iff key (link_key encode base (some link.link_type)),
    link_key-has_base base (some link.link_type),
  )

  module _ {Details : Type 0} where
    -- A link that is created and then deleted leaves the cached links as they were, where no list
    -- of its base held a link with its hash.
    pub remove-merge_link_into_cache :
        (base : Bytes) (link : NetworkLink) (c : NetworkCache Details)
        → BaseLacks (encode base) link.create_link_hash c.links.map
        → remove_link_from_cache encode base link.create_link_hash
            (merge_link_into_cache encode base link c)
          ≡ c
    unfolding remove_link_from_cache merge_link_into_cache
    remove-merge_link_into_cache base link c h =
        ap (λ m. record c { links = record { map = m; max_entries = c.links.max_entries } })
          (edit-undone base link c.links.map h)

    -- After the links of a base are invalidated, none of its lists is found, whatever the type that
    -- is asked for; and the lists under keys of other bases are as they were.
    pub invalidate_links-all :
        (base : Bytes) (c : NetworkCache Details) (link_type : Option ℕ) (k : Text)
        → ((get_links_sync encode base link_type (invalidate_links encode base none c)).0 ≡ none)
          × (JsMap.get k (invalidate_links encode base none c).links.map
              ≡ (if has_base (encode base) k then none else JsMap.get k c.links.map))
    unfolding get_links_sync invalidate_links Lru.delete_by_prefix Lru.get
    invalidate_links-all base c t k =
        let gone : JsMap.get (link_key encode base t) (delete_matching (encode base) c.links.map)
            ≡ none =
          delete_matching-get (encode base) (link_key encode base t) c.links.map
          ∙ rw (link_key-has_base base t) refl in
        (ground (arith, gone), delete_matching-get (encode base) k c.links.map)

    -- A created link is at once in each cached list of its base that can show it, the one of all
    -- types and the one of its own type, and every other list is as it was.
    pub merge_link_into_cache_lem :
        (base : Bytes) (link : NetworkLink) (c : NetworkCache Details) (k : Text)
        (links : List NetworkLink)
        → JsMap.get k c.links.map ≡ some links
        → JsMap.get k (merge_link_into_cache encode base link c).links.map
          ≡ some (
              if seq_eq k (link_key encode base none)
                || seq_eq k (link_key encode base (some link.link_type))
              then merge_link link links
              else links)
    unfolding merge_link_into_cache
    merge_link_into_cache_lem base link c k links e =
        get-edit
          (λ key.
            seq_eq key (encode base) || seq_eq key (link_key encode base (some link.link_type)))
          (merge_link link) c.links.map k
        ∙ rw e refl

-- The details of a list that were created under a hash are deleted.
abbrev pub Deleted : Bytes → Bytes → List CachedLinkDetail → Type 0
Deleted create delete_hash details =
    All
      (λ d.
        not (has_hash create d.create) || any (λ h. seq_eq h delete_hash) d.delete_hashes ≡ true)
      details

any_last :
    (hash : Bytes) (hashes : List Bytes) → any (λ h. seq_eq h hash) (hashes ++ hash ∷ []) ≡ true
any_last hash [] = ground (arith, seq_eq_refl hash)
any_last hash (h ∷ hashes) = ground (arith, any_last hash hashes)

add_delete_hash_lem :
    (hash : Bytes) (hashes : List Bytes)
    → (any (λ h. seq_eq h hash) (add_delete_hash hash hashes) ≡ true)
      × (add_delete_hash hash (add_delete_hash hash hashes) ≡ add_delete_hash hash hashes)
unfolding add_delete_hash
add_delete_hash_lem hash hashes = elim (Bool-cases (any (λ h. seq_eq h hash) hashes)) [
  | inl old ↦ rw old (old, rw old refl)
  | inr new ↦ rw new (any_last hash hashes, rw (any_last hash hashes) refl)
]

-- A delete is recorded at every detail that was created under the hash; the created links stay the
-- same, in their order; and recording it again changes nothing.
pub add_delete_lem :
    (create delete_hash : Bytes) (details : List CachedLinkDetail)
    → Deleted create delete_hash (add_delete create delete_hash details)
      × (map (λ d. d.create) (add_delete create delete_hash details) ≡ map (λ d. d.create) details)
      × (add_delete create delete_hash (add_delete create delete_hash details)
          ≡ add_delete create delete_hash details)
unfolding add_delete
add_delete_lem create delete_hash [] = (tt, refl, refl)
add_delete_lem create delete_hash (d ∷ details) =
    let (deleted, same, again) = add_delete_lem create delete_hash details in
    ground (arith, deleted, same, again, add_delete_hash_lem delete_hash d.delete_hashes)
