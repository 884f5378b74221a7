-- ===== src/Extension/Contexts/Unpacking.antt =====
-- The DNAs that `installHapp` unpacks, role by role.
use holo_web_conductor.Common.{
  ℕ, ◌≡◌, refl, sym, ap, ◌∙◌, subst, inl, inr, Option, none, some, List, [], ◌∷◌, Bytes, Text,
  Option-cases, or_else,
}
use holo_web_conductor.Common.JsMap
use holo_web_conductor.Common.JsMap.{JsMap}
use holo_web_conductor.Extension.Lock.{non_empty_text}
use holo_web_conductor.Extension.Contexts.{HappContextStorage, DnaContext, DnaManifestRuntime}
use holo_web_conductor.Extension.Contexts.Storage
use holo_web_conductor.Extension.Contexts.Manager.{
  AppRole, DnaBundle, DnaModifiers, Bundles, process_roles, role_dna, dna_of_bundle, text_or,
  one_of, joined,
}
use holo_web_conductor.Extension.Contexts.Installing.{}

bound :
    {A B : Type 0} (o : Option A) (k : A → Option B) (d : B)
    → (elim o [ none ↦ none | some a ↦ k a ]) ≡ some d
    → (a : A) × (o ≡ some a) × (k a ≡ some d)
bound none k d h = absurd cc
bound (some a) k d h = (a, refl, h)

module _ (b : Bundles) (resources : JsMap Bytes) where
  -- The DNA that the bundle at a path of the app gives under the modifiers of its role.
  abbrev pub IsUnpacked : (path : Text) → DnaModifiers → DnaContext → Type 0
  IsUnpacked path modifiers dna =
      (bytes : Bytes) × (JsMap.get path resources ≡ some bytes)
      × ((bundle : DnaBundle) × (b.unpack_dna_bundle bytes ≡ some bundle)
          × ((manifest : DnaManifestRuntime) × (bundle.runtime_manifest ≡ some manifest)
              × ((wasm : Bytes) × (bundle.first_wasm ≡ some wasm)
                  × (let seed =
                        text_or modifiers.network_seed (non_empty_text bundle.network_seed) in
                      let properties = one_of modifiers.properties bundle.properties in
                      (hash : Bytes) × (b.compute_dna_hash (or_else seed []) properties bundle
                        ≡ some hash)
                      × (dna ≡ record {
                        hash = hash;
                        wasm = wasm;
                        name = some bundle.name;
                        properties = properties;
                        network_seed = seed;
                        manifest = some manifest;
                      })))))

  role_dna-IsUnpacked :
      (path : Text) (modifiers : DnaModifiers) (dna : DnaContext)
      → role_dna b resources path modifiers ≡ some dna
      → IsUnpacked path modifiers dna
  unfolding role_dna dna_of_bundle
  role_dna-IsUnpacked path modifiers dna h =
      let (bytes, e, h1) = bound (JsMap.get path resources) _ dna h in
      let (bundle, f, h2) = bound (b.unpack_dna_bundle bytes) _ dna h1 in
      let (manifest, g, h3) = bound bundle.runtime_manifest _ dna h2 in
      let (wasm, i, h4) = bound bundle.first_wasm _ dna h3 in
      let (hash, j, h5) = bound (b.compute_dna_hash _ _ bundle) _ dna h4 in
      (bytes, e, (bundle, f, (manifest, g, (wasm, i, (hash, j, cc)))))

  -- The DNAs of the roles, in their order; a role without a path has none.
  pub data Unpacks : List AppRole → List DnaContext → Type 0 where
    no_roles : Unpacks [] []
    without_path :
        (role : AppRole) (roles : List AppRole) (dnas : List DnaContext)
        → non_empty_text role.path ≡ none
        → Unpacks roles dnas
        → Unpacks (role ∷ roles) dnas
    with_path :
        (role : AppRole) (roles : List AppRole) (path : Text) (dna : DnaContext)
        (dnas : List DnaContext)
        → non_empty_text role.path ≡ some path
        → IsUnpacked path role.modifiers dna
        → Unpacks roles dnas
        → Unpacks (role ∷ roles) (dna ∷ dnas)

  unjoined :
      (dna : DnaContext) (o : Option (List DnaContext)) (dnas : List DnaContext)
      → joined b dna o ≡ some dnas
      → (others : List DnaContext) × (o ≡ some others) × (dna ∷ others ≡ dnas)
  unjoined dna none dnas h = absurd cc
  unjoined dna (some others) dnas h = (others, refl, cc)

  pub roles-Unpacks :
      (now : ℕ) (roles : List AppRole) (s : HappContextStorage) (dnas : List DnaContext)
      → (process_roles b resources now roles s).0 ≡ some dnas
      → Unpacks roles dnas
  unfolding process_roles
  roles-Unpacks now [] s dnas h = let p : [] ≡ dnas = cc in subst (λ t. Unpacks [] t) p no_roles
  roles-Unpacks now (role ∷ roles) s dnas h = elim (Option-cases (non_empty_text role.path)) [
    | inl e ↦
        let p : process_roles b resources now (role ∷ roles) s
            ≡ process_roles b resources now roles s =
          rw (e, process_roles) refl in
        without_path role roles dnas e (roles-Unpacks now roles s dnas (sym (ap (λ t. t.0) p) ∙ h))
    | inr (path, e) ↦ elim (Option-cases (role_dna b resources path role.modifiers)) [
      | inl f ↦
          let p : process_roles b resources now (role ∷ roles) s ≡ (none, s) =
            rw (e, process_roles, f) refl in
          absurd (let q = sym (ap (λ t. t.0) p) ∙ h in cc)
      | inr (dna, f) ↦
          let v = Storage.put_dna_wasm dna.hash dna.wasm now s in
          let rest = process_roles b resources now roles v in
          let p : process_roles b resources now (role ∷ roles) s ≡ (joined b dna rest.0, rest.1) =
            rw (e, process_roles, f) refl in
          let (others, g, k) = unjoined dna rest.0 dnas (sym (ap (λ t. t.0) p) ∙ h) in
          subst (Unpacks (role ∷ roles)) k (
            with_path role roles path dna others e (role_dna-IsUnpacked path role.modifiers dna f)
              (roles-Unpacks now roles v others g))
    ]
  ]
