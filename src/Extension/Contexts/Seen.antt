-- ===== src/Extension/Contexts/Seen.antt =====
-- What is seen of a context, and that the database gives it back as it was stored.
use holo_web_conductor.Common.{
  ℕ, ◌≡◌, refl, ap, Option, none, some, List, [], ◌∷◌, map, Bytes, arith, ◌%◌, ◌^◌,
}
use holo_web_conductor.Extension.Contexts.{
  ZomeDefinition, DnaManifestRuntime, DnaContext, HappContext, uint8_array, optional_array, zome_of,
  deserialize_manifest, dna_of, to_storable, from_storable,
}
use holo_web_conductor.Extension.Contexts.Rows.{}

-- Numbers as an array of bytes holds them.
abbrev pub bytes : List ℕ → Bytes
bytes numbers = map (λ n. n % 2 ^ 8) numbers

abbrev mapped : {A B : Type 0} → (A → B) → Option A → Option B
mapped f none = none
mapped f (some a) = some (f a)

abbrev pub whole_zome : ZomeDefinition → ZomeDefinition
whole_zome z = record z { wasm = mapped bytes z.wasm }

abbrev pub whole_manifest : DnaManifestRuntime → DnaManifestRuntime
whole_manifest m = record m {
  integrity_zomes = map whole_zome m.integrity_zomes;
  coordinator_zomes = map whole_zome m.coordinator_zomes;
}

-- A DNA with all its fields, its hash and its WASM in bytes.
abbrev pub whole_dna : DnaContext → DnaContext
whole_dna d = record d {
  hash = bytes d.hash;
  wasm = bytes d.wasm;
  manifest = mapped whole_manifest d.manifest;
}

-- A context with all its fields but the time of its last use: its key, its hashes and its WASM are
-- in bytes.
unfoldable pub seen : HappContext → HappContext
seen c = record c {
  last_used = 0;
  agent_pub_key = bytes c.agent_pub_key;
  dnas = map whole_dna c.dnas;
}

map-after :
    {A : Type 0} (f g : A → A) (xs : List A)
    → ((x : A) → f (g x) ≡ f x)
    → map f (map g xs) ≡ map f xs
map-after f g [] h = refl
map-after f g (x ∷ xs) h = rw (h x, map-after f g xs h) refl

bytes-uint8_array : (numbers : List ℕ) → bytes (uint8_array numbers) ≡ bytes numbers
unfolding uint8_array
bytes-uint8_array [] = refl
bytes-uint8_array (n ∷ numbers) = grind (arith, bytes-uint8_array numbers)

bytes-optional : (o : Option Bytes) → mapped bytes (optional_array o) ≡ mapped bytes o
bytes-optional none = refl
bytes-optional (some numbers) = ap some (bytes-uint8_array numbers)

whole_zome-zome_of : (z : ZomeDefinition) → whole_zome (zome_of z) ≡ whole_zome z
unfolding zome_of
whole_zome-zome_of z = ap (λ (w : Option Bytes). record z { wasm = w }) (bytes-optional z.wasm)

whole_manifest-deserialize :
    (m : Option DnaManifestRuntime)
    → mapped whole_manifest (deserialize_manifest m) ≡ mapped whole_manifest m
unfolding deserialize_manifest
whole_manifest-deserialize none = refl
whole_manifest-deserialize (some m) =
    rw
      (
        map-after whole_zome zome_of m.integrity_zomes whole_zome-zome_of,
        map-after whole_zome zome_of m.coordinator_zomes whole_zome-zome_of,
      )
      refl

whole_dna-dna_of : (d : DnaContext) → whole_dna (dna_of d) ≡ whole_dna d
unfolding dna_of
whole_dna-dna_of d =
    rw (bytes-uint8_array d.hash, bytes-uint8_array d.wasm, whole_manifest-deserialize d.manifest)
      refl

-- What was stored is seen as it was.
pub seen-from_storable : (c : HappContext) → seen (from_storable (to_storable c)) ≡ seen c
unfolding seen from_storable to_storable
seen-from_storable c =
    rw (bytes-uint8_array c.agent_pub_key, map-after whole_dna dna_of c.dnas whole_dna-dna_of) refl
