-- ===== src/Extension/Contexts/Manager.antt =====
-- packages/extension/src/lib/happ-context-manager.ts, `HappContextManager`: how the apps of the
-- domains are installed, enabled, recovered and removed. The key store gives the key of a tag; the
-- permissions are those of `PermissionManager`. The clock, a new id and the key of a new seed are
-- arguments, as is what reads bundles and hashes a DNA. The key store is taken not to fail.
use holo_web_conductor.Common.{
  ℕ, ◌==◌, Bool, Option, none, some, List, [], ◌∷◌, ◌++◌, Bytes, Text, codes, length, if◌then◌else◌,
  or_else,
}
use holo_web_conductor.Common.JsMap
use holo_web_conductor.Common.JsMap.{JsMap}
use holo_web_conductor.Extension.Permissions.{PermissionManager}
use holo_web_conductor.Extension.Lock.{non_empty_text}
use holo_web_conductor.Extension.Contexts.{DnaManifestRuntime, DnaContext, HappContextStorage}
use holo_web_conductor.Extension.Contexts.Storage

pub record HappContextManager : Type 0 where
  pub storage : HappContextStorage
  pub lair : JsMap Bytes
  pub permission_manager : PermissionManager

pub data ContextError : Type 0 where
  permissions_error : ContextError
  not_authorized : ContextError
  already_installed : ContextError
  bundle_error : ContextError
  bad_key : ContextError
  no_dnas : ContextError
  not_stored : ContextError
  not_found : ContextError
  awaits_memproofs : ContextError
  not_awaiting : ContextError

pub data ContextResult (A : Type 0) : Type 0 where
  gives : A → ContextResult A
  throws : ContextError → ContextResult A

-- `DnaModifiers`, the two that are used.
pub record DnaModifiers : Type 0 where
  pub network_seed : Option Text
  pub properties : Option Bytes

pub record AppRole : Type 0 where
  pub path : Option Text
  pub modifiers : DnaModifiers

pub record AppBundle : Type 0 where
  pub name : Text
  pub roles : List AppRole
  pub allow_deferred_memproofs : Bool
  pub resources : JsMap Bytes

-- An unpacked DNA, with what `createRuntimeManifest` and `getFirstWasm` make of it.
pub record DnaBundle : Type 0 where
  pub name : Text
  pub network_seed : Option Text
  pub properties : Option Bytes
  pub runtime_manifest : Option DnaManifestRuntime
  pub first_wasm : Option Bytes

-- `unpackHappBundle`, `unpackDnaBundle`, the hash of a DNA by its modifiers, and
-- `hashFrom32AndType` for an agent; what throws is none.
pub record Bundles : Type 0 where
  pub unpack_happ_bundle : Bytes → Option AppBundle
  pub unpack_dna_bundle : Bytes → Option DnaBundle
  pub compute_dna_hash : Text → Option Bytes → DnaBundle → Option Bytes
  pub agent_hash : Bytes → Bytes

pub record InstallHappRequest : Type 0 where
  pub app_name : Option Text
  pub app_version : Option Text
  pub happ_bundle : Bytes
  pub agent_key_tag : Option Text

-- `a || b` on texts that may be missing.
abbrev pub text_or : Option Text → Option Text → Option Text
text_or none b = b
text_or (some []) b = b
text_or (some (c ∷ a)) b = some (c ∷ a)

-- `a || b` on objects that may be missing.
abbrev pub one_of : Option Bytes → Option Bytes → Option Bytes
one_of none b = b
one_of (some a) b = some a

-- `getEntry`, or the key of a new seed.
unfoldable pub key_of_tag : Text → (seed : Bytes) → JsMap Bytes → Bytes × JsMap Bytes
key_of_tag tag seed lair = elim (JsMap.get tag lair) [
  | none ↦ (seed, JsMap.set tag seed lair)
  | some key ↦ (key, lair)
]

-- `${domain}:agent`
abbrev pub domain_tag : Text → Text
domain_tag domain = domain ++ codes ":agent"

module _ (b : Bundles) where
  -- `wrapAsAgentPubKey`
  unfoldable pub wrap_as_agent_pub_key : Bytes → Option Bytes
  wrap_as_agent_pub_key key = if length key == 32 then some (b.agent_hash key) else none

  -- `getOrCreateAgentKey`
  unfoldable pub get_or_create_agent_key :
      Text → (seed : Bytes) → HappContextManager → ContextResult Bytes × HappContextManager
  unfolding key_of_tag wrap_as_agent_pub_key
  get_or_create_agent_key domain seed m =
      let (key, lair) = key_of_tag (domain_tag domain) seed m.lair in
      (
        elim (wrap_as_agent_pub_key key) [ none ↦ throws bad_key | some hash ↦ gives hash ],
        record m { lair = lair },
      )

  -- The DNA of a role, once it is unpacked.
  unfoldable pub dna_of_bundle : DnaModifiers → DnaBundle → Option DnaContext
  dna_of_bundle modifiers dna = elim dna.runtime_manifest [
    | none ↦ none
    | some manifest ↦ elim dna.first_wasm [
      | none ↦ none
      | some wasm ↦
          let seed = text_or modifiers.network_seed (non_empty_text dna.network_seed) in
          let properties = one_of modifiers.properties dna.properties in
          elim (b.compute_dna_hash (or_else seed []) properties dna) [
            | none ↦ none
            | some hash ↦ some (record {
              hash = hash;
              wasm = wasm;
              name = some dna.name;
              properties = properties;
              network_seed = seed;
              manifest = some manifest;
            })
          ]
    ]
  ]

  unfoldable pub role_dna : JsMap Bytes → (path : Text) → DnaModifiers → Option DnaContext
  unfolding dna_of_bundle
  role_dna resources path modifiers = elim (JsMap.get path resources) [
    | none ↦ none
    | some bytes ↦ elim (b.unpack_dna_bundle bytes) [
      | none ↦ none
      | some dna ↦ dna_of_bundle modifiers dna
    ]
  ]

  abbrev pub joined : DnaContext → Option (List DnaContext) → Option (List DnaContext)
  joined dna none = none
  joined dna (some dnas) = some (dna ∷ dnas)

  -- The loop over the roles: a role without a path is skipped, a bad one ends the loop.
  unfoldable pub process_roles :
      JsMap Bytes
      → (now : ℕ) → List AppRole
      → HappContextStorage
      → Option (List DnaContext) × HappContextStorage
  unfolding role_dna
  process_roles resources now [] s = (some [], s)
  process_roles resources now (role ∷ roles) s = elim (non_empty_text role.path) [
    | none ↦ process_roles resources now roles s
    | some path ↦ elim (role_dna resources path role.modifiers) [
      | none ↦ (none, s)
      | some dna ↦
          let (dnas, v) =
            process_roles resources now roles (Storage.put_dna_wasm dna.hash dna.wasm now s) in
          (joined dna dnas, v)
    ]
  ]
