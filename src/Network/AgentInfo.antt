-- ===== src/Network/AgentInfo.antt =====
-- packages/core/src/network/agent-info-validator.ts: which agent infos of the linker are signed.
-- The browser's `atob`, `BigInt` of a text that is no negative number, and `JSON.stringify` of a
-- text are parameters; none stands for an exception of theirs.
pub mod Signed
use holo_web_conductor.Common.{
  ℕ, zero, suc, ◌+◌, ◌-◌, ◌*◌, ◌%◌, ◌==◌, ◌≤◌, ◌<◌, ◌≡◌, ◌↔◌, refl, Bool, true, false, not, ◌&&◌,
  ◌||◌, Option, none, some, List, [], ◌∷◌, ◌++◌, Bytes, Text, if◌then◌else◌, leb, ltb, length, drop,
  map, any, seq_eq, seq_eq_iff, codes, decimal, is_some, arith, Option-cases, Bool-cases, inl, inr,
}

-- `AgentInfoFields`
pub record AgentInfoFields : Type 0 where
  pub agent : Text
  pub space : Text
  pub created_at : Text
  pub expires_at : Text
  pub is_tombstone : Bool
  pub url : Option Text
  pub storage_arc : Option (ℕ × ℕ)

-- The errors of a `ValidationResult`.
pub data Fault : Type 0 where
  length_mismatch : (found expected : ℕ) → Fault
  wrong_agent not_decoded has_arc too_far expires_early tombstone_url unknown_space : Fault

-- `ValidationResult`, or an exception.
pub data Verdict : Type 0 where
  is_valid raises : Verdict
  invalid : Fault → Verdict

abbrev pub standard_digit : ℕ → ℕ
standard_digit c = if c == 45 then 43 else if c == 95 then 47 else c

abbrev pub equal_signs : ℕ → Text
equal_signs zero = []
equal_signs (suc n) = 61 ∷ equal_signs n

-- The text that `base64UrlNoPadDecode` hands to `atob`.
unfoldable pub padded : Text → Text
padded s =
    let standard = map standard_digit s in standard ++ equal_signs ((4 - length standard % 4) % 4)

abbrev pub without_u : Text → Text
without_u [] = []
without_u (c ∷ cs) = if c == 117 then cs else c ∷ cs

abbrev pub first : ℕ → Bytes → Bytes
first zero bs = []
first (suc n) [] = []
first (suc n) (b ∷ bs) = b ∷ first n bs

-- The 32 bytes of a hash of 39, `slice(3, 35)`.
abbrev pub core : Bytes → Bytes
core bs = first 32 (drop 3 bs)

abbrev pub five_minutes_micros : ℕ
five_minutes_micros = 5 * 60 * 1000000

-- The difference either way.
abbrev pub distance : ℕ → ℕ → ℕ
distance a b = if ltb b a then a - b else b - a

-- The steps after the agent and the arc.
unfoldable pub validate_times :
    (now_millis created expires : ℕ) → AgentInfoFields → List Text → Verdict
validate_times now created expires info spaces =
    if ltb five_minutes_micros (distance created (now * 1000))
    then invalid too_far
    else if leb expires created
    then invalid expires_early
    else if info.is_tombstone && is_some info.url
    then invalid tombstone_url
    else if not (leb (length spaces) 0) && not (any (λ s. seq_eq s info.space) spaces)
    then invalid unknown_space
    else is_valid

-- The lengths, then the bytes.
unfoldable pub compare_agent : (agent expected : Bytes) → Option Fault
compare_agent agent expected =
    if not (leb (length agent) (length expected) && leb (length expected) (length agent))
    then some (length_mismatch (length agent) (length expected))
    else if seq_eq agent expected
    then none
    else some wrong_agent

module _ (atob : Text → Option Bytes) (big_int : Text → Option ℕ) where
  -- `decodeHoloHashBase64` and `base64UrlNoPadDecode`, one after the other.
  unfoldable pub decode_holo_hash : Text → Option Bytes
  unfolding padded
  decode_holo_hash s = atob (padded (without_u s))

  unfoldable pub decode_url : Text → Option Bytes
  unfolding padded
  decode_url s = atob (padded s)

  -- The first step: the agent of the info is the one of the request.
  unfoldable pub check_agent : AgentInfoFields → Text → Option Fault
  unfolding decode_holo_hash decode_url compare_agent
  check_agent info pubkey = elim (decode_holo_hash pubkey) [
    | none ↦ some not_decoded
    | some key ↦ elim (decode_url info.agent) [
      | none ↦ some not_decoded
      | some agent ↦ compare_agent agent (core key)
    ]
  ]

  unfoldable pub validate_rest : (now : ℕ) → AgentInfoFields → List Text → Verdict
  unfolding validate_times
  validate_rest now info spaces = elim (big_int info.created_at) [
    | none ↦ raises
    | some created ↦ elim (big_int info.expires_at) [
      | none ↦ raises
      | some expires ↦ validate_times now created expires info spaces
    ]
  ]

  -- `validateAgentInfo`; no registered spaces and none given are the same.
  unfoldable pub validate_agent_info :
      (now : ℕ) → AgentInfoFields → (pubkey : Text) → List Text → Verdict
  unfolding check_agent validate_rest
  validate_agent_info now info pubkey spaces =
      let rest = validate_rest now info spaces in
      elim (check_agent info pubkey) [
        | some fault ↦ invalid fault
        | none ↦ if is_some info.storage_arc then invalid has_arc else rest
      ]

-- `serializeAgentInfoCanonical`
unfoldable pub serialize_agent_info_canonical : (stringify : Text → Text) → AgentInfoFields → Text
serialize_agent_info_canonical stringify info =
    codes "{\"agent\":"
    ++ stringify info.agent
    ++ codes ",\"space\":"
    ++ stringify info.space
    ++ codes ",\"createdAt\":"
    ++ stringify info.created_at
    ++ codes ",\"expiresAt\":"
    ++ stringify info.expires_at
    ++ codes ",\"isTombstone\":"
    ++ (if info.is_tombstone then codes "true" else codes "false")
    ++ codes ",\"url\":"
    ++ elim info.url [ none ↦ codes "null" | some u ↦ stringify u ]
    ++ codes ",\"storageArc\":"
    ++ elim info.storage_arc [
      | none ↦ codes "null"
      | some arc ↦ codes "[" ++ decimal arc.0 ++ codes "," ++ decimal arc.1 ++ codes "]"
    ]
    ++ codes "}"
