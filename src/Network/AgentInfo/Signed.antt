-- ===== src/Network/AgentInfo/Signed.antt =====
-- Which agent infos are signed (packages/core/src/network/agent-info-validator.ts).
use holo_web_conductor.Common.{
  ℕ, ◌+◌, ◌*◌, ◌≤◌, ◌<◌, ◌≡◌, ◌≢◌, refl, sym, ◌∙◌, ap, Bool, true, false, ◌&&◌, ◌||◌, Option, none,
  some, List, Bytes, Text, if◌then◌else◌, leb, length, any, seq_eq, seq_eq_iff, seq_eq_refl,
  is_some, arith, Option-cases, inl, inr,
}
use holo_web_conductor.Network.AgentInfo.{
  AgentInfoFields, Fault, not_decoded, has_arc, Verdict, is_valid, raises, invalid, core,
  five_minutes_micros, validate_times, decode_holo_hash, decode_url, check_agent, compare_agent,
  validate_rest, validate_agent_info,
}

-- What is signed is fresh, of a known space, and has no url if it is a tombstone.
pub record IsFresh (now created expires : ℕ) (info : AgentInfoFields) (spaces : List Text)
    : Type 0 where
  pub not_late : now * 1000 ≤ created + five_minutes_micros
  pub not_early : created ≤ now * 1000 + five_minutes_micros
  pub lasts : created < expires
  pub silent : (info.is_tombstone && is_some info.url) ≡ false
  pub known : (leb (length spaces) 0 || any (λ s. seq_eq s info.space) spaces) ≡ true

times-IsFresh :
    (now created expires : ℕ) (info : AgentInfoFields) (spaces : List Text)
    → validate_times now created expires info spaces ≡ is_valid
    → IsFresh now created expires info spaces
unfolding validate_times
times-IsFresh now created expires info spaces h = record {
  not_late = ground arith;
  not_early = ground arith;
  lasts = ground arith;
  silent = ground arith;
  known = ground arith;
}

is_fresh :
    (now created expires : ℕ) (info : AgentInfoFields) (spaces : List Text)
    → IsFresh now created expires info spaces
    → validate_times now created expires info spaces ≡ is_valid
unfolding validate_times
is_fresh now created expires info spaces f =
    ground (arith, f.not_late, f.not_early, f.lasts, f.silent, f.known)

a_fault : (f : Fault) → some f ≢ none
a_fault f e = cc

raised : ◌≢◌ {A = Verdict} raises is_valid
raised e = cc

not_valid : (f : Fault) → invalid f ≢ is_valid
not_valid f e = cc

without_arc :
    (arc : Bool) (rest : Verdict)
    → (if arc then invalid has_arc else rest) ≡ is_valid
    → (arc ≡ false) × (rest ≡ is_valid)
without_arc true rest h = absurd (not_valid has_arc h)
without_arc false rest h = (refl, h)

compared : (agent expected : Bytes) → compare_agent agent expected ≡ none → agent ≡ expected
unfolding compare_agent
compared agent expected h = ground (arith, seq_eq_iff agent expected)

same_bytes : (b : Bytes) → compare_agent b b ≡ none
unfolding compare_agent
same_bytes b = ground (arith, seq_eq_refl b)

module _ (atob : Text → Option Bytes) (big_int : Text → Option ℕ) where
  no_key :
      (info : AgentInfoFields) (pubkey : Text)
      → decode_holo_hash atob big_int pubkey ≡ none
      → check_agent atob big_int info pubkey ≡ some not_decoded
  unfolding check_agent
  no_key info pubkey e = rw (e, check_agent) refl

  no_agent :
      (info : AgentInfoFields) (pubkey : Text) (key : Bytes)
      → decode_holo_hash atob big_int pubkey ≡ some key
      → decode_url atob big_int info.agent ≡ none
      → check_agent atob big_int info pubkey ≡ some not_decoded
  unfolding check_agent
  no_agent info pubkey key e f = rw (e, check_agent, compare_agent, f) refl

  two_keys :
      (info : AgentInfoFields) (pubkey : Text) (key agent : Bytes)
      → decode_holo_hash atob big_int pubkey ≡ some key
      → decode_url atob big_int info.agent ≡ some agent
      → check_agent atob big_int info pubkey ≡ compare_agent agent (core key)
  unfolding check_agent
  two_keys info pubkey key agent e f = rw (e, check_agent, compare_agent, f) refl

  -- The info is of the agent that the request names.
  pub record IsOf (info : AgentInfoFields) (pubkey : Text) : Type 0 where
    pub key : Bytes
    pub has_key : decode_holo_hash atob big_int pubkey ≡ some key
    pub same_agent : decode_url atob big_int info.agent ≡ some (core key)

  check_agent-IsOf :
      (info : AgentInfoFields) (pubkey : Text)
      → check_agent atob big_int info pubkey ≡ none
      → IsOf info pubkey
  check_agent-IsOf info pubkey h = elim (Option-cases (decode_holo_hash atob big_int pubkey)) [
    | inl e ↦ absurd (a_fault not_decoded (sym (no_key info pubkey e) ∙ h))
    | inr (key, e) ↦ elim (Option-cases (decode_url atob big_int info.agent)) [
      | inl f ↦ absurd (a_fault not_decoded (sym (no_agent info pubkey key e f) ∙ h))
      | inr (agent, f) ↦ record {
        key = key;
        has_key = e;
        same_agent =
            f ∙ ap some (compared agent (core key) (sym (two_keys info pubkey key agent e f) ∙ h));
      }
    ]
  ]

  no_created :
      (now : ℕ) (info : AgentInfoFields) (spaces : List Text)
      → big_int info.created_at ≡ none
      → validate_rest atob big_int now info spaces ≡ raises
  unfolding validate_rest
  no_created now info spaces e = rw (e, validate_rest) refl

  no_expires :
      (now created : ℕ) (info : AgentInfoFields) (spaces : List Text)
      → big_int info.created_at ≡ some created
      → big_int info.expires_at ≡ none
      → validate_rest atob big_int now info spaces ≡ raises
  unfolding validate_rest
  no_expires now created info spaces e f = rw (e, validate_rest, f) refl

  two_times :
      (now created expires : ℕ) (info : AgentInfoFields) (spaces : List Text)
      → big_int info.created_at ≡ some created
      → big_int info.expires_at ≡ some expires
      → validate_rest atob big_int now info spaces ≡ validate_times now created expires info spaces
  unfolding validate_rest
  two_times now created expires info spaces e f = rw (e, validate_rest, f) refl

  -- Its times are numbers, and it is fresh by them.
  pub record IsTimely (now : ℕ) (info : AgentInfoFields) (spaces : List Text) : Type 0 where
    pub created : ℕ
    pub expires : ℕ
    pub reads_created : big_int info.created_at ≡ some created
    pub reads_expires : big_int info.expires_at ≡ some expires
    pub fresh : IsFresh now created expires info spaces

  rest-IsTimely :
      (now : ℕ) (info : AgentInfoFields) (spaces : List Text)
      → validate_rest atob big_int now info spaces ≡ is_valid
      → IsTimely now info spaces
  rest-IsTimely now info spaces h = elim (Option-cases (big_int info.created_at)) [
    | inl e ↦ absurd (raised (sym (no_created now info spaces e) ∙ h))
    | inr (created, e) ↦ elim (Option-cases (big_int info.expires_at)) [
      | inl f ↦ absurd (raised (sym (no_expires now created info spaces e f) ∙ h))
      | inr (expires, f) ↦ record {
        created = created;
        expires = expires;
        reads_created = e;
        reads_expires = f;
        fresh =
            times-IsFresh now created expires info spaces
              (sym (two_times now created expires info spaces e f) ∙ h);
      }
    ]
  ]

  checked :
      (now : ℕ) (info : AgentInfoFields) (pubkey : Text) (spaces : List Text)
      → check_agent atob big_int info pubkey ≡ none
      → validate_agent_info atob big_int now info pubkey spaces ≡ (
          if is_some info.storage_arc
          then invalid has_arc
          else validate_rest atob big_int now info spaces)
  unfolding validate_agent_info
  checked now info pubkey spaces e = rw (e, validate_agent_info) refl

  refused :
      (now : ℕ) (info : AgentInfoFields) (pubkey : Text) (spaces : List Text) (f : Fault)
      → check_agent atob big_int info pubkey ≡ some f
      → validate_agent_info atob big_int now info pubkey spaces ≡ invalid f
  unfolding validate_agent_info
  refused now info pubkey spaces f e = rw (e, validate_agent_info) refl

  -- An info is held for valid only if its agent decodes to what follows the first 3 bytes
  -- of the request's key, at most 32 of them (the length of the key is not looked at), it claims no arc, its times are whole numbers, it was made within five minutes
  -- of now and ends after it was made, it has no url if it is a tombstone, and its space is among
  -- the registered ones, if there are any.
  pub validate-IsOf :
      (now : ℕ) (info : AgentInfoFields) (pubkey : Text) (spaces : List Text)
      → validate_agent_info atob big_int now info pubkey spaces ≡ is_valid
      → IsOf info pubkey × (is_some info.storage_arc ≡ false) × IsTimely now info spaces
  validate-IsOf now info pubkey spaces h =
      elim (Option-cases (check_agent atob big_int info pubkey)) [
        | inr (f, e) ↦ absurd (not_valid f (sym (refused now info pubkey spaces f e) ∙ h))
        | inl e ↦
            let h' = sym (checked now info pubkey spaces e) ∙ h in
            let (no_arc, rest) = without_arc (is_some info.storage_arc) _ h' in
            (check_agent-IsOf info pubkey e, no_arc, rest-IsTimely now info spaces rest)
      ]

  -- Such an info is held for valid.
  pub IsOf-validate :
      (now : ℕ) (info : AgentInfoFields) (pubkey : Text) (spaces : List Text)
      → IsOf info pubkey
      → is_some info.storage_arc ≡ false
      → IsTimely now info spaces
      → validate_agent_info atob big_int now info pubkey spaces ≡ is_valid
  IsOf-validate now info pubkey spaces a n t =
      let agreed =
        two_keys info pubkey a.key (core a.key) a.has_key a.same_agent ∙ same_bytes (core a.key) in
      let timely =
        two_times now t.created t.expires info spaces t.reads_created t.reads_expires
        ∙ is_fresh now t.created t.expires info spaces t.fresh in
      checked now info pubkey spaces agreed ∙ rw n timely
