-- ===== src/Extension/Contexts/Kept.antt =====
-- What the effects of the calls keep of a context.
use holo_web_conductor.Common.{
  ◌≡◌, refl, sym, ◌∙◌, ◌≢◌, inl, inr, true, false, Option, none, some, List, [], ◌∷◌, All, Text,
  seq_eq, seq_eq_iff, Bool-cases,
}
use holo_web_conductor.Extension.Contexts.{HappContext}
use holo_web_conductor.Extension.Contexts.Lifecycle.{is_awaiting, is_sealed, enabling, sealing}
use holo_web_conductor.Extension.Contexts.Answers.{if_cases}
use holo_web_conductor.Extension.Contexts.Changes.{at_id}
use holo_web_conductor.Extension.Contexts.Methods.{
  enabled_as, completed, sealed_as, waits, closed, waits_lem, closed_lem,
}
use holo_web_conductor.Extension.Contexts.Removing.{removed}
use holo_web_conductor.Extension.Contexts.Runs.{
  ContextCall, installs, looks_up, gets, lists, uninstalls, enables, provides, completes, marks,
  seals, touches, makes_key, elsewhere, starts_anew, effect,
}

-- A predicate of the context, if there is one.
abbrev pub Holds : (HappContext → Type 0) → Option HappContext → Type 0
Holds P none = Unit
Holds P (some c) = P c

-- The calls that do not end a property of the context of an id.
abbrev pub Preserves : (HappContext → Type 0) → Text → ContextCall → Type 0
Preserves P j call = (c : HappContext) → P c → Holds P (effect call j c)

at_id-Holds :
    (P : HappContext → Type 0) (id j : Text) (f : HappContext → Option HappContext)
    (c : HappContext)
    → P c
    → (seq_eq id j ≡ true → Holds P (f c))
    → Holds P (at_id id f j c)
at_id-Holds P id j f c p h = elim (Bool-cases (seq_eq id j)) [ inl e ↦ rw e (h e) | inr e ↦ rw e p ]

abbrev pub IsSealed : HappContext → Type 0
IsSealed c = is_sealed c.recovery_sealed ≡ true

abbrev pub IsParked : HappContext → Type 0
IsParked c = (is_awaiting c.status ≡ true) × (c.enabled ≡ false)

-- The call does not complete the proofs of the context of the id.
abbrev pub IsNotCompleting : Text → ContextCall → Type 0
IsNotCompleting j (completes id) = id ≢ j
IsNotCompleting j _ = Unit

false-true : false ≢ true
false-true e = cc

pub IsSealed-Preserves : (j : Text) (call : ContextCall) → Preserves IsSealed j call
unfolding effect
IsSealed-Preserves j (installs domain request id now seed) c h = h
IsSealed-Preserves j (looks_up domain) c h = h
IsSealed-Preserves j (gets id) c h = h
IsSealed-Preserves j lists c h = h
IsSealed-Preserves j (uninstalls id) c h = at_id-Holds IsSealed id j removed c h (λ e. tt)
IsSealed-Preserves j (enables id true) c h =
    at_id-Holds IsSealed id j (enabled_as true) c h
      (λ e. if_cases IsSealed (waits c.status) c (enabling true c) (λ t. h) (λ t. h))
IsSealed-Preserves j (enables id false) c h =
    at_id-Holds IsSealed id j (enabled_as false) c h
      (λ e. if_cases IsSealed (waits c.status) c (enabling false c) (λ t. h) (λ t. h))
IsSealed-Preserves j (provides id) c h = h
IsSealed-Preserves j (completes id) c h = at_id-Holds IsSealed id j completed c h (λ e. h)
IsSealed-Preserves j (marks id) c h = at_id-Holds IsSealed id j (sealed_as false) c h (λ e.
    if_cases IsSealed (closed c.recovery_sealed) c (sealing false c) (λ t. h)
      (λ t. sym t ∙ closed_lem c.recovery_sealed ∙ h))
IsSealed-Preserves j (seals id) c h =
    at_id-Holds IsSealed id j (sealed_as true) c h
      (λ e. if_cases IsSealed (closed c.recovery_sealed) c (sealing true c) (λ t. h) (λ t. refl))
IsSealed-Preserves j (touches id now) c h = h
IsSealed-Preserves j (makes_key domain seed) c h = h
IsSealed-Preserves j (elsewhere permissions lair) c h = h
IsSealed-Preserves j starts_anew c h = h

pub IsParked-Preserves :
    (j : Text) (call : ContextCall) → IsNotCompleting j call → Preserves IsParked j call
unfolding effect
IsParked-Preserves j (installs domain request id now seed) n c h = h
IsParked-Preserves j (looks_up domain) n c h = h
IsParked-Preserves j (gets id) n c h = h
IsParked-Preserves j lists n c h = h
IsParked-Preserves j (uninstalls id) n c h = at_id-Holds IsParked id j removed c h (λ e. tt)
IsParked-Preserves j (enables id true) n c h = at_id-Holds IsParked id j (enabled_as true) c h (λ e.
    if_cases IsParked (waits c.status) c (enabling true c) (λ t. h)
      (λ t. absurd (false-true (sym t ∙ waits_lem c.status ∙ h.0))))
IsParked-Preserves j (enables id false) n c h =
    at_id-Holds IsParked id j (enabled_as false) c h (λ e.
      if_cases IsParked (waits c.status) c (enabling false c) (λ t. h)
        (λ t. absurd (false-true (sym t ∙ waits_lem c.status ∙ h.0))))
IsParked-Preserves j (provides id) n c h = h
IsParked-Preserves j (completes id) n c h =
    at_id-Holds IsParked id j completed c h (λ e. absurd (n ((seq_eq_iff id j).0 e)))
IsParked-Preserves j (marks id) n c h =
    at_id-Holds IsParked id j (sealed_as false) c h
      (λ e. if_cases IsParked (closed c.recovery_sealed) c (sealing false c) (λ t. h) (λ t. h))
IsParked-Preserves j (seals id) n c h =
    at_id-Holds IsParked id j (sealed_as true) c h
      (λ e. if_cases IsParked (closed c.recovery_sealed) c (sealing true c) (λ t. h) (λ t. h))
IsParked-Preserves j (touches id now) n c h = h
IsParked-Preserves j (makes_key domain seed) n c h = h
IsParked-Preserves j (elsewhere permissions lair) n c h = h
IsParked-Preserves j starts_anew n c h = h

pub All-IsSealed : (j : Text) (calls : List ContextCall) → All (Preserves IsSealed j) calls
All-IsSealed j [] = tt
All-IsSealed j (call ∷ calls) = (IsSealed-Preserves j call, All-IsSealed j calls)

pub All-IsParked :
    (j : Text) (calls : List ContextCall)
    → All (IsNotCompleting j) calls
    → All (Preserves IsParked j) calls
All-IsParked j [] n = tt
All-IsParked j (call ∷ calls) (n, ns) = (IsParked-Preserves j call n, All-IsParked j calls ns)
