-- ===== src/Extension/Auth/Answers.antt =====
-- How often a request is answered (packages/extension/src/lib/auth-manager.ts).
use holo_web_conductor.Common.{
  ℕ, ◌+◌, ◌≤◌, ◌≡◌, refl, ◌&&◌, none, some, List, [], ◌∷◌, ◌++◌, Text, if◌then◌else◌, arith,
  is_some, Option-cases, Bool-cases, inl, inr, seq_eq, seq_eq_iff, subst, seq_eq_refl,
}
use holo_web_conductor.Common.JsMap
use holo_web_conductor.Common.JsMap.{JsMap}
use holo_web_conductor.Extension.Auth.{
  AuthManager, PendingAuthRequest, Answered, Response, timed_out, new_manager, create_auth_request,
  set_pending_callback, settle, resolve_auth_request, timeout_auth_request, timeout_all,
  cleanup_expired, expired,
}

pub data Call : Type 0 where
  creates : (id origin : Text) (tab : ℕ) (message : Text) (now : ℕ) → Call
  sets_callback : Text → ℕ → Call
  resolves : Text → Response → Call
  fires : Text → Call
  cleans_up : (now : ℕ) → Call

unfoldable pub step : Call → AuthManager → AuthManager × List Answered
step (creates id origin tab message now) m = (create_auth_request id origin tab message now m, [])
step (sets_callback id callback) m = (set_pending_callback id callback m, [])
step (resolves id response) m = (resolve_auth_request id response m).1
step (fires id) m = timeout_auth_request id m
step (cleans_up now) m = cleanup_expired now m

-- The manager after some calls, the last of them first, and the callbacks that were called.
unfoldable pub run : List Call → AuthManager × List Answered
unfolding step
run [] = (new_manager, [])
run (c ∷ cs) = let (m, before) = run cs in let (m', now) = step c m in (m', before ++ now)

-- How often the callback of a request was called.
pub answers_to : Text → List Answered → ℕ
answers_to id [] = 0
answers_to id (a ∷ as_) = (if seq_eq a.id id then 1 else 0) + answers_to id as_

-- How often a request was created.
unfoldable pub times_created : Text → List Call → ℕ
times_created id [] = 0
times_created id (creates i origin tab message now ∷ cs) =
    (if seq_eq i id then 1 else 0) + times_created id cs
times_created id (_ ∷ cs) = times_created id cs

-- 1 while the request waits.
abbrev pub waiting : Text → AuthManager → ℕ
waiting id m = if is_some (JsMap.get id m.pending_requests) then 1 else 0

answers_to-append :
    (id : Text) (a b : List Answered) → answers_to id (a ++ b) ≡ answers_to id a + answers_to id b
unfolding answers_to
answers_to-append id [] b = omega arith
answers_to-append id (x ∷ a) b = omega (arith, answers_to-append id a b)

-- A handler answers a request at most as often as it waited before and no longer waits.
abbrev Answers : Text → AuthManager × List Answered → AuthManager → Type 0
Answers id x m = answers_to id x.1 + waiting id x.0 ≤ waiting id m

-- A request that waited no longer does once it is deleted.
deleted :
    (id i : Text) (r : PendingAuthRequest) (m : JsMap PendingAuthRequest)
    → JsMap.get i m ≡ some r
    → (if seq_eq i id then 1 else 0) + (if is_some (JsMap.get id (JsMap.delete i m)) then 1 else 0)
      ≤ (if is_some (JsMap.get id m) then 1 else 0)
deleted id i r m p = elim (Bool-cases (seq_eq i id)) [
  | inl e ↦
      let here : JsMap.get id m ≡ some r =
        subst (λ k. JsMap.get k m ≡ some r) ((seq_eq_iff i id).0 e) p in
      rw (e, JsMap.get-delete i id m, e, here) (omega arith)
  | inr e ↦ rw (e, JsMap.get-delete i id m, e) (omega arith)
]

settle-Answers :
    (id i : Text) (r : PendingAuthRequest) (response : Response) (m : AuthManager)
    → JsMap.get i m.pending_requests ≡ some r
    → Answers id (settle i response m) m
unfolding settle answers_to
settle-Answers id i r response m p = elim (Option-cases (JsMap.get i m.resolve_callbacks)) [
  | inl e ↦ rw (e, settle) (omega (arith, deleted id i r m.pending_requests p))
  | inr (callback, e) ↦ rw (e, settle) (omega (arith, deleted id i r m.pending_requests p))
]

timeout-Answers : (id i : Text) (m : AuthManager) → Answers id (timeout_auth_request i m) m
unfolding timeout_auth_request answers_to
timeout-Answers id i m = elim (Option-cases (JsMap.get i m.pending_requests)) [
  | inl e ↦ rw (e, timeout_auth_request) (omega arith)
  | inr (r, e) ↦ rw (e, timeout_auth_request) (settle-Answers id i r (timed_out r.message_id) m e)
]

resolve-Answers :
    (id i : Text) (response : Response) (m : AuthManager)
    → Answers id (resolve_auth_request i response m).1 m
unfolding resolve_auth_request answers_to
resolve-Answers id i response m = elim (Option-cases (JsMap.get i m.pending_requests)) [
  | inl e ↦ rw (e, resolve_auth_request) (omega arith)
  | inr (r, e) ↦ rw (e, resolve_auth_request) (settle-Answers id i r response m e)
]

timeout_all-Answers :
    (id : Text) (ids : List Text) (m : AuthManager) → Answers id (timeout_all ids m) m
unfolding timeout_all answers_to
timeout_all-Answers id [] m = omega arith
timeout_all-Answers id (i ∷ ids) m =
    let (m1, out1) = timeout_auth_request i m in
    let (m2, out2) = timeout_all ids m1 in
    omega
      (arith, answers_to-append id out1 out2, timeout-Answers id i m, timeout_all-Answers id ids m1)

-- A call answers a request at most as often as it waits or is created by it.
step-Answers :
    (id : Text) (c : Call) (m : AuthManager)
    → answers_to id (step c m).1 + waiting id (step c m).0
      ≤ waiting id m + times_created id (c ∷ [])
unfolding step cleanup_expired times_created answers_to create_auth_request set_pending_callback
step-Answers id (creates i origin tab message now) m =
    let request : PendingAuthRequest = record {
      origin = origin;
      tab_id = tab;
      message_id = message;
      timestamp = now;
    } in
    let read = JsMap.get-set i id request m.pending_requests in
    elim (Bool-cases (seq_eq i id)) [
      | inl e ↦ rw (e, read, e) (omega arith)
      | inr e ↦ rw (e, read, e) (omega arith)
    ]
step-Answers id (sets_callback i callback) m = omega arith
step-Answers id (resolves i response) m = omega (arith, resolve-Answers id i response m)
step-Answers id (fires i) m = omega (arith, timeout-Answers id i m)
step-Answers id (cleans_up now) m =
    omega (arith, timeout_all-Answers id (expired now m.pending_requests) m)

created_more :
    (id : Text) (c : Call) (cs : List Call)
    → times_created id (c ∷ cs) ≡ times_created id (c ∷ []) + times_created id cs
unfolding times_created
created_more id (creates i origin tab message now) cs = omega arith
created_more id c cs = omega arith

-- After any calls, timers and cleanups the callbacks that were given for a request were called at
-- most as often as it was created: of an id that was created once at most one answer is given, and
-- none while it still waits.
pub run-answered :
    (id : Text) (cs : List Call)
    → answers_to id (run cs).1 + waiting id (run cs).0 ≤ times_created id cs
unfolding run times_created answers_to JsMap.get
run-answered id [] = omega arith
run-answered id (c ∷ cs) =
    let m = (run cs).0 in
    omega (
      arith,
      answers_to-append id (run cs).1 (step c m).1,
      step-Answers id c m,
      run-answered id cs,
      created_more id c cs,
    )

-- Where a request waits it is resolved: the call says so, its callback, if one was given, is called
-- once, and the request waits no longer. Where it does not wait nothing is called.
pub resolve-settles :
    (id : Text) (response : Response) (m : AuthManager)
    → let x = resolve_auth_request id response m in
      (x.0 ≡ is_some (JsMap.get id m.pending_requests))
      × (answers_to id x.1.1 ≡ (
          if is_some (JsMap.get id m.pending_requests) && is_some (JsMap.get id m.resolve_callbacks)
          then 1
          else 0))
      × (JsMap.get id x.1.0.pending_requests ≡ none)
unfolding resolve_auth_request settle answers_to
resolve-settles id response m = elim (Option-cases (JsMap.get id m.pending_requests)) [
  | inl e ↦ rw (e, resolve_auth_request) (refl, refl, e)
  | inr (r, e) ↦
      let gone = JsMap.get-delete id id m.pending_requests in
      let same = seq_eq_refl id in
      elim (Option-cases (JsMap.get id m.resolve_callbacks)) [
        | inl f ↦ rw (e, resolve_auth_request, f, settle) (refl, refl, rw (gone, same) refl)
        | inr (callback, f) ↦
            rw (e, resolve_auth_request, f, settle) (refl, rw same refl, rw (gone, same) refl)
      ]
]
