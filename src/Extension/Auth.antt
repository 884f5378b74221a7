-- ===== src/Extension/Auth.antt =====
-- packages/extension/src/lib/auth-manager.ts: `AuthManager`, the requests that wait for the user.
-- A request's new id and the clock are arguments; a timer that fires is a call of
-- `timeout_auth_request`, and one that was cleared does not fire. Callbacks do not throw.
pub mod Answers
use holo_web_conductor.Common.{
  ℕ, ◌-◌, Bool, true, false, Option, none, some, List, [], ◌∷◌, ◌++◌, Text, if◌then◌else◌, ltb,
}
use holo_web_conductor.Common.JsMap
use holo_web_conductor.Common.JsMap.{JsMap}

-- `PendingAuthRequest`; the timer is known by the id.
pub record PendingAuthRequest : Type 0 where
  pub origin : Text
  pub tab_id : ℕ
  pub message_id : Text
  pub timestamp : ℕ

-- A `ResponseMessage`: the one that is given, or the error of a timeout, which names the message.
pub data Response : Type 0 where
  given : Text → Response
  timed_out : (message_id : Text) → Response

-- A callback is known by a number.
pub record AuthManager : Type 0 where
  pub pending_requests : JsMap PendingAuthRequest
  pub resolve_callbacks : JsMap ℕ

-- A call of the callback of a request.
pub record Answered : Type 0 where
  pub id : Text
  pub callback : ℕ
  pub response : Response

abbrev pub request_timeout_ms : ℕ
request_timeout_ms = 120000

-- A new manager.
abbrev pub new_manager : AuthManager
new_manager = record { pending_requests = []; resolve_callbacks = [] }

-- `createAuthRequest`
unfoldable pub create_auth_request :
    (id origin : Text) (tab : ℕ) (message : Text) (now : ℕ) → AuthManager → AuthManager
create_auth_request id origin tab message now m = record m {
  pending_requests =
      JsMap.set id (record { origin = origin; tab_id = tab; message_id = message; timestamp = now })
        m.pending_requests;
}

-- `setPendingCallback`
unfoldable pub set_pending_callback : Text → ℕ → AuthManager → AuthManager
set_pending_callback id callback m = record m {
  resolve_callbacks = JsMap.set id callback m.resolve_callbacks;
}

-- The callback, if there is one, is called and forgotten, and the request too.
unfoldable pub settle : Text → Response → AuthManager → AuthManager × List Answered
settle id response m = elim (JsMap.get id m.resolve_callbacks) [
  | none ↦ (record m { pending_requests = JsMap.delete id m.pending_requests }, [])
  | some callback ↦ (
    record {
      pending_requests = JsMap.delete id m.pending_requests;
      resolve_callbacks = JsMap.delete id m.resolve_callbacks;
    },
    record { id = id; callback = callback; response = response } ∷ [],
  )
]

-- `resolveAuthRequest`
unfoldable pub resolve_auth_request :
    Text → Response → AuthManager → Bool × (AuthManager × List Answered)
unfolding settle
resolve_auth_request id response m = elim (JsMap.get id m.pending_requests) [
  | none ↦ (false, (m, []))
  | some request ↦ (true, settle id response m)
]

-- `timeoutAuthRequest`
unfoldable pub timeout_auth_request : Text → AuthManager → AuthManager × List Answered
unfolding settle
timeout_auth_request id m = elim (JsMap.get id m.pending_requests) [
  | none ↦ (m, [])
  | some request ↦ settle id (timed_out request.message_id) m
]

-- The ids of the requests that are too old.
unfoldable pub expired : ℕ → JsMap PendingAuthRequest → List Text
expired now [] = []
expired now ((id, request) ∷ m) =
    let rest = expired now m in
    if ltb request_timeout_ms (now - request.timestamp) then id ∷ rest else rest

unfoldable pub timeout_all : List Text → AuthManager → AuthManager × List Answered
unfolding timeout_auth_request
timeout_all [] m = (m, [])
timeout_all (id ∷ ids) m =
    let (m1, out1) = timeout_auth_request id m in
    let (m2, out2) = timeout_all ids m1 in (m2, out1 ++ out2)

-- `cleanupExpired`
unfoldable pub cleanup_expired : ℕ → AuthManager → AuthManager × List Answered
unfolding timeout_all expired
cleanup_expired now m = timeout_all (expired now m.pending_requests) m
