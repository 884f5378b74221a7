-- ===== src/Dht/Retry.antt =====
-- packages/core/src/dht/publish-retry.ts: what is published again when the websocket is connected
-- again. A queue that is begun is not waited for, so each begins while the one before it is at
-- work. DNAs are the texts of their hashes. The answer to the ping is only logged.
pub mod First
use holo_web_conductor.Common.{
  ℕ, Bool, true, false, not, Option, none, some, List, [], ◌∷◌, map, keep, seq_eq, Text,
  if◌then◌else◌,
}
use holo_web_conductor.Dht.OpTypes.{ChainOp}
use holo_web_conductor.Dht.Tracker.{Store, reset_failed_for_dnas}
use holo_web_conductor.Dht.Publish.{Options, Payload, Round, enter_queue, process_queue}
use holo_web_conductor.Network.WebSocket.Messages.{Registration}

-- `[...new Set(dnas)]`
unfoldable pub unique_dnas : List Text → List Text
unique_dnas [] = []
unique_dnas (dna ∷ dnas) = dna ∷ keep (λ d. not (seq_eq d dna)) (unique_dnas dnas)

-- The calls of the loop that go on. None is waited for, so each finds the flag as the one before
-- it has left it at its first wait.
unfoldable pub begun_queues : (busy : Bool) → List Text → List Text
begun_queues busy [] = []
begun_queues busy (dna ∷ dnas) =
    let (goes_on, flag) = enter_queue busy in
    let others = begun_queues flag dnas in if goes_on then dna ∷ others else others

-- The queues that were begun, run to their ends.
unfoldable pub run_queues :
    Options
    → (ChainOp → Payload)
    → (Text → ℕ → Round)
    → ℕ
    → List Text
    → Bool × Store
    → Option (Bool × Store)
run_queues o serialize world fuel [] state = some state
run_queues o serialize world fuel (dna ∷ dnas) state =
    elim (process_queue o serialize dna (world dna) fuel state) [
      | none ↦ none
      | some after ↦ run_queues o serialize world fuel dnas after
    ]

-- `retryPublishesAfterReconnect`
unfoldable pub retry_publishes_after_reconnect :
    Options
    → (ChainOp → Payload)
    → (Text → ℕ → Round)
    → ℕ
    → List Registration
    → Bool × Store
    → Option (Bool × Store)
retry_publishes_after_reconnect o serialize world fuel [] state = some state
retry_publishes_after_reconnect o serialize world fuel (r ∷ registrations) (busy, s) =
    let dnas = unique_dnas (map (λ g. g.dna_hash) (r ∷ registrations)) in
    let (count, v) = reset_failed_for_dnas dnas s in
    run_queues o serialize world fuel (begun_queues busy dnas) (busy, v)
