-- ===== src/Extension/Examples.antt =====
-- Witnesses on two origins, a lock, and a context that waits for its proofs.
use holo_web_conductor.Extension.Lock
use holo_web_conductor.Extension.Lock.Calls.{Does}
use holo_web_conductor.Extension.Lock.Keys.{IsWiped, after_calls-IsWiped}
use holo_web_conductor.Extension.Contexts
use holo_web_conductor.Extension.Contexts.Storage
use holo_web_conductor.Extension.Contexts.Manager
use holo_web_conductor.Extension.Contexts.Installing.{install_happ}
use holo_web_conductor.Extension.Contexts.Answers.{IsConsistent}
use holo_web_conductor.Extension.Contexts.Changes.{view}
use holo_web_conductor.Extension.Contexts.Adding.{Comes}
use holo_web_conductor.Extension.Contexts.Founding.{IsNew}
use holo_web_conductor.Extension.Contexts.Granting.{IsGranted, install_happ-Comes}
use holo_web_conductor.Extension.Contexts.Rows.{differ}
use holo_web_conductor.Extension.Contexts.Seen.{seen}
use holo_web_conductor.Extension.Contexts.Runs
use holo_web_conductor.Extension.Contexts.Runs.{effects, run_manager}
use holo_web_conductor.Extension.Contexts.Kept.{Holds, IsSealed, IsParked, IsNotCompleting}
use holo_web_conductor.Extension.Contexts.Safe.{
  seen_of, run_manager-effects, run-IsSealed, run-IsParked, run-get_context,
}
use holo_web_conductor.Common.JsMap
use holo_web_conductor.Common.{
  All, ◌≡◌, ◌≢◌, ◌⊎◌, false, ℕ, ◌++◌, refl, inl, true, ◌+◌, ◌≤◌, none, some, List, [], ◌∷◌, Text,
  codes, seq_eq,
}
use holo_web_conductor.Extension.Auth
use holo_web_conductor.Extension.Auth.Answers
use holo_web_conductor.Extension.Permissions.{
  PermissionManager, value, load_state, check_permission, denying,
}
use holo_web_conductor.Extension.Permissions.Decisions.{
  Call, grants, denies, reloads, run, decision, run-decision,
}

abbrev request_calls : List Answers.Call
request_calls =
    Answers.resolves (codes "r") (Auth.given (codes "yes"))
    ∷ Answers.fires (codes "r")
    ∷ Answers.sets_callback (codes "r") 1
    ∷ Answers.creates (codes "r") (codes "https://a.org") 4 (codes "m") 50
    ∷ []

run-answered_example :
    Answers.answers_to (codes "r") (Answers.run request_calls).1
      + Answers.waiting (codes "r") (Answers.run request_calls).0
    ≤ Answers.times_created (codes "r") request_calls
run-answered_example = Answers.run-answered (codes "r") request_calls

abbrev site : Text
site = codes "https://a.org"

abbrev calls : List Call
calls = reloads ∷ denies site 7 none ∷ grants (codes "https://b.org") none 5 none ∷ []

run-decision_example :
    (m : PermissionManager) × (run calls
        (load_state (record { current_state = none; stored = none }))
      ≡ value m)
    × (check_permission site m ≡ value (some (denying site 7 none)))
    × (load_state m ≡ m)
unfolding decision seq_eq
run-decision_example = run-decision site calls

-- PBKDF2 gives way to a function whose hash is the passphrase with the salt.
abbrev derive_sample : Text → List ℕ → List ℕ × List ℕ
derive_sample passphrase salt = (1 ∷ passphrase, passphrase ++ salt)

abbrev guarded_lock : Lock.LairLock
guarded_lock = record {
  current_state = record {
    is_locked = true;
    passphrase_hash = some (codes "open sesame" ++ 9 ∷ []);
    salt = some (9 ∷ []);
    last_unlocked = none;
  };
  master_key = none;
  unlock_attempts = 0;
  last_unlock_attempt = 0;
  stored = none;
}

after_calls-IsWiped_example :
    let v =
      Lock.after_calls derive_sample 8
        (Lock.unlocks (codes "open sesame") 5 ∷ Lock.restarts ∷ [])
        guarded_lock in
    IsWiped v × Does Lock.locks v (Lock.call_lock derive_sample 8 Lock.locks v)
unfolding IsWiped
after_calls-IsWiped_example =
    after_calls-IsWiped derive_sample 8 (Lock.unlocks (codes "open sesame") 5 ∷ Lock.restarts ∷ [])
      Lock.locks guarded_lock (inl refl)

abbrev parked_row : Contexts.StorableContext
parked_row = record {
  id = codes "i";
  domain = site;
  agent_pub_key = 1 ∷ 300 ∷ [];
  agent_key_tag = codes "t";
  dnas = [];
  app_name = none;
  app_version = none;
  installed_at = 5;
  last_used = 5;
  enabled = false;
  status = some Contexts.awaiting_memproofs;
  recovery_sealed = some true;
}

-- The browser has just started, over a row of an app that waits for its proofs.
abbrev sample_manager : Manager.HappContextManager
sample_manager = record {
  storage = record {
    contexts = (codes "i", parked_row) ∷ [];
    dna_wasm = [];
    context_cache = [];
    domain_to_id = [];
    cache_initialized = false;
  };
  lair = (codes "t", 7 ∷ []) ∷ [];
  permission_manager = record {
    current_state = some (record {
      permissions =
          (
            codes "https://b.org",
            record {
              origin = codes "https://b.org";
              granted = true;
              timestamp = 5;
              user_agent = none;
              title = none;
              favicon_url = none;
            },
          )
          ∷ [];
      version = 1;
    });
    stored = none;
  };
}

sample_IsConsistent : IsConsistent sample_manager.storage
unfolding JsMap.get Contexts.domain_index
sample_IsConsistent = record {
  keyed = (refl, tt);
  distinct = (tt, tt);
  unique = (tt, tt);
  shown = λ id c e. cc;
  complete = λ e. cc;
}

-- A bundle of one DNA, whatever its bytes are; the hash of a DNA is its seed.
abbrev sample_bundles : Manager.Bundles
sample_bundles = record {
  unpack_happ_bundle = λ bytes. some (record {
    name = codes "app";
    roles =
        record {
          path = some (codes "d");
          modifiers = record { network_seed = some (codes "s"); properties = none };
        }
        ∷ [];
    allow_deferred_memproofs = true;
    resources = (codes "d", bytes) ∷ [];
  });
  unpack_dna_bundle = λ bytes. some (record {
    name = codes "dna";
    network_seed = none;
    properties = none;
    runtime_manifest = some (record {
      name = codes "dna";
      network_seed = none;
      properties = none;
      integrity_zomes = [];
      coordinator_zomes = [];
    });
    first_wasm = some bytes;
  });
  compute_dna_hash = λ seed properties dna. some seed;
  agent_hash = λ key. key;
}

abbrev sample_request : Manager.InstallHappRequest
sample_request = record {
  app_name = none;
  app_version = none;
  happ_bundle = 1 ∷ 2 ∷ [];
  agent_key_tag = none;
}

abbrev sample_seed : List ℕ
sample_seed = codes "abcdefghijklmnopqrstuvwxyz012345"

install_happ-Comes_example :
    let (r, v) =
      install_happ sample_bundles
        (codes "https://b.org")
        sample_request
        (codes "k")
        9
        sample_seed
        sample_manager in
    Comes (codes "k") (codes "https://b.org") sample_manager.storage r v.storage
    × IsGranted (codes "https://b.org") sample_manager.permission_manager r
    × IsNew sample_bundles
        (codes "https://b.org")
        sample_request
        (codes "k")
        9
        sample_seed
        sample_manager.lair
        r
install_happ-Comes_example =
    install_happ-Comes sample_bundles (codes "https://b.org") sample_request (codes "k") 9
      sample_seed sample_manager sample_IsConsistent

abbrev context_calls : List Runs.ContextCall
context_calls =
    Runs.gets (codes "i")
    ∷ Runs.enables (codes "i") true
    ∷ Runs.installs (codes "https://b.org") sample_request (codes "k") 9 sample_seed
    ∷ Runs.starts_anew
    ∷ Runs.marks (codes "i")
    ∷ Runs.touches (codes "i") 90000
    ∷ Runs.completes (codes "k")
    ∷ []

another_id : codes "k" ≢ codes "i"
unfolding seq_eq
another_id = differ (codes "k") (codes "i") refl

IsOther-calls : All (Runs.IsOther (codes "i")) context_calls
IsOther-calls = (tt, (tt, (another_id, (tt, (tt, (tt, (tt, tt)))))))

waiting_calls : All (IsNotCompleting (codes "i")) context_calls
waiting_calls = (tt, (tt, (tt, (tt, (tt, (tt, (another_id, tt)))))))

run_manager-effects_example :
    (view (run_manager sample_bundles context_calls sample_manager).storage.contexts (codes "i")
      ≡ effects context_calls (codes "i") (view sample_manager.storage.contexts (codes "i")))
    ⊎ ((view (run_manager sample_bundles context_calls sample_manager).storage.contexts (codes "i")
          ≡ none)
        × (Runs.lost sample_bundles (codes "i") context_calls sample_manager ≡ true))
run_manager-effects_example =
    run_manager-effects sample_bundles (codes "i") context_calls sample_manager IsOther-calls
      sample_IsConsistent

run-IsSealed_example :
    Holds IsSealed
      (view (run_manager sample_bundles context_calls sample_manager).storage.contexts (codes "i"))
unfolding view JsMap.get Contexts.from_storable Contexts.to_storable seen seq_eq
run-IsSealed_example =
    run-IsSealed sample_bundles (codes "i") context_calls sample_manager IsOther-calls
      sample_IsConsistent refl

run-IsParked_example :
    Holds IsParked
      (view (run_manager sample_bundles context_calls sample_manager).storage.contexts (codes "i"))
unfolding view JsMap.get Contexts.from_storable Contexts.to_storable seen seq_eq
run-IsParked_example =
    run-IsParked sample_bundles (codes "i") context_calls sample_manager IsOther-calls waiting_calls
      sample_IsConsistent (refl, refl)

run-get_context_example :
    let s = (run_manager sample_bundles context_calls sample_manager).storage in
    seen_of (Storage.get_context (codes "i") s).0 ≡ view s.contexts (codes "i")
run-get_context_example =
    run-get_context sample_bundles (codes "i") context_calls sample_manager sample_IsConsistent
