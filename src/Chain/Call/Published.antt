-- ===== src/Chain/Call/Published.antt =====
-- What a zome call publishes is what it has added to the chain.
use holo_web_conductor.Common.{
  ◌≡◌, sym, ap, ◌∙◌, subst, inl, inr, Bool-cases, true, Option, none, some, List, [], ◌∷◌, ◌++◌,
  append_assoc, append-nil, Bytes, Text, length,
}
use holo_web_conductor.Network.Cache.NetworkCache.{NetworkCache}
use holo_web_conductor.Chain.Types.{ChainAction}
use holo_web_conductor.Chain.Storage.Tables.{
  Db, get_cell_id, begin_transaction, commit_transaction, rollback_transaction,
}
use holo_web_conductor.Chain.Hash.{Crypto, SeparatesPlaces}
use holo_web_conductor.Chain.HostFunctions.{World, PendingRecord, cell_of}
use holo_web_conductor.Chain.Genesis.{GenesisResult, initialize_genesis, prefixed_key}
use holo_web_conductor.Chain.Genesis.Begins.{Began, initialize_genesis-Began}
use holo_web_conductor.Chain.Genesis.Records.{IsGenesis, Returns, initialize_genesis-Returns}
use holo_web_conductor.Chain.Linked.Ready.{IsReady, IsChain, chain}
use holo_web_conductor.Chain.Call.{
  Guest, Ended, ok, err, thrown, ZomeCallRequest, Conductor, ZomeCallResult, returned, rejected,
  give_up, run_guest, new_world, passes_validation, invoke_post_commit, committed, finish_call,
  transact, after_genesis, call_zome,
}
use holo_web_conductor.Chain.Call.Runs.{
  Ran, Grows, Leaves, actions_of, actions_of-append, run_guest-Ran,
}
use holo_web_conductor.Chain.Call.Atomic.{idle, at_rest}

-- What a call of an agent makes of a chain: if it is rejected, at most genesis has begun it; if
-- it returns, the actions of the records that it returns stand after those before, and after
-- them only what `post_commit` has added.
unfoldable pub Publishes :
    (dna_hash key : Bytes)
    → Option (List PendingRecord → Guest)
    → (before after : List ChainAction) → ZomeCallResult
    → Type 0
Publishes dna_hash key post before after rejected =
    (genesis : List PendingRecord) × (after ≡ before ++ actions_of genesis)
    × IsGenesis dna_hash key before genesis
Publishes dna_hash key none before after (returned value records) =
    after ≡ before ++ actions_of records
Publishes dna_hash key (some post) before after (returned value records) =
    (late : List PendingRecord) × (after ≡ (before ++ actions_of records) ++ actions_of late)

module _ (crypto : Crypto) where
  -- The cell of a request.
  unfoldable pub request_cell : ZomeCallRequest → Text
  request_cell r = get_cell_id crypto.encode r.dna_hash r.agent_pub_key

  -- After a call: the cell is ready, and its chain fits what the call gives.
  unfoldable pub Kept :
      {Details : Type 0}
      → ZomeCallRequest
      → List ChainAction
      → ZomeCallResult × Conductor Details
      → Type 0
  Kept r before (result, c) =
      IsReady crypto (request_cell r) c.storage.db
      × Publishes r.dna_hash r.agent_pub_key r.post_commit before
          (chain (request_cell r) c.storage.db) result

  module _ (separate : SeparatesPlaces crypto) where
    -- `post_commit` on a ready cell.
    late :
        (dna_hash key : Bytes) (post : Option (List PendingRecord → Guest))
        (records : List PendingRecord) (w : World) (before : List ChainAction) (value : Bytes)
        → IsReady crypto (cell_of crypto w.context) w.db
        → chain (cell_of crypto w.context) w.db ≡ before ++ actions_of records
        → IsReady crypto (cell_of crypto w.context) (invoke_post_commit crypto post records w)
          × Publishes dna_hash key post before
              (chain (cell_of crypto w.context) (invoke_post_commit crypto post records w))
              (returned value records)
    unfolding invoke_post_commit Publishes Ran Grows
    late dna_hash key none records w before value h e = (h, e)
    late dna_hash key (some post) [] w before value h e =
        (h, ([], e ∙ sym (append-nil (before ++ []))))
    late dna_hash key (some post) (r ∷ records) w before value h e =
        let (news, (c, g, k, l)) = run_guest-Ran crypto separate (post (r ∷ records)) w h in
        (k, (news, g ∙ ap (λ t. t ++ actions_of news) e))

    -- The records of genesis and those of the zome function, one after the other.
    both :
        (before mid after : List ChainAction) (genesis news pending : List PendingRecord)
        → mid ≡ before ++ actions_of genesis
        → after ≡ mid ++ actions_of news
        → pending ≡ news
        → after ≡ before ++ actions_of (genesis ++ pending)
    both before mid after genesis news pending e g p =
        g
        ∙ ap (λ t. t ++ actions_of news) e
        ∙ append_assoc before (actions_of genesis) (actions_of news)
        ∙ ap (λ t. before ++ t) (sym (actions_of-append genesis news))
        ∙ ap (λ t. before ++ actions_of (genesis ++ t)) (sym p)

    ran :
        (r : ZomeCallRequest) (db : Db)
        → IsReady crypto (request_cell r) db
        → Ran crypto (new_world crypto r db) (run_guest crypto r.guest (new_world crypto r db))
    unfolding new_world request_cell
    ran r db h = run_guest-Ran crypto separate r.guest (new_world crypto r db) h

    module _ {Details : Type 0} where
      committed-Kept :
          (r : ZomeCallRequest) (genesis : List PendingRecord) (value : Bytes) (w : World) (db : Db)
          (before : List ChainAction) (cache : NetworkCache Details)
          → chain (request_cell r) db ≡ before ++ actions_of genesis
          → Ran crypto (new_world crypto r db) (ok value, w)
          → Kept r before (committed crypto r genesis value w (idle w.db) cache)
      unfolding Kept committed Ran Grows Leaves new_world request_cell
      committed-Kept r genesis value w db before cache e (news, (c, g, h, l)) =
          let records = genesis ++ w.context.pending_records in
          let whole =
            both before (chain (request_cell r) db) (chain (request_cell r) w.db) genesis news
              w.context.pending_records e g l in
          subst
            (λ t.
              IsReady crypto t (invoke_post_commit crypto r.post_commit records w)
              × Publishes r.dna_hash r.agent_pub_key r.post_commit before
                  (chain t (invoke_post_commit crypto r.post_commit records w))
                  (returned value records))
            c
            (late r.dna_hash r.agent_pub_key r.post_commit records w before value
              (subst (λ t. IsReady crypto t w.db) (sym c) h)
              (subst (λ t. chain t w.db ≡ before ++ actions_of records) (sym c) whole))

      finish_call-Kept :
          (r : ZomeCallRequest) (genesis : List PendingRecord) (ended : Ended) (w : World) (db : Db)
          (before : List ChainAction) (cache : NetworkCache Details)
          → IsReady crypto (request_cell r) db
          → chain (request_cell r) db ≡ before ++ actions_of genesis
          → IsGenesis r.dna_hash r.agent_pub_key before genesis
          → Ran crypto (new_world crypto r db) (ended, w)
          → Kept r before (
              finish_call crypto r genesis ended w
                (record { db = w.db; saved = some db; in_transaction = true })
                cache)
      unfolding Kept Publishes finish_call give_up rollback_transaction commit_transaction
      finish_call-Kept r genesis err w db before cache h e i a = (h, (genesis, e, i))
      finish_call-Kept r genesis thrown w db before cache h e i a = (h, (genesis, e, i))
      finish_call-Kept r genesis (ok value) w db before cache h e i a =
          elim (Bool-cases (passes_validation crypto r.rules w)) [
            | inl p ↦ rw (p, Kept) (committed-Kept r genesis value w db before cache e a)
            | inr p ↦ rw (p, Kept) (h, (genesis, e, i))
          ]

      genesis-Kept :
          (r : ZomeCallRequest) (base : Db) (g : Option GenesisResult × Db)
          (cache : NetworkCache Details)
          → Began crypto separate (request_cell r) base g
          → Returns r.dna_hash r.agent_pub_key (chain (request_cell r) base) g.0
          → Kept r (chain (request_cell r) base) (after_genesis crypto r g.0 (idle g.1) cache)
      unfolding Began after_genesis begin_transaction transact
      genesis-Kept r base (none, db) cache b i = absurd b
      genesis-Kept r base (some g, db) cache (h, e) i =
          finish_call-Kept r g.pending_records (run_guest crypto r.guest (new_world crypto r db)).0
            (run_guest crypto r.guest (new_world crypto r db)).1 db (chain (request_cell r) base)
            cache h e i (ran r db h)

      pub call_zome-Kept :
          (r : ZomeCallRequest) (db : Db) (cache : NetworkCache Details)
          → length (prefixed_key crypto r.agent_pub_key) ≡ 39
          → IsChain crypto (request_cell r) db
          → Kept r (chain (request_cell r) db) (call_zome crypto r (at_rest db cache))
      unfolding call_zome request_cell
      call_zome-Kept r db cache l h =
          genesis-Kept r db
            (initialize_genesis crypto r.genesis_time r.dna_hash r.agent_pub_key none db) cache
            (initialize_genesis-Began crypto separate r.genesis_time r.dna_hash r.agent_pub_key none
              db l h)
            (initialize_genesis-Returns crypto r.genesis_time r.dna_hash r.agent_pub_key db h)

      -- If, before a call, the chain of the cell is linked up to its head, or there is no chain,
      -- then after the call it is linked, from place 0 on without a gap, and ends in the head:
      -- whether the call returns or is rejected, and whatever `post_commit` does. Actions at
      -- different places must have different hashes, the prefixed key of the agent must be 39 bytes
      -- long, and no transaction may be open.
      pub call_zome-IsReady :
          (r : ZomeCallRequest) (db : Db) (cache : NetworkCache Details)
          → length (prefixed_key crypto r.agent_pub_key) ≡ 39
          → IsChain crypto (request_cell r) db
          → IsReady crypto (request_cell r) (call_zome crypto r (at_rest db cache)).1.storage.db
      unfolding Kept
      call_zome-IsReady r db cache l h = (call_zome-Kept r db cache l h).0

      -- The records that a call returns for publishing are those of the actions that it has added
      -- to the chain of its cell, all of them and in their order, those of genesis and of called
      -- zomes among them; only what `post_commit` adds comes after them and is not returned. A call
      -- that is rejected has added nothing, or to an empty chain just the four actions of genesis by
      -- the agent: the DNA, the agent's validation package, the agent, and that the zomes are
      -- initialized. The conditions are those under which a call keeps a chain linked.
      pub call_zome-Publishes :
          (r : ZomeCallRequest) (db : Db) (cache : NetworkCache Details)
          → length (prefixed_key crypto r.agent_pub_key) ≡ 39
          → IsChain crypto (request_cell r) db
          → Publishes r.dna_hash r.agent_pub_key r.post_commit
              (chain (request_cell r) db)
              (chain (request_cell r) (call_zome crypto r (at_rest db cache)).1.storage.db)
              (call_zome crypto r (at_rest db cache)).0
      unfolding Kept
      call_zome-Publishes r db cache l h = (call_zome-Kept r db cache l h).1
