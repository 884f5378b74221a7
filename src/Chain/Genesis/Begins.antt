-- ===== src/Chain/Genesis/Begins.antt =====
-- What genesis leaves: a linked chain of four actions, whose records it returns.
use holo_web_conductor.Common.{
  ℕ, ◌*◌, ◌≡◌, refl, sym, ap, ◌∙◌, subst, inl, inr, true, false, Option, none, some, append-nil,
  drop, List, [], ◌∷◌, ◌++◌, length, map, Bytes, Text, arith,
}
use holo_web_conductor.Chain.Types.{ChainAction, ChainEntry, ChainHead}
use holo_web_conductor.Chain.Storage.Tables.{
  Db, get_cell_id, get_chain_head, put_action, put_entry, update_chain_head,
}
use holo_web_conductor.Chain.Hash.{
  Crypto, SeparatesPlaces, compute_agent_entry_hash, hash_from_32_and_type, entry_hash_type, take,
  is_placed, seal,
}
use holo_web_conductor.Chain.Linked.{Follows, Follows-append, IsSealed, tip, cell_actions-insert}
use holo_web_conductor.Chain.Linked.Ready.{IsReady, IsChain, IsHead, chain, head-set}
use holo_web_conductor.Chain.Genesis.{
  genesis_action, dna_action, agent_validation_action, agent_create_action,
  init_zomes_complete_action, agent_entry, genesis_records, write_start, write_end, prefixed_key,
  GenesisResult, initialize_genesis,
}

module _ (crypto : Crypto) (separate : SeparatesPlaces crypto) where
  -- One more sealed action after a linked chain.
  grow :
      (cell : Text) (a : ChainAction) (db : Db) (actions : List ChainAction)
      → chain cell db ≡ actions
      → Follows crypto 0 none actions
      → a.draft.action_seq ≡ length actions
      → a.draft.prev_action_hash ≡ tip none actions
      → IsSealed crypto a
      → (chain cell (put_action a cell db) ≡ actions ++ a ∷ [])
        × Follows crypto 0 none (actions ++ a ∷ [])
  unfolding put_action
  grow cell a db actions e f s p h = (
    cell_actions-insert crypto separate (record { cell_id = cell; action = a }) db.actions h
          (subst (Follows crypto 0 none) (sym e) f) (s ∙ ap length (sym e))
        ∙ ap (λ t. t ++ a ∷ []) e,
    Follows-append crypto 0 none actions a f (omega (arith, s)) p h,
  )

  head-update :
      (cell : Text) (seq : ℕ) (hash : Bytes) (timestamp : ℕ) (db : Db)
      → get_chain_head cell (update_chain_head cell seq hash timestamp db)
        ≡ some (record { action_seq = seq; action_hash = hash; timestamp = timestamp })
  unfolding update_chain_head
  head-update cell seq hash timestamp db =
      head-set crypto cell _ db.chain_heads (update_chain_head cell seq hash timestamp db) refl

  no_actions : Follows crypto 0 none []
  unfolding Follows
  no_actions = tt

  abbrev At : ChainAction → ℕ → Option Bytes → Type 0
  At a n prev = (a.draft.action_seq ≡ n) × (a.draft.prev_action_hash ≡ prev) × IsSealed crypto a

  -- Four sealed actions, each after the one before, on an empty chain.
  four :
      (cell : Text) (a b c d : ChainAction) (entry : ChainEntry) (db : Db)
      → chain cell db ≡ []
      → At a 0 none
      → At b 1 (some a.action_hash)
      → At c 2 (some b.action_hash)
      → At d 3 (some c.action_hash)
      → (chain cell (
            put_action d cell
              (put_entry entry cell (put_action c cell (put_action b cell (put_action a cell db)))))
          ≡ a ∷ b ∷ c ∷ d ∷ [])
        × Follows crypto 0 none (a ∷ b ∷ c ∷ d ∷ [])
  unfolding put_entry
  four cell a b c d entry db e (s, p, h) (t, q, i) (u, r, j) (v, x, k) =
      let (e1, f1) = grow cell a db [] e no_actions s p h in
      let (e2, f2) = grow cell b (put_action a cell db) (a ∷ []) e1 f1 t q i in
      let (e3, f3) =
        grow cell c (put_action b cell (put_action a cell db)) (a ∷ b ∷ []) e2 f2 u r j in
      grow cell d
        (put_entry entry cell (put_action c cell (put_action b cell (put_action a cell db))))
        (a ∷ b ∷ c ∷ []) e3 f3 v x k

  module _ (now : ℕ) (dna_hash key entry_hash : Bytes) (proof : Option Bytes) where
    -- After the writes of genesis on an empty chain, the cell is ready and its chain consists of
    -- the actions of the records.
    pub written-IsReady :
        (cell : Text) (db : Db)
        → chain cell db ≡ []
        → IsReady crypto cell (
            write_end crypto now dna_hash key entry_hash proof cell
              (write_start crypto now dna_hash key entry_hash proof cell db))
          × (chain cell (
                write_end crypto now dna_hash key entry_hash proof cell
                  (write_start crypto now dna_hash key entry_hash proof cell db))
              ≡ map (λ r. r.action) (genesis_records crypto now dna_hash key entry_hash proof))
    unfolding write_end write_start genesis_records update_chain_head IsReady IsHead dna_action
        agent_validation_action agent_create_action init_zomes_complete_action genesis_action seal
        IsSealed is_placed
    written-IsReady cell db e =
        let (g, f) =
          four cell (dna_action crypto now dna_hash key entry_hash proof)
            (agent_validation_action crypto now dna_hash key entry_hash proof)
            (agent_create_action crypto now dna_hash key entry_hash proof)
            (init_zomes_complete_action crypto now dna_hash key entry_hash proof)
            (agent_entry crypto now dna_hash key entry_hash proof) db e (refl, refl, (refl, refl))
            (refl, refl, (refl, refl)) (refl, refl, (refl, refl)) (refl, refl, (refl, refl)) in
        (
          (
            subst (Follows crypto 0 none) (sym g) f,
            _,
            head-update cell 3 _ (now * 1000) _,
            (ap length g, ap (tip none) g),
          ),
          g,
        )

  -- The prefix of a key has 3 bytes and its location 4, so that a prefixed key has 39.
  agent_hashed :
      (key : Bytes)
      → length (prefixed_key crypto key) ≡ 39
      → compute_agent_entry_hash crypto (prefixed_key crypto key)
        ≡ some (
            hash_from_32_and_type crypto
              (take 32 (drop 3 (prefixed_key crypto key)))
              entry_hash_type)
  unfolding compute_agent_entry_hash
  agent_hashed key e = rw e refl

  -- Genesis succeeded: the cell is ready, and its chain has the actions of the records besides
  -- those that it had.
  unfoldable pub Began : Text → Db → Option GenesisResult × Db → Type 0
  Began cell before (none, db) = ⊥
  Began cell before (some g, db) =
      IsReady crypto cell db
      × (chain cell db ≡ chain cell before ++ map (λ r. r.action) g.pending_records)

  again_lem :
      (now : ℕ) (dna_hash key : Bytes) (proof : Option Bytes) (db : Db) (h : ChainHead)
      → get_chain_head (get_cell_id crypto.encode dna_hash key) db ≡ some h
      → initialize_genesis crypto now dna_hash key proof db
        ≡ (some (record { initialized = false; pending_records = [] }), db)
  unfolding initialize_genesis
  again_lem now dna_hash key proof db h e = rw (e, initialize_genesis) refl

  first_lem :
      (now : ℕ) (dna_hash key : Bytes) (proof : Option Bytes) (db : Db) (entry_hash : Bytes)
      → get_chain_head (get_cell_id crypto.encode dna_hash key) db ≡ none
      → compute_agent_entry_hash crypto (prefixed_key crypto key) ≡ some entry_hash
      → initialize_genesis crypto now dna_hash key proof db ≡ (
        some (record {
          initialized = true;
          pending_records = genesis_records crypto now dna_hash key entry_hash proof;
        }),
        write_end crypto now dna_hash key entry_hash proof
            (get_cell_id crypto.encode dna_hash key)
            (write_start crypto now dna_hash key entry_hash proof
              (get_cell_id crypto.encode dna_hash key)
              db),
      )
  unfolding initialize_genesis
  first_lem now dna_hash key proof db entry_hash e k = rw (e, k, initialize_genesis) refl

  already :
      (now : ℕ) (dna_hash key : Bytes) (proof : Option Bytes) (db : Db)
      → IsReady crypto (get_cell_id crypto.encode dna_hash key) db
      → Began
          (get_cell_id crypto.encode dna_hash key)
          db
          (initialize_genesis crypto now dna_hash key proof db)
  unfolding IsReady Began
  already now dna_hash key proof db (f, h, e, i) =
      subst (Began (get_cell_id crypto.encode dna_hash key) db)
        (sym (again_lem now dna_hash key proof db h e))
        ((f, h, e, i), sym (append-nil (chain (get_cell_id crypto.encode dna_hash key) db)))

  first_time :
      (now : ℕ) (dna_hash key : Bytes) (proof : Option Bytes) (db : Db)
      → length (prefixed_key crypto key) ≡ 39
      → get_chain_head (get_cell_id crypto.encode dna_hash key) db ≡ none
      → chain (get_cell_id crypto.encode dna_hash key) db ≡ []
      → Began
          (get_cell_id crypto.encode dna_hash key)
          db
          (initialize_genesis crypto now dna_hash key proof db)
  unfolding Began
  first_time now dna_hash key proof db l e n =
      let entry_hash =
        hash_from_32_and_type crypto (take 32 (drop 3 (prefixed_key crypto key))) entry_hash_type in
      let cell = get_cell_id crypto.encode dna_hash key in
      let (ready, g) = written-IsReady now dna_hash key entry_hash proof cell db n in
      subst (Began cell db)
        (sym (first_lem now dna_hash key proof db entry_hash e (agent_hashed key l)))
        (
          ready,
          g
              ∙ ap
                  (λ t.
                    t
                    ++ map (λ r. r.action)
                        (genesis_records crypto now dna_hash key entry_hash proof))
                  (sym n),
        )

  pub initialize_genesis-Began :
      (now : ℕ) (dna_hash key : Bytes) (proof : Option Bytes) (db : Db)
      → length (prefixed_key crypto key) ≡ 39
      → IsChain crypto (get_cell_id crypto.encode dna_hash key) db
      → Began
          (get_cell_id crypto.encode dna_hash key)
          db
          (initialize_genesis crypto now dna_hash key proof db)
  unfolding IsChain
  initialize_genesis-Began now dna_hash key proof db l (inl h) = already now dna_hash key proof db h
  initialize_genesis-Began now dna_hash key proof db l (inr (e, n)) =
      first_time now dna_hash key proof db l e n
