-- ===== src/Chain/Genesis/Records.antt =====
-- The records that genesis returns.
use holo_web_conductor.Common.{
  true, false, ℕ, ◌≡◌, refl, subst, sym, ◌⊎◌, inl, inr, Option, none, some, Option-cases, List, [],
  ◌∷◌, map, Bytes,
}
use holo_web_conductor.Chain.Types.{
  ChainAction, ChainHead, dna, agent_validation_pkg, create, init_zomes_complete,
}
use holo_web_conductor.Chain.Storage.Tables.{Db, get_cell_id, get_chain_head}
use holo_web_conductor.Chain.Hash.{Crypto, compute_agent_entry_hash, seal}
use holo_web_conductor.Chain.HostFunctions.{PendingRecord}
use holo_web_conductor.Chain.Linked.Ready.{IsReady, IsChain, chain}
use holo_web_conductor.Chain.Genesis.{
  GenesisResult, initialize_genesis, genesis_records, prefixed_key, dna_action,
  agent_validation_action, agent_create_action, init_zomes_complete_action, genesis_action,
}

-- No records, or on an empty chain those of its first four actions by the agent: the DNA, the
-- agent's validation package, the agent, and that the zomes are initialized.
unfoldable pub IsGenesis :
    (dna_hash key : Bytes) → (before : List ChainAction) → List PendingRecord → Type 0
IsGenesis dna_hash key before records =
    (records ≡ [])
    ⊎ ((before ≡ [])
        × ((entry_hash : Bytes) × (map (λ r. r.action.draft.content) records
              ≡ dna dna_hash
                ∷ agent_validation_pkg none
                ∷ create entry_hash none
                ∷ init_zomes_complete
                ∷ []))
        × (map (λ r. r.action.draft.author) records ≡ key ∷ key ∷ key ∷ key ∷ []))

abbrev pub Returns : (dna_hash key : Bytes) → List ChainAction → Option GenesisResult → Type 0
Returns dna_hash key before none = Unit
Returns dna_hash key before (some g) = IsGenesis dna_hash key before g.pending_records

module _ (crypto : Crypto) (now : ℕ) (dna_hash key : Bytes) (db : Db) where
  four_records :
      (before : List ChainAction) (entry_hash : Bytes)
      → before ≡ []
      → IsGenesis dna_hash key before (genesis_records crypto now dna_hash key entry_hash none)
  unfolding IsGenesis genesis_records dna_action agent_validation_action agent_create_action
      init_zomes_complete_action genesis_action seal
  four_records before entry_hash e = inr (e, (entry_hash, refl), refl)

  none_again : (before : List ChainAction) → IsGenesis dna_hash key before []
  unfolding IsGenesis
  none_again before = inl refl

  result_again :
      (h : ChainHead)
      → get_chain_head (get_cell_id crypto.encode dna_hash key) db ≡ some h
      → (initialize_genesis crypto now dna_hash key none db).0
        ≡ some (record { initialized = false; pending_records = [] })
  unfolding initialize_genesis
  result_again h e = rw (e, initialize_genesis) refl

  result_none :
      get_chain_head (get_cell_id crypto.encode dna_hash key) db ≡ none
      → compute_agent_entry_hash crypto (prefixed_key crypto key) ≡ none
      → (initialize_genesis crypto now dna_hash key none db).0 ≡ none
  unfolding initialize_genesis
  result_none e k = rw (e, k, initialize_genesis) refl

  result_first :
      (entry_hash : Bytes)
      → get_chain_head (get_cell_id crypto.encode dna_hash key) db ≡ none
      → compute_agent_entry_hash crypto (prefixed_key crypto key) ≡ some entry_hash
      → (initialize_genesis crypto now dna_hash key none db).0
        ≡ some (record {
          initialized = true;
          pending_records = genesis_records crypto now dna_hash key entry_hash none;
        })
  unfolding initialize_genesis
  result_first entry_hash e k = rw (e, k, initialize_genesis) refl

  pub initialize_genesis-Returns :
      IsChain crypto (get_cell_id crypto.encode dna_hash key) db
      → Returns dna_hash key
          (chain (get_cell_id crypto.encode dna_hash key) db)
          (initialize_genesis crypto now dna_hash key none db).0
  unfolding IsChain IsReady
  initialize_genesis-Returns (inl (f, h, e, i)) =
      let before = chain (get_cell_id crypto.encode dna_hash key) db in
      subst (Returns dna_hash key before) (sym (result_again h e)) (none_again before)
  initialize_genesis-Returns (inr (e, n)) =
      let before = chain (get_cell_id crypto.encode dna_hash key) db in
      elim (Option-cases (compute_agent_entry_hash crypto (prefixed_key crypto key))) [
        | inl k ↦ subst (Returns dna_hash key before) (sym (result_none e k)) tt
        | inr (entry_hash, k) ↦
            subst (Returns dna_hash key before) (sym (result_first entry_hash e k))
              (four_records before entry_hash n)
      ]
