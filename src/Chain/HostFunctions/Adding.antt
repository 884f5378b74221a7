-- ===== src/Chain/HostFunctions/Adding.antt =====
-- What every host function that writes has in common: one more action, right after the head.
use holo_web_conductor.Common.{ℕ, ◌≡◌, refl, Option, none, some, [], ◌∷◌, ◌++◌, is_some, Bytes}
use holo_web_conductor.Common.JsMap
use holo_web_conductor.Chain.Types.{
  AppEntryType, ActionData, create, update, delete, create_link, delete_link, entry_hash_if_new,
}
use holo_web_conductor.Chain.Hash.{
  Crypto, compute_action_hash, compute_app_entry_hash, is_placed, seal,
}
use holo_web_conductor.Chain.Storage.Tables.{
  put_action, put_entry, put_link, delete_link_row, insert_action, update_chain_head,
  get_chain_head, get_action,
}
use holo_web_conductor.Chain.Linked.{IsSealed}
use holo_web_conductor.Chain.HostFunctions.{
  World, PendingRecord, HostCall, creates, updates, deletes, creates_link, deletes_link, next_seq,
  head_hash, cell_of, build_draft, build_action, extend, push_record, push_cache_ops, add_entry,
  host_create, host_update, host_delete, host_create_link, host_delete_link, host_call, update_of,
  delete_of, delete_link_of, entry_hash_of_action, base_of_action,
}

module _ (crypto : Crypto) where
  -- The record `r` is the one that leads from a world to the next: its action stands after the
  -- head of the cell and is the new head, and it is the last of the pending records.
  unfoldable pub Adds : World → PendingRecord → World → Type 0
  Adds w r v =
      (cell_of crypto v.context ≡ cell_of crypto w.context)
      × (v.context.pending_records ≡ w.context.pending_records ++ r ∷ [])
      × (r.action.draft.action_seq ≡ next_seq (get_chain_head (cell_of crypto w.context) w.db))
      × (r.action.draft.prev_action_hash
          ≡ head_hash (get_chain_head (cell_of crypto w.context) w.db))
      × IsSealed crypto r.action
      × (v.db.actions
          ≡ insert_action (record { cell_id = cell_of crypto w.context; action = r.action })
              w.db.actions)
      × (v.db.chain_heads
          ≡ JsMap.set (cell_of crypto w.context)
              (record {
                action_seq = r.action.draft.action_seq;
                action_hash = r.action.action_hash;
                timestamp = r.action.draft.timestamp;
              })
              w.db.chain_heads)

  -- The variant of the action that a host function adds.
  unfoldable pub Fits : HostCall → ActionData → Type 0
  Fits (creates type content) (create e t) =
      (e ≡ compute_app_entry_hash crypto content) × (t ≡ some type)
  Fits (updates original content) (update e t a o) =
      (e ≡ compute_app_entry_hash crypto content) × (a ≡ original)
  Fits (deletes hash) (delete a e) = a ≡ hash
  Fits (creates_link base target z l tag) (create_link b t y k g) =
      (b ≡ base) × (t ≡ target) × (y ≡ z) × (k ≡ l) × (g ≡ tag)
  Fits (deletes_link address) (delete_link l b) = l ≡ address
  Fits _ _ = ⊥

  -- What is known after a host function: nothing if it throws, and otherwise that it has added a
  -- record whose action has the hash that is answered and the right variant, with an entry
  -- exactly if it is a Create or an Update.
  unfoldable pub Done : HostCall → World → Option (Bytes × World) → Type 0
  Done h w none = Unit
  Done h w (some (answer, v)) =
      (r : PendingRecord) × Adds w r v
      × (r.action.action_hash ≡ answer)
      × Fits h r.action.draft.content
      × (is_some r.entry ≡ is_some (entry_hash_if_new r.action.draft.content))

  update-Done :
      (now : ℕ) (original content : Bytes) (o : Option Bytes) (w : World)
      → Done (updates original content) w (update_of crypto now original content o w)
  unfolding Done Adds Fits IsSealed is_placed seal build_action build_draft add_entry extend
      put_action put_entry put_link delete_link_row update_chain_head push_record push_cache_ops
      compute_app_entry_hash entry_hash_if_new compute_action_hash update_of
  update-Done now original content none w = tt
  update-Done now original content (some e) w =
      (_, (refl, refl, refl, refl, (refl, refl), refl, refl), refl, (refl, refl), refl)

  delete-Done :
      (now : ℕ) (hash : Bytes) (o : Option Bytes) (w : World)
      → Done (deletes hash) w (delete_of crypto now hash o w)
  unfolding Done Adds Fits IsSealed is_placed seal build_action build_draft add_entry extend
      put_action put_entry put_link delete_link_row update_chain_head push_record push_cache_ops
      compute_app_entry_hash entry_hash_if_new compute_action_hash delete_of
  delete-Done now hash none w = tt
  delete-Done now hash (some e) w =
      (_, (refl, refl, refl, refl, (refl, refl), refl, refl), refl, refl, refl)

  delete_link-Done :
      (now : ℕ) (address : Bytes) (o : Option Bytes) (w : World)
      → Done (deletes_link address) w (delete_link_of crypto now address o w)
  unfolding Done Adds Fits IsSealed is_placed seal build_action build_draft add_entry extend
      put_action put_entry put_link delete_link_row update_chain_head push_record push_cache_ops
      compute_app_entry_hash entry_hash_if_new compute_action_hash delete_link_of
  delete_link-Done now address none w = tt
  delete_link-Done now address (some base) w =
      (_, (refl, refl, refl, refl, (refl, refl), refl, refl), refl, refl, refl)

  create-Done :
      (now : ℕ) (type : AppEntryType) (content : Bytes) (w : World)
      → Done (creates type content) w (some (host_create crypto now type content w))
  unfolding Done Adds Fits IsSealed is_placed seal build_action build_draft add_entry extend
      put_action put_entry put_link delete_link_row update_chain_head push_record push_cache_ops
      compute_app_entry_hash entry_hash_if_new compute_action_hash host_create
  create-Done now type content w =
      (_, (refl, refl, refl, refl, (refl, refl), refl, refl), refl, (refl, refl), refl)

  create_link-Done :
      (now : ℕ) (base target : Bytes) (z l : ℕ) (tag : Bytes) (w : World)
      → Done
          (creates_link base target z l tag)
          w
          (some (host_create_link crypto now base target z l tag w))
  unfolding Done Adds Fits IsSealed is_placed seal build_action build_draft add_entry extend
      put_action put_entry put_link delete_link_row update_chain_head push_record push_cache_ops
      compute_app_entry_hash entry_hash_if_new compute_action_hash host_create_link
  create_link-Done now base target z l tag w = (
    _,
    (refl, refl, refl, refl, (refl, refl), refl, refl),
    refl,
    (refl, refl, refl, refl, refl),
    refl,
  )

  -- A host function that answers has added one record to the chain of its cell, right after the
  -- head, which it becomes; the record is the last of the pending records, the answer is the hash
  -- of its action, the action has the variant of the function and the function's input in it, and
  -- the record has an entry exactly if the action is a Create or an Update.
  pub host_call-Done : (now : ℕ) (h : HostCall) (w : World) → Done h w (host_call crypto now h w)
  unfolding host_call host_update host_delete host_delete_link
  host_call-Done now (creates type content) w = create-Done now type content w
  host_call-Done now (updates original content) w =
      update-Done now original content (entry_hash_of_action (get_action original w.db)) w
  host_call-Done now (deletes hash) w =
      delete-Done now hash (entry_hash_of_action (get_action hash w.db)) w
  host_call-Done now (creates_link base target z l tag) w =
      create_link-Done now base target z l tag w
  host_call-Done now (deletes_link address) w =
      delete_link-Done now address (base_of_action (get_action address w.db)) w
