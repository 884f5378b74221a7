-- ===== src/Chain/HostFunctions/Links.antt =====
-- `create_link` and then `delete_link` of the hash that it answers.
use holo_web_conductor.Common.{ℕ, ◌≡◌, refl, sym, ap, ◌∙◌, subst, Option, none, some, Bytes, Text}
use holo_web_conductor.Chain.Types.{create_link}
use holo_web_conductor.Chain.Hash.{Crypto, seal}
use holo_web_conductor.Chain.Storage.Tables.{
  put_action, put_link, delete_link_row, update_chain_head, get_action,
}
use holo_web_conductor.Chain.Storage.Queries.{get_links}
use holo_web_conductor.Chain.Storage.Links.{NoLink, get_action-insert, get_links-put_delete}
use holo_web_conductor.Chain.HostFunctions.{
  World, cell_of, build_draft, build_action, extend, stored_link, host_create_link,
  host_delete_link, delete_link_of, base_of_action,
}

-- The world after both.
unfoldable pub Undone : World → Option (Bytes × World) → Type 0
Undone w none = ⊥
Undone w (some (answer, u)) =
    (any_base : Bytes) (cell : Text) (t : Option ℕ)
    → get_links any_base cell t u.db ≡ get_links any_base cell t w.db

module _ (crypto : Crypto) where
  -- The hash that `create_link` answers.
  abbrev pub link_hash : ℕ → Bytes → Bytes → ℕ → ℕ → Bytes → World → Bytes
  link_hash now base target z l tag w =
      (build_action crypto now (create_link base target z l tag) w).action_hash

  created_found :
      (now : ℕ) (base target : Bytes) (z l : ℕ) (tag : Bytes) (w : World)
      → get_action
          (link_hash now base target z l tag w)
          (host_create_link crypto now base target z l tag w).1.db
        ≡ some (build_action crypto now (create_link base target z l tag) w)
  unfolding host_create_link extend update_chain_head put_link put_action
  created_found now base target z l tag w =
      get_action-insert
        (record {
          cell_id = cell_of crypto w.context;
          action = build_action crypto now (create_link base target z l tag) w;
        })
        w.db.actions _ refl

  base_built :
      (now : ℕ) (base target : Bytes) (z l : ℕ) (tag : Bytes) (w : World)
      → base_of_action (some (build_action crypto now (create_link base target z l tag) w))
        ≡ some base
  unfolding build_action seal build_draft
  base_built now base target z l tag w = refl

  deleted_Undone :
      (later : ℕ) (hash base : Bytes) (w v : World)
      → ((any_base : Bytes) (cell : Text) (t : Option ℕ) (by : Bytes)
          → get_links any_base cell t (delete_link_row hash by v.db)
            ≡ get_links any_base cell t w.db)
      → Undone w (delete_link_of crypto later hash (some base) v)
  unfolding delete_link_of Undone extend update_chain_head put_action get_links delete_link_row
  deleted_Undone later hash base w v h any_base cell t = h any_base cell t _

  host_links :
      (now : ℕ) (base target : Bytes) (z l : ℕ) (tag : Bytes) (w : World) (any_base : Bytes)
      (cell : Text) (t : Option ℕ) (by : Bytes)
      → NoLink (link_hash now base target z l tag w) w.db.links
      → get_links any_base cell t (
          delete_link_row
            (link_hash now base target z l tag w)
            by
            (host_create_link crypto now base target z l tag w).1.db)
        ≡ get_links any_base cell t w.db
  unfolding host_create_link extend update_chain_head put_action get_links delete_link_row put_link
      stored_link
  host_links now base target z l tag w any_base cell t by h =
      get_links-put_delete
        (stored_link (build_action crypto now (create_link base target z l tag) w) base target z l
          tag)
        by any_base cell (cell_of crypto w.context) t w.db h

  -- After `create_link`, a `delete_link` of the hash that it has answered does not throw, and
  -- then the links of every base, in every cell and of every type, are those before the two calls;
  -- provided that no row of links had that hash.
  pub delete_link-create_link :
      (now later : ℕ) (base target : Bytes) (z l : ℕ) (tag : Bytes) (w : World)
      → NoLink (link_hash now base target z l tag w) w.db.links
      → Undone w (
          host_delete_link crypto later
            (link_hash now base target z l tag w)
            (host_create_link crypto now base target z l tag w).1)
  unfolding host_delete_link
  delete_link-create_link now later base target z l tag w h =
      subst
        (λ o. Undone w (
          delete_link_of crypto later (link_hash now base target z l tag w) o
            (host_create_link crypto now base target z l tag w).1))
        (sym (
          ap base_of_action (created_found now base target z l tag w)
          ∙ base_built now base target z l tag w))
        (deleted_Undone later (link_hash now base target z l tag w) base w
          (host_create_link crypto now base target z l tag w).1
          (λ any_base cell t by. host_links now base target z l tag w any_base cell t by h))
