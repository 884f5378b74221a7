-- ===== src/Chain/Storage/Links.antt =====
-- A link that is created and then deleted.
use holo_web_conductor.Common.{
  ℕ, ◌≡◌, refl, ap, ◌∙◌, true, false, not, inl, inr, Bool-cases, Option, none, some, List, [], ◌∷◌,
  ◌++◌, map, keep, find, All, Bytes, Text, seq_eq, seq_eq_refl, arith, append-nil,
}
use holo_web_conductor.Chain.Types.{ChainLink}
use holo_web_conductor.Chain.Storage.Tables.{
  ActionRow, LinkRow, Db, replaces, insert_action, links_hash, put_link, mark_deleted,
  delete_link_row, get_action,
}
use holo_web_conductor.Chain.Storage.Queries.{is_listed, listed, get_links}

find_last :
    (new : ActionRow) (rows : List ActionRow)
    → find
        (λ row. seq_eq row.action.action_hash new.action.action_hash)
        (keep (λ old. not (replaces new old)) rows ++ new ∷ [])
      ≡ some new
unfolding replaces
find_last new [] = ground (arith, seq_eq_refl new.action.action_hash)
find_last new (row ∷ rows) = ground (arith, find_last new rows)

-- An action that was put is found by its hash.
pub get_action-insert :
    (new : ActionRow) (rows : List ActionRow) (db : Db)
    → db.actions ≡ insert_action new rows
    → get_action new.action.action_hash db ≡ some new.action
unfolding get_action insert_action
get_action-insert new rows db e = rw e (rw (find_last new rows) refl)

-- No row of links has the hash.
abbrev pub NoLink : Bytes → List LinkRow → Type 0
NoLink hash rows = All (λ row. links_hash hash row ≡ false) rows

listed-append :
    (base : Bytes) (cell : Text) (t : Option ℕ) (xs ys : List LinkRow)
    → listed base cell t (xs ++ ys) ≡ listed base cell t xs ++ listed base cell t ys
unfolding listed
listed-append base cell t [] ys = refl
listed-append base cell t (x ∷ xs) ys = elim (Bool-cases (is_listed base cell t x)) [
  | inl e ↦ rw e (ap (λ l. x.link ∷ l) (listed-append base cell t xs ys))
  | inr e ↦ rw e (listed-append base cell t xs ys)
]

keep_all :
    (hash : Bytes) (rows : List LinkRow)
    → NoLink hash rows
    → keep (λ old. not (links_hash hash old)) rows ≡ rows
keep_all hash [] h = refl
keep_all hash (row ∷ rows) (e, h) = rw e (ap (λ t. row ∷ t) (keep_all hash rows h))

mark_none :
    (hash by : Bytes) (rows : List LinkRow)
    → NoLink hash rows
    → map (mark_deleted hash by) rows ≡ rows
unfolding mark_deleted
mark_none hash by [] h = refl
mark_none hash by (row ∷ rows) (e, h) = rw e (ap (λ t. row ∷ t) (mark_none hash by rows h))

map_last :
    (f : LinkRow → LinkRow) (xs : List LinkRow) (y : LinkRow)
    → map f (xs ++ y ∷ []) ≡ map f xs ++ f y ∷ []
map_last f [] y = refl
map_last f (x ∷ xs) y = ap (λ t. f x ∷ t) (map_last f xs y)

deleted_unlisted :
    (base : Bytes) (cell : Text) (t : Option ℕ) (row : LinkRow)
    → row.deleted ≡ true
    → is_listed base cell t row ≡ false
unfolding is_listed
deleted_unlisted base cell t row e = ground arith

marked :
    (hash by : Bytes) (row : LinkRow)
    → links_hash hash row ≡ true
    → (mark_deleted hash by row).deleted ≡ true
unfolding mark_deleted
marked hash by row e = rw e refl

marked_unlisted :
    (base : Bytes) (cell : Text) (t : Option ℕ) (hash by : Bytes) (row : LinkRow)
    → links_hash hash row ≡ true
    → listed base cell t (mark_deleted hash by row ∷ []) ≡ []
unfolding listed
marked_unlisted base cell t hash by row e =
    rw (deleted_unlisted base cell t (mark_deleted hash by row) (marked hash by row e)) refl

-- Putting a link and then deleting it leaves the links of every base as they were.
pub get_links-put_delete :
    (link : ChainLink) (by base : Bytes) (cell own : Text) (t : Option ℕ) (db : Db)
    → NoLink link.create_link_hash db.links
    → get_links base cell t (delete_link_row link.create_link_hash by (put_link link own db))
      ≡ get_links base cell t db
unfolding get_links delete_link_row put_link
get_links-put_delete link by base cell own t db h =
    let row : LinkRow = record {
      cell_id = own;
      link = link;
      deleted = false;
      delete_hash = none;
    } in
    let hash = link.create_link_hash in
    ap (λ rows. listed base cell t (map (mark_deleted hash by) (rows ++ row ∷ [])))
      (keep_all hash db.links h)
    ∙ ap (listed base cell t) (map_last (mark_deleted hash by) db.links row)
    ∙ ap (λ rows. listed base cell t (rows ++ mark_deleted hash by row ∷ []))
        (mark_none hash by db.links h)
    ∙ listed-append base cell t db.links (mark_deleted hash by row ∷ [])
    ∙ ap (λ l. listed base cell t db.links ++ l)
        (marked_unlisted base cell t hash by row (seq_eq_refl hash))
    ∙ append-nil (listed base cell t db.links)
