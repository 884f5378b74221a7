-- ===== src/Chain/Linked/Ready.antt =====
-- A cell whose chain is linked and ends in its head, and how an added record extends it.
use holo_web_conductor.Common.{
  suc, ◌≡◌, sym, ap, ◌∙◌, subst, ◌⊎◌, none, some, List, [], ◌∷◌, ◌++◌, length, length-append, Text,
  seq_eq_refl, arith, if◌then◌else◌,
}
use holo_web_conductor.Common.JsMap
use holo_web_conductor.Common.JsMap.{JsMap, get-set}
use holo_web_conductor.Chain.Types.{ChainAction, ChainHead}
use holo_web_conductor.Chain.Hash.{Crypto, SeparatesPlaces}
use holo_web_conductor.Chain.Storage.Tables.{Db, get_chain_head}
use holo_web_conductor.Chain.Storage.Queries.{cell_actions}
use holo_web_conductor.Chain.Linked.{Follows, Follows-append, tip, tip-append, cell_actions-insert}
use holo_web_conductor.Chain.HostFunctions.{World, PendingRecord, cell_of, next_seq, head_hash}
use holo_web_conductor.Chain.HostFunctions.Adding.{Adds}

-- The head of the cell is the last action of its chain.
unfoldable pub IsHead : ChainHead → List ChainAction → Type 0
IsHead h actions = (length actions ≡ suc h.action_seq) × (tip none actions ≡ some h.action_hash)

-- The chain of a cell.
abbrev pub chain : Text → Db → List ChainAction
chain cell db = cell_actions cell db.actions

module _ (crypto : Crypto) where
  -- The chain is linked from place 0 on, and the head is its last action.
  unfoldable pub IsReady : Text → Db → Type 0
  IsReady cell db =
      Follows crypto 0 none (chain cell db)
      × (h : ChainHead) × (get_chain_head cell db ≡ some h)
      × IsHead h (chain cell db)

  -- Before genesis the chain is empty and has no head.
  unfoldable pub IsChain : Text → Db → Type 0
  IsChain cell db = IsReady cell db ⊎ ((get_chain_head cell db ≡ none) × (chain cell db ≡ []))

  pub head-set :
      (cell : Text) (head : ChainHead) (heads : JsMap ChainHead) (db : Db)
      → db.chain_heads ≡ JsMap.set cell head heads
      → get_chain_head cell db ≡ some head
  unfolding get_chain_head
  head-set cell head heads db e =
      ap (JsMap.get cell) e
      ∙ get-set cell cell head heads
      ∙ ap (λ b. if b then some head else JsMap.get cell heads) (seq_eq_refl cell)

  -- After a record is added: the chain has one more action, and the cell is ready again.
  unfoldable pub Extended : World → PendingRecord → World → Type 0
  Extended w r v =
      (cell_of crypto v.context ≡ cell_of crypto w.context)
      × (v.context.pending_records ≡ w.context.pending_records ++ r ∷ [])
      × (chain (cell_of crypto w.context) v.db
          ≡ chain (cell_of crypto w.context) w.db ++ r.action ∷ [])
      × IsReady (cell_of crypto w.context) v.db

  module _ (separate : SeparatesPlaces crypto) where
    extended :
        (w v : World) (r : PendingRecord) (h : ChainHead)
        → Follows crypto 0 none (chain (cell_of crypto w.context) w.db)
        → get_chain_head (cell_of crypto w.context) w.db ≡ some h
        → IsHead h (chain (cell_of crypto w.context) w.db)
        → Adds crypto w r v
        → Extended w r v
    unfolding Adds Extended IsReady IsHead
    extended w v r h f e (len, last) (cell, pending, seq, prev, sealed, rows, heads) =
        let s : r.action.draft.action_seq ≡ suc h.action_seq = seq ∙ ap next_seq e in
        let p : r.action.draft.prev_action_hash ≡ some h.action_hash = prev ∙ ap head_hash e in
        let grown : chain (cell_of crypto w.context) v.db
            ≡ chain (cell_of crypto w.context) w.db ++ r.action ∷ [] =
          ap (cell_actions (cell_of crypto w.context)) rows
          ∙ cell_actions-insert crypto separate _ w.db.actions sealed f (s ∙ sym len) in
        (
          cell,
          pending,
          grown,
          (
            subst (Follows crypto 0 none) (sym grown) (
                Follows-append crypto 0 none (chain (cell_of crypto w.context) w.db) r.action f
                  (omega (arith, s, len)) (p ∙ sym last) sealed),
            _,
            head-set (cell_of crypto w.context) _ w.db.chain_heads v.db heads,
            (
              omega (
                arith,
                s,
                len,
                ap length grown,
                length-append (chain (cell_of crypto w.context) w.db) (r.action ∷ []),
              ),
              ap (tip none) grown
                  ∙ tip-append none (chain (cell_of crypto w.context) w.db) r.action,
            ),
          ),
        )

    pub Adds-Extended :
        (w v : World) (r : PendingRecord)
        → IsReady (cell_of crypto w.context) w.db
        → Adds crypto w r v
        → Extended w r v
    unfolding IsReady
    Adds-Extended w v r (f, h, e, i) a = extended w v r h f e i a
