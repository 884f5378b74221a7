-- ===== src/Chain/Linked/Ordered.antt =====
-- What the queries in the order of the chain give on a linked chain.
use holo_web_conductor.Common.{
  ℕ, zero, suc, ◌+◌, ◌≡◌, refl, sym, ap, ◌∙◌, subst, Option, none, some, List, [], ◌∷◌, get_elem?,
  Bytes, Text, arith,
}
use holo_web_conductor.Chain.Types.{ChainAction}
use holo_web_conductor.Chain.Storage.Tables.{Db}
use holo_web_conductor.Chain.Storage.Queries.{insert_by_seq, order_by_seq, query_actions}
use holo_web_conductor.Chain.Hash.{Crypto}
use holo_web_conductor.Chain.Linked.{Follows}
use holo_web_conductor.Chain.Linked.Ready.{IsReady, chain}

module _ (crypto : Crypto) where
  insert_first :
      (a : ChainAction) (more : List ChainAction)
      → Follows crypto (suc a.draft.action_seq) (some a.action_hash) more
      → insert_by_seq a more ≡ a ∷ more
  unfolding insert_by_seq Follows
  insert_first a [] f = refl
  insert_first a (b ∷ more) f = ground (arith, f.0)

  pub ordered :
      (n : ℕ) (prev : Option Bytes) (actions : List ChainAction)
      → Follows crypto n prev actions
      → order_by_seq actions ≡ actions
  unfolding order_by_seq Follows
  ordered n prev [] f = refl
  ordered n prev (a ∷ more) f =
      ap (insert_by_seq a) (ordered (suc n) (some a.action_hash) more f.3)
      ∙ insert_first a more
          (subst (λ k. Follows crypto (suc k) (some a.action_hash) more) (sym f.0) f.3)

  same_place : (b a : ChainAction) → some b ≡ some a → b.draft.action_seq ≡ a.draft.action_seq
  same_place b a e = let same : b ≡ a = cc in ap (λ (x : ChainAction). x.draft.action_seq) same

  placed :
      (n : ℕ) (prev : Option Bytes) (actions : List ChainAction) (i : ℕ) (a : ChainAction)
      → Follows crypto n prev actions
      → get_elem? actions i ≡ some a
      → a.draft.action_seq ≡ n + i
  unfolding Follows
  placed n prev [] i a f e = cc
  placed n prev (b ∷ more) zero a f e =
      let same : b.draft.action_seq ≡ a.draft.action_seq = same_place b a e in
      omega (arith, same, f.0)
  placed n prev (b ∷ more) (suc i) a f e =
      let k = placed (suc n) (some b.action_hash) more i a f.3 e in omega (arith, k)

  pub IsReady-Follows :
      (cell : Text) (db : Db) → IsReady crypto cell db → Follows crypto 0 none (chain cell db)
  unfolding IsReady
  IsReady-Follows cell db h = h.0

  -- On a ready cell the query of all actions gives them in the order in which they were added,
  -- and the action at each position stands at that place of the chain.
  pub query_actions-order :
      (cell : Text) (db : Db)
      → IsReady crypto cell db
      → (query_actions cell none db ≡ chain cell db)
        × ((i : ℕ) (a : ChainAction)
            → get_elem? (query_actions cell none db) i ≡ some a
            → a.draft.action_seq ≡ i)
  unfolding query_actions IsReady
  query_actions-order cell db h =
      let f = IsReady-Follows cell db h in
      let e = ordered 0 none (chain cell db) f in
      (
        e,
        λ i a g.
            let k = placed 0 none (chain cell db) i a f (subst (λ t. get_elem? t i ≡ some a) e g) in
            omega (arith, k),
      )
