-- ===== src/Chain/Activity/Own.antt =====
-- What an agent is told of its own chain.
use holo_web_conductor.Common.{
  ℕ, suc, ◌+◌, ◌≡◌, refl, ap, ◌∙◌, Option, none, some, List, [], ◌∷◌, length, map, Bytes, Text,
  seq_eq_refl, arith,
}
use holo_web_conductor.Chain.Types.{ChainAction, ChainHead}
use holo_web_conductor.Chain.Storage.Tables.{Db, get_chain_head}
use holo_web_conductor.Chain.Storage.Queries.{query_actions, order_by_seq}
use holo_web_conductor.Chain.Hash.{Crypto}
use holo_web_conductor.Chain.Linked.{Follows, tip}
use holo_web_conductor.Chain.Linked.Ready.{IsReady, IsHead, chain}
use holo_web_conductor.Chain.Linked.Ordered.{ordered, query_actions-order, IsReady-Follows}
use holo_web_conductor.Chain.Activity.{
  AgentActivityResponse, pair_of, last_of, last_pair, get_agent_activity_from_local,
  get_agent_activity,
}

same_pair : (p : ℕ × Bytes) (seq : ℕ) (hash : Bytes) → p.0 ≡ seq → p.1 ≡ hash → p ≡ (seq, hash)
same_pair (s, t) seq hash e k = rw (e, k) refl

module _ (crypto : Crypto) where
  last_of-Follows :
      (n : ℕ) (prev : Option Bytes) (a : ChainAction) (more : List ChainAction) (hash : Bytes)
      → Follows crypto n prev (a ∷ more)
      → tip prev (a ∷ more) ≡ some hash
      → ((last_of a more).0 ≡ n + length more) × ((last_of a more).1 ≡ hash)
  unfolding Follows
  last_of-Follows n prev a [] hash f e = (omega (arith, f.0), cc)
  last_of-Follows n prev a (b ∷ more) hash f e =
      let (s, h) = last_of-Follows (suc n) (some a.action_hash) b more hash f.3 e in
      (omega (arith, s), h)

  last_pair-IsHead :
      (actions : List ChainAction) (h : ChainHead)
      → Follows crypto 0 none actions
      → IsHead h actions
      → last_pair actions ≡ some (h.action_seq, h.action_hash)
  unfolding IsHead
  last_pair-IsHead [] h f (l, t) = cc
  last_pair-IsHead (a ∷ more) h f (l, t) =
      let (s, e) = last_of-Follows 0 none a more h.action_hash f t in
      let k : (last_of a more).0 ≡ h.action_seq = omega (arith, s, l) in
      ap (λ (p : ℕ × Bytes). some p) (same_pair (last_of a more) h.action_seq h.action_hash k e)

  sorted :
      (cell : Text) (db : Db)
      → IsReady crypto cell db
      → order_by_seq (query_actions cell none db) ≡ chain cell db
  sorted cell db h =
      ap order_by_seq (query_actions-order crypto cell db h).0
      ∙ ordered crypto 0 none (chain cell db) (IsReady-Follows crypto cell db h)

  -- An agent that asks for its own activity on a ready cell is told of every action of its chain,
  -- in order, and of the chain's head as the highest observed, whatever the network would answer.
  pub own_activity :
      (own : Bytes) (cell : Text) (response : Option AgentActivityResponse) (db : Db)
      → IsReady crypto cell db
      → (h : ChainHead) × (get_chain_head cell db ≡ some h)
        × (get_agent_activity own own cell response db
            ≡ some (record {
              valid_activity = map pair_of (chain cell db);
              rejected_activity = [];
              highest_observed = some (h.action_seq, h.action_hash);
            }))
  unfolding IsReady get_agent_activity get_agent_activity_from_local
  own_activity own cell response db (f, h, e, i) = (
    h,
    e,
    rw (seq_eq_refl own, sorted cell db (f, h, e, i), last_pair-IsHead (chain cell db) h f i) refl,
  )
