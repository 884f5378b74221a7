-- ===== src/Chain/Linked.antt =====
-- Chains in the table of actions: each action names the one before it.
pub mod Ready
pub mod Ordered
use holo_web_conductor.Common.{
  ℕ, zero, suc, ◌+◌, ◌≤◌, Bool, true, false, not, ◌≡◌, refl, sym, ap, subst, ◌∙◌, ◌⊎◌, inl, inr,
  Option, none, some, List, [], ◌∷◌, ◌++◌, keep, length, Bytes, Text, seq_eq, seq_eq_iff,
  seq_eq_refl, arith, Bool-cases, if◌then◌else◌, append_assoc,
}
use holo_web_conductor.Common.JsMap
use holo_web_conductor.Chain.Types.{ChainAction, ChainHead}
use holo_web_conductor.Chain.Hash.{Crypto, compute_action_hash, is_placed, SeparatesPlaces}
use holo_web_conductor.Chain.Storage.Tables.{ActionRow, Db, replaces, insert_action, get_chain_head}
use holo_web_conductor.Chain.Storage.Queries.{cell_actions}

cell_actions_here :
    (cell : Text) (row : ActionRow) (rows : List ActionRow)
    → seq_eq row.cell_id cell ≡ true
    → cell_actions cell (row ∷ rows) ≡ row.action ∷ cell_actions cell rows
unfolding cell_actions
cell_actions_here cell row rows e = rw e refl

cell_actions_away :
    (cell : Text) (row : ActionRow) (rows : List ActionRow)
    → seq_eq row.cell_id cell ≡ false
    → cell_actions cell (row ∷ rows) ≡ cell_actions cell rows
unfolding cell_actions
cell_actions_away cell row rows e = rw e refl

keep-kept :
    (p : ActionRow → Bool) (row : ActionRow) (rows : List ActionRow)
    → p row ≡ true
    → keep p (row ∷ rows) ≡ row ∷ keep p rows
keep-kept p row rows e = rw e refl

cell_actions-keep_away :
    (cell : Text) (p : ActionRow → Bool) (row : ActionRow) (rows : List ActionRow)
    → seq_eq row.cell_id cell ≡ false
    → cell_actions cell (keep p (row ∷ rows)) ≡ cell_actions cell (keep p rows)
cell_actions-keep_away cell p row rows e = elim (Bool-cases (p row)) [
  | inl h ↦ rw h (cell_actions_away cell row (keep p rows) e)
  | inr h ↦ rw h refl
]

pub cell_actions-append :
    (cell : Text) (xs ys : List ActionRow)
    → cell_actions cell (xs ++ ys) ≡ cell_actions cell xs ++ cell_actions cell ys
unfolding cell_actions
cell_actions-append cell [] ys = refl
cell_actions-append cell (x ∷ xs) ys = elim (Bool-cases (seq_eq x.cell_id cell)) [
  | inl e ↦ rw e (ap (λ t. x.action ∷ t) (cell_actions-append cell xs ys))
  | inr e ↦ rw e (cell_actions-append cell xs ys)
]

-- The hash of the last action, or the one before a list that is empty.
abbrev pub tip : Option Bytes → List ChainAction → Option Bytes
tip prev [] = prev
tip prev (a ∷ more) = tip (some a.action_hash) more

pub tip-append :
    (prev : Option Bytes) (xs : List ChainAction) (a : ChainAction)
    → tip prev (xs ++ a ∷ []) ≡ some a.action_hash
tip-append prev [] a = refl
tip-append prev (x ∷ xs) a = tip-append (some x.action_hash) xs a

module _ (crypto : Crypto) where
  -- The hash of an action is that of its content, and a Dna action stands at 0.
  unfoldable pub IsSealed : ChainAction → Type 0
  IsSealed a = (a.action_hash ≡ compute_action_hash crypto a.draft) × (is_placed a.draft ≡ true)

  -- Places count up from a number, each action names the hash of the one before.
  unfoldable pub Follows : ℕ → Option Bytes → List ChainAction → Type 0
  Follows n prev [] = Unit
  Follows n prev (a ∷ more) =
      (a.draft.action_seq ≡ n)
      × (a.draft.prev_action_hash ≡ prev)
      × IsSealed a
      × Follows (suc n) (some a.action_hash) more

  pub Follows-parts :
      (n : ℕ) (prev : Option Bytes) (a : ChainAction) (more : List ChainAction)
      → Follows n prev (a ∷ more)
      → (a.draft.action_seq ≡ n)
        × (a.draft.prev_action_hash ≡ prev)
        × IsSealed a
        × Follows (suc n) (some a.action_hash) more
  unfolding Follows
  Follows-parts n prev a more f = f

  pub Follows-append :
      (n : ℕ) (prev : Option Bytes) (xs : List ChainAction) (a : ChainAction)
      → Follows n prev xs
      → a.draft.action_seq ≡ n + length xs
      → a.draft.prev_action_hash ≡ tip prev xs
      → IsSealed a
      → Follows n prev (xs ++ a ∷ [])
  unfolding Follows
  Follows-append n prev [] a f s p h = (omega (arith, s), p, h, tt)
  Follows-append n prev (x ∷ xs) a f s p h =
      (f.0, f.1, f.2, Follows-append (suc n) (some x.action_hash) xs a f.3 (omega (arith, s)) p h)

  module _ (separate : SeparatesPlaces crypto) where
    -- An action of the chain is not replaced by one that stands after the chain.
    same_hash :
        (a b : ChainAction)
        → IsSealed a
        → IsSealed b
        → a.action_hash ≡ b.action_hash
        → a.draft.action_seq ≡ b.draft.action_seq
    unfolding IsSealed SeparatesPlaces
    same_hash a b h k e = separate a.draft b.draft h.1 k.1 (sym h.0 ∙ e ∙ k.0)

    kept :
        (new row : ActionRow)
        → IsSealed new.action
        → IsSealed row.action
        → suc row.action.draft.action_seq ≤ new.action.draft.action_seq
        → replaces new row ≡ false
    unfolding replaces
    kept new row h k l = ground (
      arith,
      same_hash row.action new.action k h,
      seq_eq_iff row.action.action_hash new.action.action_hash,
    )

    survivors :
        (new : ActionRow) (n : ℕ) (prev : Option Bytes) (rows : List ActionRow)
        → IsSealed new.action
        → Follows n prev (cell_actions new.cell_id rows)
        → n + length (cell_actions new.cell_id rows) ≤ new.action.draft.action_seq
        → cell_actions new.cell_id (keep (λ old. not (replaces new old)) rows)
          ≡ cell_actions new.cell_id rows
    survivors new n prev [] h f l = refl
    survivors new n prev (row ∷ rows) h f l = elim (Bool-cases (seq_eq row.cell_id new.cell_id)) [
      | inl e ↦
          let here = cell_actions_here new.cell_id row rows e in
          let g : Follows n prev (row.action ∷ cell_actions new.cell_id rows) =
            subst (Follows n prev) here f in
          let m : n + suc (length (cell_actions new.cell_id rows)) ≤ new.action.draft.action_seq =
            subst (λ t. n + length t ≤ new.action.draft.action_seq) here l in
          let (s, p, k, more) = Follows-parts n prev row.action (cell_actions new.cell_id rows) g in
          ap (cell_actions new.cell_id) (
            keep-kept (λ old. not (replaces new old)) row rows
              (ap not (kept new row h k (omega (arith, s, m)))))
          ∙ cell_actions_here new.cell_id row (keep (λ old. not (replaces new old)) rows) e
          ∙ ap (λ t. row.action ∷ t)
              (survivors new (suc n) (some row.action.action_hash) rows h more (omega (arith, m)))
          ∙ sym here
      | inr e ↦
          let away = cell_actions_away new.cell_id row rows e in
          cell_actions-keep_away new.cell_id (λ old. not (replaces new old)) row rows e
          ∙ survivors new n prev rows h (subst (Follows n prev) away f)
              (subst (λ t. n + length t ≤ new.action.draft.action_seq) away l)
          ∙ sym away
    ]

    -- A sealed action that stands right after the chain is put at its end.
    pub cell_actions-insert :
        (new : ActionRow) (rows : List ActionRow)
        → IsSealed new.action
        → Follows 0 none (cell_actions new.cell_id rows)
        → new.action.draft.action_seq ≡ length (cell_actions new.cell_id rows)
        → cell_actions new.cell_id (insert_action new rows)
          ≡ cell_actions new.cell_id rows ++ new.action ∷ []
    unfolding insert_action cell_actions
    cell_actions-insert new rows h f l =
        cell_actions-append new.cell_id (keep (λ old. not (replaces new old)) rows) (new ∷ [])
        ∙ ap (λ t. t ++ cell_actions new.cell_id (new ∷ []))
            (survivors new 0 none rows h f (omega (arith, l)))
        ∙ ap (λ t. cell_actions new.cell_id rows ++ t)
            (cell_actions_here new.cell_id new [] (seq_eq_refl new.cell_id))
