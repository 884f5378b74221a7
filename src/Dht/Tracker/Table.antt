-- ===== src/Dht/Tracker/Table.antt =====
-- The table's own shape: keys are the rows' ids and none stands twice; and the rows that it lists
-- are those that it finds.
use holo_web_conductor.Common.{
  ℕ, ◌≡◌, refl, Option, some, [], ◌∷◌, Text, arith, All, seq_eq_iff, Option-cases, inl, inr,
}
use holo_web_conductor.Common.JsMap
use holo_web_conductor.Common.JsMap.{JsMap}
use holo_web_conductor.Dht.Tracker.{
  PublishStatus, Row, Store, rows, updated_row, update_status, remove_pending_publish,
}

abbrev pub Keyed : Store → Type 0
Keyed = All (λ e. e.1.id ≡ e.0)

pub record IsTable (s : Store) : Type 0 where
  pub distinct : JsMap.Distinct s
  pub keyed : Keyed s

Keyed-set : (k : Text) (r : Row) (s : Store) → r.id ≡ k → Keyed s → Keyed (JsMap.set k r s)
unfolding JsMap.set
Keyed-set k r [] e h = (e, tt)
Keyed-set k r ((j, q) ∷ s) e h = ground (arith, Keyed-set k r s e h.1, seq_eq_iff j k)

Keyed-delete : (k : Text) (s : Store) → Keyed s → Keyed (JsMap.delete k s)
unfolding JsMap.delete
Keyed-delete k [] h = tt
Keyed-delete k ((j, q) ∷ s) h = ground (arith, Keyed-delete k s h.1)

Keyed-get : (k : Text) (s : Store) (r : Row) → Keyed s → JsMap.get k s ≡ some r → r.id ≡ k
unfolding JsMap.get
Keyed-get k [] r h e = cc
Keyed-get k ((j, q) ∷ s) r h e = ground (arith, Keyed-get k s r h.1, seq_eq_iff j k)

updated_row-id :
    (status : PublishStatus) (error : Option Text) (now : ℕ) (r : Row)
    → (updated_row status error now r).id ≡ r.id
unfolding updated_row
updated_row-id status error now r = refl

-- An update keeps the table's shape.
pub update_status-IsTable :
    (id : Text) (status : PublishStatus) (error : Option Text) (now : ℕ) (s : Store)
    → IsTable s
    → IsTable (update_status id status error now s)
unfolding update_status
update_status-IsTable id status error now s h = elim (Option-cases (JsMap.get id s)) [
  | inl e ↦ rw (e, update_status) h
  | inr (r, e) ↦
      rw (e, update_status)
        (record {
          distinct = JsMap.set-Distinct id (updated_row status error now r) s h.distinct;
          keyed =
              Keyed-set id (updated_row status error now r) s (Keyed-get id s r h.keyed e) h.keyed;
        })
]

-- So does a removal.
pub remove_pending_publish-IsTable :
    (id : Text) (s : Store) → IsTable s → IsTable (remove_pending_publish id s)
unfolding remove_pending_publish
remove_pending_publish-IsTable id s h = record {
  distinct = JsMap.delete-Distinct id s h.distinct;
  keyed = Keyed-delete id s h.keyed;
}

-- The row is what the table finds under its id.
abbrev pub IsFound : Store → Row → Type 0
IsFound s r = JsMap.get r.id s ≡ some r

IsFound-behind :
    (j : Text) (q : Row) (s : Store) (rs : Store)
    → JsMap.Fresh j rs
    → Keyed rs
    → All (IsFound s) (rows rs)
    → All (IsFound ((j, q) ∷ s)) (rows rs)
unfolding JsMap.get
IsFound-behind j q s [] f h a = tt
IsFound-behind j q s ((i, r) ∷ rs) f h a =
    (ground (arith, a.0, seq_eq_iff j r.id), IsFound-behind j q s rs f.1 h.1 a.1)

Keyed-rows-IsFound : (s : Store) → JsMap.Distinct s → Keyed s → All (IsFound s) (rows s)
unfolding JsMap.get
Keyed-rows-IsFound [] d h = tt
Keyed-rows-IsFound ((j, q) ∷ s) d h = (
  ground (arith, seq_eq_iff j q.id),
  IsFound-behind j q s s d.0 h.1 (Keyed-rows-IsFound s d.1 h.1),
)

-- Every row that a table lists is found under its id.
pub rows-IsFound : (s : Store) → IsTable s → All (IsFound s) (rows s)
rows-IsFound s h = Keyed-rows-IsFound s h.distinct h.keyed
