-- ===== src/Extension/Contexts/Rows.antt =====
-- The rows of the contexts: their keys, and the unique index by domain.
use holo_web_conductor.Common.{
  ◌≡◌, refl, sym, ap, ◌∙◌, subst, ◌≢◌, inl, inr, false, none, some, [], ◌∷◌, Text, seq_eq,
  seq_eq_iff, seq_eq_refl, Bool-cases, Option-cases, arith,
}
use holo_web_conductor.Common.JsMap
use holo_web_conductor.Common.JsMap.{JsMap}
use holo_web_conductor.Extension.Contexts.{StorableContext, domain_index, is_taken}

Rows : Type 0
Rows = JsMap StorableContext

-- Each row stands under its own id.
abbrev pub IsKeyed : JsMap StorableContext → Type 0
IsKeyed [] = Unit
IsKeyed ((id, row) ∷ rows) = (row.id ≡ id) × IsKeyed rows

pub get-IsKeyed :
    (id : Text) (row : StorableContext) (rows : JsMap StorableContext)
    → IsKeyed rows
    → JsMap.get id rows ≡ some row
    → row.id ≡ id
unfolding JsMap.get
get-IsKeyed id row [] h e = cc
get-IsKeyed id row ((j, r) ∷ rows) h e =
    ground (arith, get-IsKeyed id row rows h.1, seq_eq_iff j id)

pub set-IsKeyed :
    (id : Text) (row : StorableContext) (rows : JsMap StorableContext)
    → row.id ≡ id
    → IsKeyed rows
    → IsKeyed (JsMap.set id row rows)
unfolding JsMap.set
set-IsKeyed id row [] e h = (e, tt)
set-IsKeyed id row ((j, r) ∷ rows) e h =
    ground (arith, set-IsKeyed id row rows e h.1, seq_eq_iff j id)

pub delete-IsKeyed :
    (id : Text) (rows : JsMap StorableContext) → IsKeyed rows → IsKeyed (JsMap.delete id rows)
unfolding JsMap.delete
delete-IsKeyed id [] h = tt
delete-IsKeyed id ((j, r) ∷ rows) h = ground (arith, delete-IsKeyed id rows h.1)

-- The row of an id is where the index leads from its domain.
pub get-domain_index :
    (id : Text) (row : StorableContext) (rows : JsMap StorableContext)
    → JsMap.Distinct (domain_index rows)
    → JsMap.get id rows ≡ some row
    → JsMap.get row.domain (domain_index rows) ≡ some id
unfolding JsMap.get domain_index
get-domain_index id row [] u e = cc
get-domain_index id row ((j, r) ∷ rows) u e = ground (
  arith,
  get-domain_index id row rows u.1,
  seq_eq_iff j id,
  seq_eq_iff r.domain row.domain,
  seq_eq_refl row.domain,
  JsMap.get_missing r.domain (domain_index rows) u.0,
)

pub own-is_taken :
    (id : Text) (row : StorableContext) (rows : JsMap StorableContext)
    → JsMap.Distinct (domain_index rows)
    → JsMap.get id rows ≡ some row
    → is_taken id row.domain rows ≡ false
unfolding is_taken
own-is_taken id row rows u e = rw (get-domain_index id row rows u e, is_taken, seq_eq_refl id) refl

-- Where the index leads there is a row.
indexed_row :
    (domain id : Text) (rows : JsMap StorableContext)
    → JsMap.get domain (domain_index rows) ≡ some id
    → JsMap.get id rows ≢ none
unfolding JsMap.get domain_index
indexed_row domain id [] e n = cc
indexed_row domain id ((j, r) ∷ rows) e n =
    ground (
      arith,
      indexed_row domain id rows,
      seq_eq_iff j id,
      seq_eq_refl id,
      seq_eq_iff r.domain domain,
    )

-- A domain that is not taken leads to the id itself, or nowhere.
free :
    (id domain : Text) (rows : JsMap StorableContext)
    → is_taken id domain rows ≡ false
    → (other : Text) → JsMap.get domain (domain_index rows) ≡ some other
    → other ≡ id
unfolding is_taken
free id domain rows h other e = ground (arith, seq_eq_iff other id)

set-Fresh :
    (domain id : Text) (row : StorableContext) (rows : JsMap StorableContext)
    → domain ≢ row.domain
    → JsMap.Fresh domain (domain_index rows)
    → JsMap.Fresh domain (domain_index (JsMap.set id row rows))
unfolding JsMap.set domain_index
set-Fresh domain id row [] n h = (λ e. n (sym e), tt)
set-Fresh domain id row ((j, r) ∷ rows) n h = ground (arith, set-Fresh domain id row rows n h.1)

delete-Fresh :
    (domain id : Text) (rows : JsMap StorableContext)
    → JsMap.Fresh domain (domain_index rows)
    → JsMap.Fresh domain (domain_index (JsMap.delete id rows))
unfolding JsMap.delete domain_index
delete-Fresh domain id [] h = tt
delete-Fresh domain id ((j, r) ∷ rows) h = ground (arith, delete-Fresh domain id rows h.1)

pub delete-domain_index :
    (id : Text) (rows : JsMap StorableContext)
    → JsMap.Distinct (domain_index rows)
    → JsMap.Distinct (domain_index (JsMap.delete id rows))
unfolding JsMap.delete domain_index
delete-domain_index id [] h = tt
delete-domain_index id ((j, r) ∷ rows) h =
    ground (arith, delete-domain_index id rows h.1, delete-Fresh r.domain id rows h.0)

pub differ : (a b : Text) → seq_eq a b ≡ false → a ≢ b
differ a b h e = ground (arith, seq_eq_iff a b)

untaken_Fresh :
    (id domain : Text) (rows : JsMap StorableContext)
    → JsMap.Fresh id rows
    → is_taken id domain rows ≡ false
    → JsMap.Fresh domain (domain_index rows)
untaken_Fresh id domain rows f h = elim (Option-cases (JsMap.get domain (domain_index rows))) [
  | inl e ↦ JsMap.none-Fresh domain (domain_index rows) e
  | inr (other, e) ↦ absurd (
      indexed_row domain id rows (e ∙ ap some (free id domain rows h other e))
        (JsMap.get_missing id rows f))
]

tail-is_taken :
    (id domain j : Text) (r : StorableContext) (rows : JsMap StorableContext)
    → r.domain ≢ domain
    → is_taken id domain ((j, r) ∷ rows) ≡ false
    → is_taken id domain rows ≡ false
unfolding is_taken domain_index JsMap.get
tail-is_taken id domain j r rows n h = ground (arith, seq_eq_iff r.domain domain)

-- A row that takes the place of the first, and one that goes on.
replaced :
    (id domain : Text) (r : StorableContext) (rows : JsMap StorableContext)
    → JsMap.Fresh id rows
    → is_taken id domain ((id, r) ∷ rows) ≡ false
    → JsMap.Distinct (domain_index ((id, r) ∷ rows))
    → JsMap.Fresh domain (domain_index rows)
unfolding domain_index
replaced id domain r rows f h u = elim (Bool-cases (seq_eq r.domain domain)) [
  | inl e ↦ subst (λ t. JsMap.Fresh t (domain_index rows)) ((seq_eq_iff r.domain domain).0 e) u.0
  | inr e ↦
      untaken_Fresh id domain rows f
        (tail-is_taken id domain id r rows (differ r.domain domain e) h)
]

-- The next row keeps its domain to itself.
passed :
    (id j : Text) (row r : StorableContext) (rows : JsMap StorableContext)
    → j ≢ id
    → is_taken id row.domain ((j, r) ∷ rows) ≡ false
    → r.domain ≢ row.domain
unfolding is_taken domain_index JsMap.get
passed id j row r rows n h e = ground (arith, seq_eq_iff j id, seq_eq_iff r.domain row.domain)

-- A row whose domain no other has leaves the index unique.
pub set-domain_index :
    (id : Text) (row : StorableContext) (rows : JsMap StorableContext)
    → JsMap.Distinct rows
    → JsMap.Distinct (domain_index rows)
    → is_taken id row.domain rows ≡ false
    → JsMap.Distinct (domain_index (JsMap.set id row rows))
unfolding JsMap.set domain_index
set-domain_index id row [] d u h = (tt, tt)
set-domain_index id row ((j, r) ∷ rows) d u h = elim (Bool-cases (seq_eq j id)) [
  | inl e ↦
      let k = (seq_eq_iff j id).0 e in
      rw e (
        replaced j row.domain r rows d.0
            (subst (λ t. is_taken t row.domain ((j, r) ∷ rows) ≡ false) (sym k) h) u,
        u.1,
      )
  | inr e ↦
      let n = passed id j row r rows (differ j id e) h in
      rw e (
        set-Fresh r.domain id row rows n u.0,
        set-domain_index id row rows d.1 u.1 (tail-is_taken id row.domain j r rows n h),
      )
]
