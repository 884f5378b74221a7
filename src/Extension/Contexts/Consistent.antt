-- ===== src/Extension/Contexts/Consistent.antt =====
-- The contexts in memory agree with the rows of the database.
use holo_web_conductor.Common.{
  ◌≡◌, refl, sym, ap, ◌∙◌, subst, ◌≢◌, inl, inr, Bool, true, false, none, some, [], Text, seq_eq,
  seq_eq_iff, seq_eq_refl, if◌then◌else◌, Bool-cases,
}
use holo_web_conductor.Common.JsMap
use holo_web_conductor.Common.JsMap.{JsMap}
use holo_web_conductor.Extension.Contexts.{
  HappContext, StorableContext, from_storable, domain_index, is_taken,
}
use holo_web_conductor.Extension.Contexts.Rows.{
  IsKeyed, set-IsKeyed, delete-IsKeyed, set-domain_index, delete-domain_index, own-is_taken,
}
use holo_web_conductor.Extension.Contexts.Seen.{seen}

-- A row of the database that a context agrees with.
abbrev pub Shown : JsMap StorableContext → Text → HappContext → Type 0
Shown rows id c =
    (c.id ≡ id)
    × ((row : StorableContext) × (JsMap.get id rows ≡ some row)
        × (seen (from_storable row) ≡ seen c))

-- The rows of the database, the contexts in memory, and whether those were loaded.
pub record Consistent (rows : JsMap StorableContext) (cache : JsMap HappContext) (loaded : Bool)
    : Type 0 where
  pub keyed : IsKeyed rows
  pub distinct : JsMap.Distinct rows
  pub unique : JsMap.Distinct (domain_index rows)
  pub shown : (id : Text) (c : HappContext) → JsMap.get id cache ≡ some c → Shown rows id c
  pub complete : loaded ≡ true → (id : Text) → JsMap.get id cache ≡ none → JsMap.get id rows ≡ none

some-none : (c : HappContext) → some c ≢ none
some-none c e = cc

set_here : {V : Type 0} (k : Text) (v : V) (m : JsMap V) → JsMap.get k (JsMap.set k v m) ≡ some v
set_here k v m = rw (JsMap.get-set k k v m, seq_eq_refl k) refl

set_there :
    {V : Type 0} (k j : Text) (v : V) (m : JsMap V)
    → seq_eq k j ≡ false
    → JsMap.get j (JsMap.set k v m) ≡ JsMap.get j m
set_there k j v m e = rw (JsMap.get-set k j v m, e) refl

-- A new object, without contexts in memory.
pub restarted :
    {rows : JsMap StorableContext} {cache : JsMap HappContext} {loaded : Bool}
    → Consistent rows cache loaded
    → Consistent rows [] false
unfolding JsMap.get
restarted h = record {
  keyed = h.keyed;
  distinct = h.distinct;
  unique = h.unique;
  shown = λ id c e. cc;
  complete = λ e. cc;
}

module _ (id : Text) (rows : JsMap StorableContext) (cache : JsMap HappContext)
    (loaded : Bool) where
  -- A map that has a context in the place of what another has.
  abbrev pub Updated : HappContext → JsMap HappContext → Type 0
  Updated c after =
      (j : Text) → JsMap.get j after ≡ (if seq_eq id j then some c else JsMap.get j cache)

  Updated-here :
      (c : HappContext) (after : JsMap HappContext)
      → Updated c after
      → (j : Text) → seq_eq id j ≡ true
      → JsMap.get j after ≡ some c
  Updated-here c after g j e = rw (g j, e) refl

  Updated-there :
      (c : HappContext) (after : JsMap HappContext)
      → Updated c after
      → (j : Text) → seq_eq id j ≡ false
      → JsMap.get j after ≡ JsMap.get j cache
  Updated-there c after g j e = rw (g j, e) refl

  shown_there :
      (row : StorableContext) (j : Text) (d : HappContext)
      → seq_eq id j ≡ false
      → Shown rows j d
      → Shown (JsMap.set id row rows) j d
  shown_there row j d q (k, (old, e, s)) = (k, (old, set_there id j row rows q ∙ e, s))

  shown_here :
      (row : StorableContext) (c : HappContext) (j : Text) (d : HappContext)
      → c.id ≡ id
      → seen (from_storable row) ≡ seen c
      → seq_eq id j ≡ true
      → some c ≡ some d
      → Shown (JsMap.set id row rows) j d
  shown_here row c j d i e q k =
      let p : c ≡ d = cc in
      let v = (seq_eq_iff id j).0 q in
      subst (λ t. Shown (JsMap.set id row rows) j t) p
        (
          i ∙ v,
          (row, ap (λ t. JsMap.get t (JsMap.set id row rows)) (sym v) ∙ set_here id row rows, e),
        )

  again :
      (old row : StorableContext) (c : HappContext) (j : Text)
      → JsMap.get id rows ≡ some old
      → seen (from_storable row) ≡ seen (from_storable old)
      → seq_eq id j ≡ true
      → Shown rows j c
      → Shown (JsMap.set id row rows) j c
  again old row c j o e q (k, (r, f, s)) =
      let v = (seq_eq_iff id j).0 q in
      let g : some old ≡ some r = sym o ∙ ap (λ t. JsMap.get t rows) v ∙ f in
      let p : old ≡ r = cc in
      (
        k,
        (
          row,
          ap (λ t. JsMap.get t (JsMap.set id row rows)) (sym v) ∙ set_here id row rows,
          e ∙ ap (λ t. seen (from_storable t)) p ∙ s,
        ),
      )

  missing :
      (old : StorableContext) (j : Text)
      → JsMap.get id rows ≡ some old
      → seq_eq id j ≡ true
      → JsMap.get j rows ≢ none
  missing old j o q n =
      let v = (seq_eq_iff id j).0 q in
      let g : some old ≡ none = sym o ∙ ap (λ t. JsMap.get t rows) v ∙ n in cc

  -- A row is written, and the context in memory is what it shows.
  pub written :
      (row : StorableContext) (c : HappContext) (after : JsMap HappContext)
      → Consistent rows cache loaded
      → row.id ≡ id
      → c.id ≡ id
      → is_taken id row.domain rows ≡ false
      → seen (from_storable row) ≡ seen c
      → Updated c after
      → Consistent (JsMap.set id row rows) after loaded
  written row c after h r i t e g = record {
    keyed = set-IsKeyed id row rows r h.keyed;
    distinct = JsMap.set-Distinct id row rows h.distinct;
    unique = set-domain_index id row rows h.distinct h.unique t;
    shown = λ j d k. elim (Bool-cases (seq_eq id j)) [
      | inl q ↦ shown_here row c j d i e q (sym (Updated-here c after g j q) ∙ k)
      | inr q ↦ shown_there row j d q (h.shown j d (sym (Updated-there c after g j q) ∙ k))
    ];
    complete = λ l j k. elim (Bool-cases (seq_eq id j)) [
      | inl q ↦ absurd (some-none c (sym (Updated-here c after g j q) ∙ k))
      | inr q ↦ set_there id j row rows q ∙ h.complete l j (sym (Updated-there c after g j q) ∙ k)
    ];
  }

  -- A row is written that shows what the one before it did.
  pub rewritten :
      (old row : StorableContext)
      → Consistent rows cache loaded
      → JsMap.get id rows ≡ some old
      → row.id ≡ id
      → row.domain ≡ old.domain
      → seen (from_storable row) ≡ seen (from_storable old)
      → Consistent (JsMap.set id row rows) cache loaded
  rewritten old row h o r d e = record {
    keyed = set-IsKeyed id row rows r h.keyed;
    distinct = JsMap.set-Distinct id row rows h.distinct;
    unique =
        set-domain_index id row rows h.distinct h.unique
          (subst (λ t. is_taken id t rows ≡ false) (sym d) (own-is_taken id old rows h.unique o));
    shown = λ j c k. elim (Bool-cases (seq_eq id j)) [
      | inl q ↦ again old row c j o e q (h.shown j c k)
      | inr q ↦ shown_there row j c q (h.shown j c k)
    ];
    complete = λ l j k. elim (Bool-cases (seq_eq id j)) [
      | inl q ↦ absurd (missing old j o q (h.complete l j k))
      | inr q ↦ set_there id j row rows q ∙ h.complete l j k
    ];
  }

  shown_again :
      (c : HappContext) (j : Text) (d : HappContext)
      → Shown rows id c
      → seq_eq id j ≡ true
      → some c ≡ some d
      → Shown rows j d
  shown_again c j d s q k =
      let p : c ≡ d = cc in
      subst (λ t. Shown rows j t) p (subst (λ t. Shown rows t c) ((seq_eq_iff id j).0 q) s)

  -- The context in memory is one that the database shows.
  pub recached :
      (c : HappContext)
      → Consistent rows cache loaded
      → Shown rows id c
      → Consistent rows (JsMap.set id c cache) loaded
  recached c h s = record {
    keyed = h.keyed;
    distinct = h.distinct;
    unique = h.unique;
    shown = λ j d k. elim (Bool-cases (seq_eq id j)) [
      | inl q ↦
          shown_again c j d s q
            (sym (Updated-here c (JsMap.set id c cache) (λ t. JsMap.get-set id t c cache) j q) ∙ k)
      | inr q ↦ h.shown j d (sym (set_there id j c cache q) ∙ k)
    ];
    complete = λ l j k. elim (Bool-cases (seq_eq id j)) [
      | inl q ↦ absurd (
          some-none c
            (sym (Updated-here c (JsMap.set id c cache) (λ t. JsMap.get-set id t c cache) j q) ∙ k))
      | inr q ↦ h.complete l j (sym (set_there id j c cache q) ∙ k)
    ];
  }

  delete_there :
      {V : Type 0} (j : Text) (m : JsMap V)
      → seq_eq id j ≡ false
      → JsMap.get j (JsMap.delete id m) ≡ JsMap.get j m
  delete_there j m e = rw (JsMap.get-delete id j m, e) refl

  delete_here :
      {V : Type 0} (j : Text) (m : JsMap V)
      → seq_eq id j ≡ true
      → JsMap.get j (JsMap.delete id m) ≡ none
  delete_here j m e = rw (JsMap.get-delete id j m, e) refl

  kept :
      (j : Text) (d : HappContext)
      → seq_eq id j ≡ false
      → Shown rows j d
      → Shown (JsMap.delete id rows) j d
  kept j d q (k, (old, e, s)) = (k, (old, delete_there j rows q ∙ e, s))

  pub deleted :
      Consistent rows cache loaded
      → Consistent (JsMap.delete id rows) (JsMap.delete id cache) loaded
  deleted h = record {
    keyed = delete-IsKeyed id rows h.keyed;
    distinct = JsMap.delete-Distinct id rows h.distinct;
    unique = delete-domain_index id rows h.unique;
    shown = λ j d k. elim (Bool-cases (seq_eq id j)) [
      | inl q ↦ absurd (some-none d (sym k ∙ delete_here j cache q))
      | inr q ↦ kept j d q (h.shown j d (sym (delete_there j cache q) ∙ k))
    ];
    complete = λ l j k. elim (Bool-cases (seq_eq id j)) [
      | inl q ↦ delete_here j rows q
      | inr q ↦ delete_there j rows q ∙ h.complete l j (sym (delete_there j cache q) ∙ k)
    ];
  }
