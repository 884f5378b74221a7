-- ===== src/Common/JsMap.antt =====
-- A JavaScript `Map`, or an object used as one, with text keys: its entries in insertion order.
use holo_web_conductor.Common.Tests.{if◌then◌else◌, is_some}
use holo_web_conductor.Common.Lists.{length}
use holo_web_conductor.Common.Seq.{Text, seq_eq, seq_eq_iff}
use Prim.Native.Nat.{suc, ◌≤◌, ◌<◌}
use mathlib.Core.Path.{◌≡◌, refl}
use mathlib.Core.Logic.{◌≢◌}
use mathlib.Core.Bool.{Bool, true, false}
use mathlib.Core.Option.{Option, none, some}
use mathlib.Core.List.{List, [], ◌∷◌, ◌++◌}
use native.Mathlib.Omega.{arith}

abbrev pub JsMap {ℓ} : Type ℓ → Type ℓ
JsMap V = List (Text × V)

module _ {ℓ} {V : Type ℓ} where
  -- m.get(k)
  unfoldable pub get : Text → JsMap V → Option V
  get k [] = none
  get k ((j, v) ∷ m) = if seq_eq j k then some v else get k m

  -- m.has(k)
  unfoldable pub has : Text → JsMap V → Bool
  has k [] = false
  has k ((j, v) ∷ m) = if seq_eq j k then true else has k m

  -- m.set(k, v): a key that is present keeps its place, another goes to the end.
  unfoldable pub set : Text → V → JsMap V → JsMap V
  set k v [] = (k, v) ∷ []
  set k v ((j, w) ∷ m) = let rest = set k v m in if seq_eq j k then (j, v) ∷ m else (j, w) ∷ rest

  -- m.delete(k)
  unfoldable pub delete : Text → JsMap V → JsMap V
  delete k [] = []
  delete k ((j, w) ∷ m) = let rest = delete k m in if seq_eq j k then rest else (j, w) ∷ rest

  -- The key is not in the map.
  abbrev pub Fresh : Text → JsMap V → Type 0
  Fresh k [] = Unit
  Fresh k ((j, v) ∷ m) = (j ≢ k) × Fresh k m

  -- No key stands twice.
  abbrev pub Distinct : JsMap V → Type 0
  Distinct [] = Unit
  Distinct ((j, v) ∷ m) = Fresh j m × Distinct m

  pub get-set :
      (k j : Text) (v : V) (m : JsMap V)
      → get j (set k v m) ≡ (if seq_eq k j then some v else get j m)
  unfolding get set
  get-set k j v [] = ground arith
  get-set k j v ((i, w) ∷ m) =
      ground (arith, get-set k j v m, seq_eq_iff i k, seq_eq_iff i j, seq_eq_iff k j)

  pub get-delete :
      (k j : Text) (m : JsMap V) → get j (delete k m) ≡ (if seq_eq k j then none else get j m)
  unfolding get delete
  get-delete k j [] = ground arith
  get-delete k j ((i, w) ∷ m) =
      ground (arith, get-delete k j m, seq_eq_iff i k, seq_eq_iff i j, seq_eq_iff k j)

  pub Fresh-delete : (k j : Text) (m : JsMap V) → Fresh j m → Fresh j (delete k m)
  unfolding delete
  Fresh-delete k j [] h = tt
  Fresh-delete k j ((i, w) ∷ m) h = ground (arith, Fresh-delete k j m h.1)

  pub delete-Fresh : (k : Text) (m : JsMap V) → Fresh k (delete k m)
  unfolding delete
  delete-Fresh k [] = tt
  delete-Fresh k ((i, w) ∷ m) = ground (arith, delete-Fresh k m, seq_eq_iff i k)

  pub delete-Distinct : (k : Text) (m : JsMap V) → Distinct m → Distinct (delete k m)
  unfolding delete
  delete-Distinct k [] h = tt
  delete-Distinct k ((i, w) ∷ m) h = ground (arith, delete-Distinct k m h.1, Fresh-delete k i m h.0)

  -- On a map without the key, `set` appends and `delete` does nothing.
  pub set_new : (k : Text) (v : V) (m : JsMap V) → Fresh k m → set k v m ≡ m ++ (k, v) ∷ []
  unfolding set
  set_new k v [] h = refl
  set_new k v ((j, w) ∷ m) h = ground (arith, set_new k v m h.1, seq_eq_iff j k)

  pub delete_missing : (k : Text) (m : JsMap V) → Fresh k m → delete k m ≡ m
  unfolding delete
  delete_missing k [] h = refl
  delete_missing k ((j, w) ∷ m) h = ground (arith, delete_missing k m h.1, seq_eq_iff j k)

  pub set-delete :
      (k : Text) (v : V) (m : JsMap V) → set k v (delete k m) ≡ delete k m ++ (k, v) ∷ []
  set-delete k v m = set_new k v (delete k m) (delete-Fresh k m)

  pub get_missing : (k : Text) (m : JsMap V) → Fresh k m → get k m ≡ none
  unfolding get
  get_missing k [] h = refl
  get_missing k ((j, w) ∷ m) h = ground (arith, get_missing k m h.1, seq_eq_iff j k)

  pub none-Fresh : (k : Text) (m : JsMap V) → get k m ≡ none → Fresh k m
  unfolding get
  none-Fresh k [] h = tt
  none-Fresh k ((j, w) ∷ m) h = ground (arith, none-Fresh k m, seq_eq_iff j k)

  pub Fresh-set : (k j : Text) (v : V) (m : JsMap V) → k ≢ j → Fresh j m → Fresh j (set k v m)
  unfolding set
  Fresh-set k j v [] e h = (e, tt)
  Fresh-set k j v ((i, w) ∷ m) e h = ground (arith, Fresh-set k j v m e h.1)

  pub set-Distinct : (k : Text) (v : V) (m : JsMap V) → Distinct m → Distinct (set k v m)
  unfolding set
  set-Distinct k v [] h = (tt, tt)
  set-Distinct k v ((i, w) ∷ m) h =
      ground (arith, set-Distinct k v m h.1, seq_eq_iff i k, λ (e : k ≢ i). Fresh-set k i v m e h.0)

  pub length-delete-le : (k : Text) (m : JsMap V) → length (delete k m) ≤ length m
  unfolding delete
  length-delete-le k [] = omega arith
  length-delete-le k ((i, w) ∷ m) = ground (arith, length-delete-le k m)

  pub length-set-le : (k : Text) (v : V) (m : JsMap V) → length (set k v m) ≤ suc (length m)
  unfolding set
  length-set-le k v [] = omega arith
  length-set-le k v ((i, w) ∷ m) = ground (arith, length-set-le k v m)

  pub has-eq : (k : Text) (m : JsMap V) → has k m ≡ is_some (get k m)
  unfolding has get
  has-eq k [] = refl
  has-eq k ((j, v) ∷ m) = ground (arith, has-eq k m)

  pub length-delete-lt :
      (k : Text) (m : JsMap V) {v : V} → get k m ≡ some v → length (delete k m) < length m
  unfolding get delete
  length-delete-lt k [] h = cc
  length-delete-lt k ((j, w) ∷ m) {v} h =
      ground (arith, length-delete-lt k m {v = v}, length-delete-le k m)
