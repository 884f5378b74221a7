-- ===== src/Common/Seq.antt =====
-- Byte arrays and texts, both lists of numbers, and their comparison.
use Prim.Native.Nat.{ℕ, zero, suc, ◌+◌, ◌/◌, ◌%◌}
use Prim.Native.Char.{code}
use Prim.Native.String.{String}
use mathlib.Core.Path.{◌≡◌, refl}
use mathlib.Core.Logic.{◌↔◌}
use mathlib.Core.Bool.{Bool, true, false, ◌&&◌}
use mathlib.Core.List.{List, [], ◌∷◌, ◌++◌}
use native.Mathlib.Omega.{arith}
use holo_web_conductor.Common.Tests.{◌==◌, ltb, if◌then◌else◌}

-- A Uint8Array.
abbrev pub Bytes : Type 0
Bytes = List ℕ

-- A string, as its code units.
abbrev pub Text : Type 0
Text = List ℕ

-- The code points of a literal text.
abbrev pub codes : String → Text
codes String.[] = []
codes (String.◌∷◌ c s) = code c ∷ codes s

-- `a.length === b.length && a.every((x, i) => x === b[i])`, and `===` on strings.
unfoldable pub seq_eq : List ℕ → List ℕ → Bool
seq_eq [] [] = true
seq_eq [] (y ∷ ys) = false
seq_eq (x ∷ xs) [] = false
seq_eq (x ∷ xs) (y ∷ ys) = x == y && seq_eq xs ys

-- `s.startsWith(p)`
unfoldable pub starts_with : List ℕ → List ℕ → Bool
starts_with [] s = true
starts_with (p ∷ ps) [] = false
starts_with (p ∷ ps) (c ∷ cs) = p == c && starts_with ps cs

pub seq_eq_refl : (a : List ℕ) → seq_eq a a ≡ true
unfolding seq_eq
seq_eq_refl [] = refl
seq_eq_refl (x ∷ xs) = ground (arith, seq_eq_refl xs)

pub seq_eq_sound : (a b : List ℕ) → seq_eq a b ≡ true → a ≡ b
unfolding seq_eq
seq_eq_sound [] [] h = refl
seq_eq_sound [] (y ∷ ys) h = cc
seq_eq_sound (x ∷ xs) [] h = cc
seq_eq_sound (x ∷ xs) (y ∷ ys) h = ground (arith, seq_eq_sound xs ys)

pub seq_eq_iff : (a b : List ℕ) → (seq_eq a b ≡ true) ↔ (a ≡ b)
seq_eq_iff a b = (seq_eq_sound a b, λ e. rw e (seq_eq_refl b))

decimal_from : ℕ → ℕ → Text
decimal_from zero n = []
decimal_from (suc fuel) n =
    let rest = decimal_from fuel (n / 10) in
    if ltb n 10 then (48 + n) ∷ [] else rest ++ (48 + n % 10) ∷ []

-- `${n}` for a whole number.
unfoldable pub decimal : ℕ → Text
unfolding decimal_from
decimal n = decimal_from (suc n) n

pub starts_with_append : (p q : List ℕ) → starts_with p (p ++ q) ≡ true
unfolding starts_with
starts_with_append [] q = refl
starts_with_append (x ∷ xs) q = ground (arith, starts_with_append xs q)
