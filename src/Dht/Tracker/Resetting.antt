-- ===== src/Dht/Tracker/Resetting.antt =====
-- A reset of failed operations keeps the shape of the table.
use holo_web_conductor.Common.{
  ℕ, suc, ◌≡◌, refl, ap, List, [], ◌∷◌, Text, length, if◌then◌else◌, arith,
}
use holo_web_conductor.Common.JsMap
use holo_web_conductor.Dht.Tracker.{Store, is_reset, reset_row, reset_from, reset_failed_for_dnas}
use holo_web_conductor.Dht.Tracker.Table.{IsTable, Keyed}

length-reset_from :
    (dnas : List Text) (n : ℕ) (s : Store) → length (reset_from dnas n s).1 ≡ length s
unfolding reset_from
length-reset_from dnas n [] = refl
length-reset_from dnas n ((k, r) ∷ s) =
    ap suc (length-reset_from dnas (if is_reset dnas r then suc n else n) s)

Fresh-reset_from :
    (dnas : List Text) (n : ℕ) (j : Text) (s : Store)
    → JsMap.Fresh j s
    → JsMap.Fresh j (reset_from dnas n s).1
unfolding reset_from
Fresh-reset_from dnas n j [] h = h
Fresh-reset_from dnas n j ((k, r) ∷ s) h =
    (h.0, Fresh-reset_from dnas (if is_reset dnas r then suc n else n) j s h.1)

Distinct-reset_from :
    (dnas : List Text) (n : ℕ) (s : Store)
    → JsMap.Distinct s
    → JsMap.Distinct (reset_from dnas n s).1
unfolding reset_from
Distinct-reset_from dnas n [] h = h
Distinct-reset_from dnas n ((k, r) ∷ s) h =
    let m = if is_reset dnas r then suc n else n in
    (Fresh-reset_from dnas m k s h.0, Distinct-reset_from dnas m s h.1)

Keyed-reset_from : (dnas : List Text) (n : ℕ) (s : Store) → Keyed s → Keyed (reset_from dnas n s).1
unfolding reset_from reset_row
Keyed-reset_from dnas n [] h = h
Keyed-reset_from dnas n ((k, r) ∷ s) h =
    ground (arith, Keyed-reset_from dnas n s h.1, Keyed-reset_from dnas (suc n) s h.1)

pub length-reset_failed :
    (dnas : List Text) (s : Store) → length (reset_failed_for_dnas dnas s).1 ≡ length s
unfolding reset_failed_for_dnas
length-reset_failed dnas s = length-reset_from dnas 0 s

pub reset_failed-IsTable :
    (dnas : List Text) (s : Store) → IsTable s → IsTable (reset_failed_for_dnas dnas s).1
unfolding reset_failed_for_dnas
reset_failed-IsTable dnas s h = record {
  distinct = Distinct-reset_from dnas 0 s h.distinct;
  keyed = Keyed-reset_from dnas 0 s h.keyed;
}
