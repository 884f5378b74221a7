-- ===== src/Dht/Tracker/Counting.antt =====
-- The counts by status, and what `resetFailedForDnas` does to them.
use holo_web_conductor.Common.{
  ℕ, suc, ◌+◌, ◌≡◌, refl, ◌&&◌, none, List, [], ◌∷◌, Text, if◌then◌else◌, arith, length,
}
use holo_web_conductor.Common.JsMap
use holo_web_conductor.Dht.Tracker.{
  PublishStatus, pending, in_flight, failed, Row, Store, status_eq, rows, count_one, count_rows,
  Counts, get_status_counts, has_dna, DnaCounts, count_for_dna, count_for_dnas,
  get_status_counts_for_dnas, is_reset, reset_row, reset_from, reset_failed_for_dnas,
}
use holo_web_conductor.Dht.Tracker.Updates.{map_row}

abbrev total : Counts → ℕ
total c = c.pending + c.in_flight + c.published + c.failed

count_rows-total : (c : Counts) (rs : List Row) → total (count_rows c rs) ≡ total c + length rs
unfolding count_rows count_one
count_rows-total c [] = omega arith
count_rows-total c (r ∷ rs) = ground (arith, count_rows-total (count_one r.status c) rs)

length-rows : (s : Store) → length (rows s) ≡ length s
length-rows [] = refl
length-rows (e ∷ s) = rw (length-rows s)

-- Every row is counted under one status: the four counts add up to the size of the table.
pub get_status_counts-total :
    (s : Store)
    → let c = get_status_counts s in c.pending + c.in_flight + c.published + c.failed ≡ length s
unfolding get_status_counts
get_status_counts-total s = omega (
  arith,
  count_rows-total (record { pending = 0; in_flight = 0; published = 0; failed = 0 }) (rows s),
  length-rows s,
)

-- The rows of the DNAs with a status.
abbrev num : List Text → PublishStatus → List Row → ℕ
num dnas status [] = 0
num dnas status (r ∷ rs) =
    let n = num dnas status rs in
    if has_dna dnas r.dna_hash_str && status_eq r.status status then suc n else n

count_for_dnas-num :
    (dnas : List Text) (c : DnaCounts) (rs : List Row)
    → let d = count_for_dnas dnas c rs in
      (d.pending ≡ c.pending + num dnas pending rs)
      × (d.in_flight ≡ c.in_flight + num dnas in_flight rs)
      × (d.failed ≡ c.failed + num dnas failed rs)
unfolding count_for_dnas count_for_dna
count_for_dnas-num dnas c [] = omega arith
count_for_dnas-num dnas c (r ∷ rs) =
    ground
      (arith, count_for_dnas-num dnas (count_for_dna r.status c) rs, count_for_dnas-num dnas c rs)

reset_from-num :
    (dnas : List Text) (n : ℕ) (s : Store)
    → let (n', s') = reset_from dnas n s in
      (n' ≡ n + num dnas failed (rows s))
      × (num dnas pending (rows s') ≡ num dnas pending (rows s) + num dnas failed (rows s))
      × (num dnas in_flight (rows s') ≡ num dnas in_flight (rows s))
      × (num dnas failed (rows s') ≡ 0)
unfolding reset_from is_reset reset_row
reset_from-num dnas n [] = omega arith
reset_from-num dnas n ((k, r) ∷ s) =
    ground (arith, reset_from-num dnas n s, reset_from-num dnas (suc n) s)

counted :
    (dnas : List Text) (s : Store)
    → let before = get_status_counts_for_dnas dnas s in
      let (n, s') = reset_failed_for_dnas dnas s in
      let after = get_status_counts_for_dnas dnas s' in
      (n ≡ before.failed)
      × (after.failed ≡ 0)
      × (after.pending ≡ before.pending + before.failed)
      × (after.in_flight ≡ before.in_flight)
unfolding get_status_counts_for_dnas reset_failed_for_dnas
counted dnas s = omega (
  arith,
  reset_from-num dnas 0 s,
  count_for_dnas-num dnas (record { pending = 0; in_flight = 0; failed = 0 }) (rows s),
  count_for_dnas-num dnas (record { pending = 0; in_flight = 0; failed = 0 })
      (rows (reset_from dnas 0 s).1),
)

get-reset_from :
    (dnas : List Text) (n : ℕ) (s : Store) (k : Text)
    → JsMap.get k (reset_from dnas n s).1
      ≡ map_row (λ r. if is_reset dnas r then reset_row r else r) (JsMap.get k s)
unfolding reset_from JsMap.get
get-reset_from dnas n [] k = refl
get-reset_from dnas n ((j, r) ∷ s) k =
    ground (arith, get-reset_from dnas n s k, get-reset_from dnas (suc n) s k)

-- Row by row: a failed operation of the DNAs becomes pending with no error and no retries counted,
-- and every other row is as it was.
pub get-reset_failed :
    (dnas : List Text) (s : Store) (k : Text)
    → JsMap.get k (reset_failed_for_dnas dnas s).1
      ≡ map_row
          (λ r.
            if has_dna dnas r.dna_hash_str && status_eq r.status failed
            then record r { status = pending; error = none; retry_count = 0 }
            else r)
          (JsMap.get k s)
unfolding reset_failed_for_dnas is_reset reset_row
get-reset_failed dnas s k = get-reset_from dnas 0 s k

-- A reset for some DNAs returns the number of their failed operations, and moves just those to
-- pending: afterwards none of these DNAs' operations is failed, the pending ones are as many as
-- were pending or failed before, and those in flight are as many as before; and row by row, a
-- failed operation of these DNAs is pending with no error and no tries, and every other row is as
-- it was.
pub reset_failed-counts :
    (dnas : List Text) (s : Store)
    → let before = get_status_counts_for_dnas dnas s in
      let (n, s') = reset_failed_for_dnas dnas s in
      let after = get_status_counts_for_dnas dnas s' in
      (n ≡ before.failed)
      × (after.failed ≡ 0)
      × (after.pending ≡ before.pending + before.failed)
      × (after.in_flight ≡ before.in_flight)
      × ((k : Text)
          → JsMap.get k s'
            ≡ map_row
                (λ r.
                  if has_dna dnas r.dna_hash_str && status_eq r.status failed
                  then record r { status = pending; error = none; retry_count = 0 }
                  else r)
                (JsMap.get k s))
reset_failed-counts dnas s =
    let (n, f, p, i) = counted dnas s in (n, f, p, i, get-reset_failed dnas s)
