-- ===== src/Chain/Call/Runs.antt =====
-- The code of a zome at work: what it adds to the chain is what it leaves as pending records.
use holo_web_conductor.Common.{
  ℕ, ◌≡◌, refl, sym, ap, ◌∙◌, subst, Option, none, some, List, [], ◌∷◌, ◌++◌, map, append_assoc,
  append-nil, Bytes,
}
use holo_web_conductor.Chain.Types.{ChainAction}
use holo_web_conductor.Chain.Hash.{Crypto, SeparatesPlaces}
use holo_web_conductor.Chain.HostFunctions.{World, PendingRecord, HostCall, cell_of, host_call}
use holo_web_conductor.Chain.HostFunctions.Adding.{Done, host_call-Done}
use holo_web_conductor.Chain.Linked.Ready.{IsReady, chain, Extended, Adds-Extended}
use holo_web_conductor.Chain.Call.{
  Guest, returns, fails, traps, asks, reads, calls, Ended, ok, err, thrown, enter_zome, leave_zome,
  abandon_zome, run_guest,
}

abbrev pub actions_of : List PendingRecord → List ChainAction
actions_of records = map (λ r. r.action) records

pub actions_of-append :
    (xs ys : List PendingRecord) → actions_of (xs ++ ys) ≡ actions_of xs ++ actions_of ys
actions_of-append [] ys = refl
actions_of-append (x ∷ xs) ys = ap (λ t. x.action ∷ t) (actions_of-append xs ys)

-- The pending records that a run leaves: those before it with the new ones, unless it has thrown
-- or failed, when they are of no use.
unfoldable pub Leaves : Ended → (before news after : List PendingRecord) → Type 0
Leaves (ok value) before news after = after ≡ before ++ news
Leaves err before news after = Unit
Leaves thrown before news after = Unit

Leaves-ok :
    (value : Bytes) (before news after : List PendingRecord)
    → Leaves (ok value) before news after
    → after ≡ before ++ news
unfolding Leaves
Leaves-ok value before news after l = l

module _ (crypto : Crypto) where
  -- The records `news` lead from a world to a later one.
  unfoldable pub Grows : World → Ended → List PendingRecord → World → Type 0
  Grows w ended news v =
      (cell_of crypto v.context ≡ cell_of crypto w.context)
      × (chain (cell_of crypto w.context) v.db
          ≡ chain (cell_of crypto w.context) w.db ++ actions_of news)
      × IsReady crypto (cell_of crypto w.context) v.db
      × Leaves ended w.context.pending_records news v.context.pending_records

  unfoldable pub Ran : World → Ended × World → Type 0
  Ran w (ended, v) = (news : List PendingRecord) × Grows w ended news v

  stays :
      (w : World) (ended : Ended)
      → IsReady crypto (cell_of crypto w.context) w.db
      → Ran w (ended, w)
  unfolding Ran Grows Leaves
  stays w (ok value) h = (
    [],
    (
      refl,
      sym (append-nil (chain (cell_of crypto w.context) w.db)),
      h,
      sym (append-nil w.context.pending_records),
    ),
  )
  stays w err h = ([], (refl, sym (append-nil (chain (cell_of crypto w.context) w.db)), h, tt))
  stays w thrown h = ([], (refl, sym (append-nil (chain (cell_of crypto w.context) w.db)), h, tt))

  joined_Leaves :
      (ended : Ended) (before mid after first more : List PendingRecord)
      → mid ≡ before ++ first
      → Leaves ended mid more after
      → Leaves ended before (first ++ more) after
  unfolding Leaves
  joined_Leaves (ok value) before mid after first more e l =
      l ∙ ap (λ t. t ++ more) e ∙ append_assoc before first more
  joined_Leaves err before mid after first more e l = tt
  joined_Leaves thrown before mid after first more e l = tt

  joined :
      (w v u : World) (value : Bytes) (ended : Ended) (first more : List PendingRecord)
      → Grows w (ok value) first v
      → Grows v ended more u
      → Grows w ended (first ++ more) u
  unfolding Grows
  joined w v u value ended first more (c, g, h, l) (d, k, j, m) = (
    d ∙ c,
    subst (λ t. chain t u.db ≡ chain t v.db ++ actions_of more) c k
        ∙ ap (λ t. t ++ actions_of more) g
        ∙ append_assoc (chain (cell_of crypto w.context) w.db) (actions_of first) (actions_of more)
        ∙ ap (λ t. chain (cell_of crypto w.context) w.db ++ t) (sym (actions_of-append first more)),
    subst (λ t. IsReady crypto t u.db) c j,
    joined_Leaves ended w.context.pending_records v.context.pending_records
        u.context.pending_records first more (Leaves-ok value _ first _ l) m,
  )

  Grows_ready :
      (w v : World) (value : Bytes) (first : List PendingRecord)
      → Grows w (ok value) first v
      → IsReady crypto (cell_of crypto v.context) v.db
  unfolding Grows
  Grows_ready w v value first (c, g, h, l) = subst (λ t. IsReady crypto t v.db) (sym c) h

  -- A run goes on from a world that is reached with some records.
  goes_on :
      (w v : World) (value : Bytes) (first : List PendingRecord) (end : Ended × World)
      → Grows w (ok value) first v
      → (IsReady crypto (cell_of crypto v.context) v.db → Ran v end)
      → Ran w end
  unfolding Ran
  goes_on w v value first (ended, u) g next =
      let (more, h) = next (Grows_ready w v value first g) in
      (first ++ more, joined w v u value ended first more g h)

  -- A host function that answers.
  asked :
      (separate : SeparatesPlaces crypto) (w v : World) (r : PendingRecord) (value : Bytes)
      → Extended crypto w r v
      → Grows w (ok value) (r ∷ []) v
  unfolding Extended Grows Leaves
  asked separate w v r value (c, p, g, h) = (c, g, h, p)

  -- The end of the code of another zome, whose records are fresh.
  left :
      (w v : World) (i : ℕ) (value : Bytes) (news : List PendingRecord)
      → Grows (enter_zome i w) (ok value) news v
      → Grows w (ok value) news (leave_zome w v)
  unfolding Grows enter_zome leave_zome Leaves
  left w v i value news (c, g, h, l) = (refl, g, h, ap (λ t. w.context.pending_records ++ t) l)

  entered :
      (w : World) (i : ℕ)
      → IsReady crypto (cell_of crypto w.context) w.db
      → IsReady crypto (cell_of crypto (enter_zome i w).context) (enter_zome i w).db
  unfolding enter_zome
  entered w i h = h

  after_call :
      (w : World) (i : ℕ) (next : Bytes → Guest) (end : Ended × World)
      → Ran (enter_zome i w) end
      → ((a : Bytes) (v : World)
          → IsReady crypto (cell_of crypto v.context) v.db
          → Ran v (run_guest crypto (next a) v))
      → Ran w (
          let (ended, v) = end in
          elim ended [
            | ok answer ↦ run_guest crypto (next answer) (leave_zome w v)
            | err ↦ (thrown, leave_zome w v)
            | thrown ↦ (thrown, abandon_zome w v)
          ])
  unfolding Ran Grows enter_zome leave_zome abandon_zome Leaves
  after_call w i next (ok value, v) (news, g) h =
      goes_on w (leave_zome w v) value news (run_guest crypto (next value) (leave_zome w v))
        (left w v i value news g) (h value (leave_zome w v))
  after_call w i next (err, v) (news, (c, g, h, l)) k = (news, (refl, g, h, tt))
  after_call w i next (thrown, v) (news, (c, g, h, l)) k = (news, (refl, g, h, tt))

  module _ (separate : SeparatesPlaces crypto) where
    after_ask :
        (h : HostCall) (next : Bytes → Guest) (w : World) (o : Option (Bytes × World))
        → IsReady crypto (cell_of crypto w.context) w.db
        → Done crypto h w o
        → ((a : Bytes) (v : World)
            → IsReady crypto (cell_of crypto v.context) v.db
            → Ran v (run_guest crypto (next a) v))
        → Ran w
            (elim o [ none ↦ (thrown, w) | some (answer, v) ↦ run_guest crypto (next answer) v ])
    unfolding Done
    after_ask h next w none ready d k = stays w thrown ready
    after_ask h next w (some (answer, v)) ready (r, a, e, fit, entry) k =
        goes_on w v answer (r ∷ []) (run_guest crypto (next answer) v)
          (asked separate w v r answer (Adds-Extended crypto separate w v r ready a)) (k answer v)

    -- The code of a zome that is run on a ready cell leaves it ready, whether it returns, fails or
    -- throws, has added to the chain exactly the actions of some records, in their order, and if
    -- it returns, those records are what it has added to the pending ones.
    pub run_guest-Ran :
        (g : Guest) (w : World)
        → IsReady crypto (cell_of crypto w.context) w.db
        → Ran w (run_guest crypto g w)
    unfolding run_guest
    run_guest-Ran (returns value) w h = stays w (ok value) h
    run_guest-Ran fails w h = stays w err h
    run_guest-Ran traps w h = stays w thrown h
    run_guest-Ran (asks now c next) w h =
        after_ask c next w (host_call crypto now c w) h (host_call-Done crypto now c w)
          (λ a v. run_guest-Ran (next a) v)
    run_guest-Ran (reads question next) w h = run_guest-Ran (next (question w.db)) w h
    run_guest-Ran (calls i callee next) w h =
        after_call w i next (run_guest crypto callee (enter_zome i w))
          (run_guest-Ran callee (enter_zome i w) (entered w i h)) (λ a v. run_guest-Ran (next a) v)
