-- ===== src/DataNode/Worker/History.antt =====
-- What a worker has done after any sequence of signals.
use mathlib.Core.Path.{fun_ext, subst₂}
use mathlib.Core.List.{append-nil, append_assoc}
use di_traffic_database.Common.{
  ℕ, suc, ◌+◌, ◌<◌, ◌^◌, Bool, true, false, List, [], ◌∷◌, ◌++◌, ◌≡◌, arith, length, if◌then◌else◌,
  inl, inr, Option-cases, Bool-cases, sym, ap, ◌∙◌, subst,
}
use di_traffic_database.DataNode.Exceptions.{Try, ok, thrown, ok-injective, thrown-ne-ok, Try-cases}
use di_traffic_database.DataNode.Json.{Libraries}
use di_traffic_database.DataNode.Memtable.{Row}
use di_traffic_database.DataNode.Requests.{
  RegionAdminRequest, create_region, open_region, close_region, drop_region, Payload, write_payload,
  admin_payload, Signal,
}
use di_traffic_database.DataNode.Text.{Str}
use di_traffic_database.DataNode.Worker.{Worker, has, create}
use di_traffic_database.DataNode.Worker.Dispatch.{handle_absent, dispatch, handle_signal, run}
use di_traffic_database.DataNode.Worker.Accept.{
  Handled, unchanged-Handled, accepted_write, handle_write-Handled,
}
use di_traffic_database.DataNode.Worker.Write.{handle_write}
use di_traffic_database.DataNode.Worker.Lifecycle.{handle_status-Handled}
use di_traffic_database.DataNode.Worker.Rows.{rows_of, only_for, only_for-nil, create-rows}
use di_traffic_database.DataNode.Worker.Sound.{IsSound, has-some, has-none, create-IsSound}

-- A handler behind a test, with nothing done if the test fails.
guarded-Handled :
    {n : ℕ} {w w' : Worker} (test : Bool) (result : Try Worker)
    → (result ≡ ok w' → Handled n w (λ j. []) w')
    → IsSound n w
    → (if test then result else ok w) ≡ ok w'
    → Handled n w (λ j. []) w'
guarded-Handled true result h v e = h e
guarded-Handled {n} {w} false result h v e =
    subst (Handled n w (λ j. [])) (ok-injective e) (unchanged-Handled v)

module _ (lib : Libraries) where
  -- The rows that a signal adds to each region: a write to an open region adds the row that it makes.
  abbrev pub accepted : Worker → ℕ → Payload → ℕ → List Row
  accepted w id (write_payload request) = only_for id (accepted_write lib (w.regions id) request)
  accepted w id (admin_payload request) = λ j. []

  handle_absent-Handled :
      {n : ℕ} {w w' : Worker} (request : RegionAdminRequest) (id : ℕ)
      → IsSound n w
      → handle_absent lib w request id ≡ ok w'
      → Handled n w (λ j. []) w'
  unfolding handle_absent
  handle_absent-Handled (create_region paras) id v e =
      handle_status-Handled lib (create_region paras) id v e
  handle_absent-Handled {w = w} (open_region force) id v e =
      guarded-Handled (has w.closed_regions id) _
        (handle_status-Handled lib (open_region force) id v) v e
  handle_absent-Handled {w = w} (close_region force) id v e =
      guarded-Handled (has w.closed_regions id) _
        (handle_status-Handled lib (close_region force) id v) v e
  handle_absent-Handled {w = w} (drop_region keep_files) id v e =
      guarded-Handled (has w.closed_regions id) _
        (handle_status-Handled lib (drop_region keep_files) id v) v e

  dispatch-Handled :
      {n : ℕ} {w w' : Worker} (payload : Payload) (id : ℕ)
      → suc n < 2 ^ 64
      → IsSound n w
      → dispatch lib w payload id ≡ ok w'
      → Handled n w (accepted w id payload) w'
  unfolding dispatch
  dispatch-Handled {n} {w} {w'} (write_payload request) id short v e =
      elim (Option-cases (w.regions id)) [
        | inl absent ↦
            let same : ok w ≡ ok w' = rw (has-none w.regions id absent) at e in
            rw (absent, fun_ext (only_for-nil id))
              (subst (Handled n w (λ j. [])) (ok-injective same) (unchanged-Handled v))
        | inr (r, found) ↦
            let done : handle_write lib w request id ≡ ok w' =
              rw (has-some w.regions id found) at e in
            subst (λ o. Handled n w (only_for id (accepted_write lib o request)) w') (sym found)
              (handle_write-Handled lib request id r short v found done)
      ]
  dispatch-Handled {n} {w} {w'} (admin_payload request) id short v e =
      elim (Bool-cases (has w.regions id)) [
        | inl opened ↦ handle_status-Handled lib request id v (rw opened at e)
        | inr absent ↦ handle_absent-Handled request id v (rw absent at e)
      ]

  -- A signal that a sound worker handles without an exception adds its accepted row at the end of its
  -- region and changes no other row of any region, flushed or not; the worker stays sound. The memtables have room for one more
  -- row below 2 ^ 64.
  pub handle_signal-Handled :
      {n : ℕ} {w w' : Worker} (s : Signal)
      → suc n < 2 ^ 64
      → IsSound n w
      → handle_signal lib w s ≡ ok w'
      → Handled n w (accepted w s.region_id s.request.payload) w'
  unfolding handle_signal
  handle_signal-Handled s short v e = dispatch-Handled s.request.payload s.region_id short v e

  -- The rows accepted over a whole sequence of signals.
  unfoldable pub accepted_over : Worker → List Signal → ℕ → List Row
  accepted_over w [] j = []
  accepted_over w (s ∷ signals) j =
      accepted w s.region_id s.request.payload j
      ++ elim (handle_signal lib w s) [ ok w' ↦ accepted_over w' signals j | thrown x ↦ [] ]

  run_from :
      {n : ℕ} {w w' : Worker} (signals : List Signal)
      → n + length signals < 2 ^ 64
      → IsSound n w
      → run lib w signals ≡ ok w'
      → (j : ℕ) → rows_of w' j ≡ rows_of w j ++ accepted_over w signals j
  unfolding run accepted_over
  run_from {w = w} [] short v e j =
      ap (λ u. rows_of u j) (sym (ok-injective e)) ∙ sym (append-nil (rows_of w j))
  run_from {w = w} {w' = w'} (s ∷ signals) short v e j = elim (Try-cases (handle_signal lib w s)) [
    | inr (x, failed) ↦ absurd (thrown-ne-ok (rw (failed, run) at e))
    | inl (w₁, done) ↦
        let h = handle_signal-Handled s (omega arith) v done in
        let rest : run lib w₁ signals ≡ ok w' = rw (done, run) at e in
        run_from signals (omega arith) h.sound rest j
        ∙ ap (λ rows. rows ++ accepted_over w₁ signals j) (h.rows j)
        ∙ rw (done, accepted_over) (append_assoc (rows_of w j) _ _)
  ]

  -- From its start, a worker that has handled all signals without an exception has, for every region,
  -- the accepted rows and no others: those in the flush signals, in the order sent, and then those in
  -- the memtable make up the accepted rows in the order of the requests. The region may have been
  -- flushed, closed, created again, opened or dropped any number of times in between. There are fewer
  -- than 2 ^ 64 signals.
  pub run_conserves :
      (log_path : Str) (signals : List Signal) {w : Worker}
      → length signals < 2 ^ 64
      → run lib (create log_path) signals ≡ ok w
      → (j : ℕ) → rows_of w j ≡ accepted_over (create log_path) signals j
  run_conserves log_path signals short e j =
      run_from signals (omega (arith, short)) (create-IsSound log_path) e j ∙ started j
    where
      started :
          (j : ℕ)
          → rows_of (create log_path) j ++ accepted_over (create log_path) signals j
            ≡ accepted_over (create log_path) signals j
      started j =
          ap (λ rows. rows ++ accepted_over (create log_path) signals j) (create-rows log_path j)

  -- A sound worker that handles a sequence of signals without an exception is sound after it: open
  -- regions have a mutable memtable with the right row count and an SST, closed ones an SST and no
  -- memtable. The rows must not come to 2 ^ 64.
  pub run-IsSound :
      {n : ℕ} {w w' : Worker} (signals : List Signal)
      → n + length signals < 2 ^ 64
      → IsSound n w
      → run lib w signals ≡ ok w'
      → IsSound (n + length signals) w'
  unfolding run
  run-IsSound {n} {w} [] short v e =
      subst₂ IsSound {x = n} {y = n + 0} (omega arith) (ok-injective e) v
  run-IsSound {n} {w} {w'} (s ∷ signals) short v e = elim (Try-cases (handle_signal lib w s)) [
    | inr (x, failed) ↦ absurd (thrown-ne-ok (rw (failed, run) at e))
    | inl (w₁, done) ↦
        let h = handle_signal-Handled s (omega arith) v done in
        let rest : run lib w₁ signals ≡ ok w' = rw (done, run) at e in
        subst (λ k. IsSound k w') {x = suc n + length signals} {y = n + suc (length signals)}
          (omega arith) (run-IsSound signals (omega arith) h.sound rest)
  ]
