-- ===== src/Cache/Races.antt =====
-- What becomes of the calls of Start and Stop of cache/cache.go that come before a goroutine has
-- written the status.
use dora_service_utils.Base.{
  ℕ, ◌+◌, ◌<◌, ◌≡◌, refl, Bool, true, false, some, [], ◌∷◌, arith, List, nat_beq, ◌||◌,
  Option-cases, inl, inr,
}
use dora_service_utils.Base.Result.{Result, ok, err, plain}
use dora_service_utils.Cache.{
  running, stopped, spawned, finished, Cache, Event, call_init, cancel, call_start, call_stop,
  begin, leave, poll, process, init, connect, poll_at, process_at, new, start, stop, call_cancel,
  begin_at, leave_at, step, run,
}
use dora_service_utils.Cache.Invariant.{Inv}
use dora_service_utils.Cache.Reachable.{step-Inv, reachable-Inv}

module _ {F R : Type 0} (process_func : F → R → R × Result (Unit {0})) where
  -- Two calls of Start before the first goroutine has written the status, and a Stop, from a cache
  -- where Start succeeds: the second Start succeeds as well, and the cache is stopped with the
  -- context of the second goroutine done, while the context of the first is not and the first
  -- goroutine is still to begin.
  pub second_start_loses_first :
      (c d : Cache F R)
      → (start c).1 ≡ ok tt
      → run process_func (call_start ∷ call_start ∷ call_stop ∷ []) c ≡ some d
      → ((start (start c).0).1 ≡ ok tt)
        × (d.status ≡ stopped)
        × (d.done c.count ≡ false)
        × (d.phase c.count ≡ spawned)
        × (d.done (c.count + 1) ≡ true)
        × (d.cancel_func ≡ some (c.count + 1))
  unfolding run step start stop call_cancel
  second_start_loses_first c d ok1 e = ground arith

  -- A Start that succeeds and a Stop before its goroutine has written the status: once that goroutine
  -- has begun and, as its context is done, returned, the status is running and Start refuses.
  pub early_stop_leaves_running :
      (c d : Cache F R) (r : Result (Unit {0}))
      → (start c).1 ≡ ok tt
      → run process_func (call_start ∷ call_stop ∷ begin c.count ∷ leave c.count r ∷ []) c ≡ some d
      → (d.status ≡ running)
        × (d.phase c.count ≡ finished)
        × (d.count ≡ c.count + 1)
        × ((start d).1 ≡ err plain)
  unfolding run step start stop call_cancel begin_at leave_at
  early_stop_leaves_running c d r ok1 e = ground arith

  -- Whether the parent of context `i` is cancelled.
  abbrev pub parent_cancels : ℕ → List (Event F) → Bool
  parent_cancels i [] = false
  parent_cancels i (cancel j ∷ es) = nat_beq j i || parent_cancels i es
  parent_cancels i (e ∷ es) = parent_cancels i es

  step_spares :
      (i : ℕ) (e : Event F) (c d : Cache F R)
      → Inv c
      → i + 1 < c.count
      → c.done i ≡ false
      → parent_cancels i (e ∷ []) ≡ false
      → step process_func e c ≡ some d
      → (i + 1 < d.count) × (d.done i ≡ false)
  unfolding step init connect start stop call_cancel begin_at poll_at leave_at process_at
  step_spares i (call_init r) c d h lt f p e = ground arith
  step_spares i call_start c d h lt f p e = ground arith
  step_spares i call_stop c d h lt f p e = ground (arith, h.last_cancel i)
  step_spares i (cancel j) c d h lt f p e = ground arith
  step_spares i (begin j) c d h lt f p e = ground arith
  step_spares i (poll j g) c d h lt f p e = ground arith
  step_spares i (process j) c d h lt f p e = ground arith
  step_spares i (leave j r) c d h lt f p e = ground arith

  parent_cancels_cons :
      (i : ℕ) (e : Event F) (es : List (Event F))
      → parent_cancels i (e ∷ es) ≡ parent_cancels i (e ∷ []) || parent_cancels i es
  parent_cancels_cons i (cancel j) es = ground arith
  parent_cancels_cons i (call_init r) es = refl
  parent_cancels_cons i call_start es = refl
  parent_cancels_cons i call_stop es = refl
  parent_cancels_cons i (begin j) es = refl
  parent_cancels_cons i (poll j f) es = refl
  parent_cancels_cons i (process j) es = refl
  parent_cancels_cons i (leave j r) es = refl

  run_spares :
      (i : ℕ) (es : List (Event F)) (c d : Cache F R)
      → Inv c
      → i + 1 < c.count
      → c.done i ≡ false
      → parent_cancels i es ≡ false
      → run process_func es c ≡ some d
      → d.done i ≡ false
  unfolding run
  run_spares i [] c d h lt f p e = ground arith
  run_spares i (v ∷ es) c d h lt f p e = elim (Option-cases (step process_func v c)) [
    | inl n ↦ absurd (ground arith)
    | inr (c', s) ↦
        let (lt', f') =
          step_spares i v c c' h lt f (ground (arith, parent_cancels_cons i v es)) s in
        run_spares i es c' d (step-Inv process_func v c c' h s) lt' f'
          (ground (arith, parent_cancels_cons i v es)) (ground (arith, s))
  ]

  -- A goroutine whose context is not done and after which another has been started, in a cache that any sequence of events has led
  -- to: no further sequence of events makes its context done unless its parent is cancelled in it,
  -- however often Stop is called.
  pub earlier_goroutine_not_stopped :
      (client : Bool) (r : R) (before after : List (Event F)) (c d : Cache F R) (i : ℕ)
      → run process_func before (new client r) ≡ some c
      → i + 1 < c.count
      → c.done i ≡ false
      → parent_cancels i after ≡ false
      → run process_func after c ≡ some d
      → d.done i ≡ false
  earlier_goroutine_not_stopped client r before after c d i e lt f p k =
      let (h, q) = reachable-Inv process_func client r before c e in
      run_spares i after c d h lt f p k
