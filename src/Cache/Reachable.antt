-- ===== src/Cache/Reachable.antt =====
-- What holds of a cache of cache/cache.go after every sequence of calls and of parts of its
-- goroutines.
use dora_service_utils.Base.{
  ℕ, ◌≡◌, ◌≢◌, ◌↔◌, refl, subst, Bool, not, ◌||◌, none, some, List, [], ◌∷◌, arith, Option-cases,
  inl, inr,
}
use dora_service_utils.Base.Result.{Result, is_ok}
use dora_service_utils.Cache.{
  running, move, call_init, call_start, call_stop, cancel, begin, poll, process, leave, Phase,
  absent, spawned, polling, finished, fetched, Cache, Event, new, stop, call_cancel, begin_at,
  poll_at, leave_at, process_at, step, run,
}
use dora_service_utils.Cache.Invariant.{
  Inv, new-Inv, init-Inv, start-Inv, cancel-Inv, stop-Inv, move-Inv,
}

module _ {F R : Type 0} where
  running-Inv :
      (i : ℕ) (c : Cache F R)
      → c.phase i ≢ absent
      → Inv c
      → Inv (move i polling (record c { status = running }))
  running-Inv i c a h = record {
    numbered = λ j. ground (arith, h.numbered j, h.numbered i);
    idle = λ e. absurd (ground arith);
    connected = λ n. ground (arith, h.numbered i, h.idle, h.connected);
    no_cancel = h.no_cancel;
    last_cancel = h.last_cancel;
    begun = λ r. (i, ground arith);
  }

  begin_at-Inv :
      (i : ℕ) (p : Phase F) (c d : Cache F R)
      → c.phase i ≡ p
      → Inv c
      → begin_at i p c ≡ some d
      → Inv d
  unfolding begin_at
  begin_at-Inv i spawned c d q h e =
      subst Inv (ground arith) (running-Inv i c (λ a. ground arith) h)
  begin_at-Inv i absent c d q h e = absurd (ground arith)
  begin_at-Inv i polling c d q h e = absurd (ground arith)
  begin_at-Inv i finished c d q h e = absurd (ground arith)
  begin_at-Inv i (fetched f) c d q h e = absurd (ground arith)

  poll_at-Inv :
      (i : ℕ) (f : F) (p : Phase F) (c d : Cache F R)
      → c.phase i ≡ p
      → Inv c
      → poll_at i f p c ≡ some d
      → Inv d
  unfolding poll_at
  poll_at-Inv i f polling c d q h e =
      subst Inv (ground arith)
        (move-Inv i (fetched f) c.records c.client_closed c (λ a. ground arith) (ground arith) h)
  poll_at-Inv i f absent c d q h e = absurd (ground arith)
  poll_at-Inv i f spawned c d q h e = absurd (ground arith)
  poll_at-Inv i f finished c d q h e = absurd (ground arith)
  poll_at-Inv i f (fetched g) c d q h e = absurd (ground arith)

  leave_at-Inv :
      (i : ℕ) (r : Result (Unit {0})) (p : Phase F) (c d : Cache F R)
      → c.phase i ≡ p
      → Inv c
      → leave_at i r p c ≡ some d
      → Inv d
  unfolding leave_at
  leave_at-Inv i r polling c d q h e = subst Inv (ground arith) (
      move-Inv i finished c.records (c.client_closed || not (is_ok r)) c (λ a. ground arith)
        (ground arith) h)
  leave_at-Inv i r absent c d q h e = absurd (ground arith)
  leave_at-Inv i r spawned c d q h e = absurd (ground arith)
  leave_at-Inv i r finished c d q h e = absurd (ground arith)
  leave_at-Inv i r (fetched g) c d q h e = absurd (ground arith)

module _ {F R : Type 0} (process_func : F → R → R × Result (Unit {0})) where
  process_at-Inv :
      (i : ℕ) (p : Phase F) (c d : Cache F R)
      → c.phase i ≡ p
      → Inv c
      → process_at process_func i p c ≡ some d
      → Inv d
  unfolding process_at
  process_at-Inv i (fetched f) c d q h e = subst Inv (ground arith) (
      move-Inv i polling (process_func f c.records).0 c.client_closed c (λ a. ground arith)
        (ground arith) h)
  process_at-Inv i absent c d q h e = absurd (ground arith)
  process_at-Inv i spawned c d q h e = absurd (ground arith)
  process_at-Inv i finished c d q h e = absurd (ground arith)
  process_at-Inv i polling c d q h e = absurd (ground arith)

  pub step-Inv : (e : Event F) (c d : Cache F R) → Inv c → step process_func e c ≡ some d → Inv d
  unfolding step
  step-Inv (call_init r) c d h e = subst Inv (ground arith) (init-Inv r c h)
  step-Inv call_start c d h e = subst Inv (ground arith) (start-Inv c h)
  step-Inv call_stop c d h e = stop-Inv c d h e
  step-Inv (cancel i) c d h e = subst Inv (ground arith) (cancel-Inv i c h)
  step-Inv (begin i) c d h e = begin_at-Inv i (c.phase i) c d refl h e
  step-Inv (poll i f) c d h e = poll_at-Inv i f (c.phase i) c d refl h e
  step-Inv (process i) c d h e = process_at-Inv i (c.phase i) c d refl h e
  step-Inv (leave i r) c d h e = leave_at-Inv i r (c.phase i) c d refl h e

  run-Inv : (es : List (Event F)) (c d : Cache F R) → Inv c → run process_func es c ≡ some d → Inv d
  unfolding run
  run-Inv [] c d h e = subst Inv (ground arith) h
  run-Inv (v ∷ es) c d h e = elim (Option-cases (step process_func v c)) [
    | inl n ↦ absurd (ground arith)
    | inr (c', s) ↦ run-Inv es c' d (step-Inv v c c' h s) (ground (arith, s))
  ]

  -- After any sequence of calls and of parts of the goroutines, in any order, from a new cache: the
  -- goroutines are numbered from 0 up to the count; a cache that is not ready has none, and any
  -- other has a client; a Stop would panic exactly where no goroutine has been started, and else
  -- cancels the context of the last one; a cache whose status is running has a goroutine that has
  -- begun.
  pub reachable-Inv :
      (client : Bool) (r : R) (es : List (Event F)) (c : Cache F R)
      → run process_func es (new client r) ≡ some c
      → Inv c × ((stop c ≡ none) ↔ (c.count ≡ 0))
  unfolding stop call_cancel
  reachable-Inv client r es c e =
      let h = run-Inv es (new client r) c (new-Inv client r) e in (h, ground (arith, h.no_cancel))
