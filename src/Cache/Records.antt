-- ===== src/Cache/Records.antt =====
-- What a cache of cache/cache.go holds: the batches that its goroutines have processed, one after
-- the other.
use dora_service_utils.Base.{
  ℕ, ◌≡◌, refl, sym, ap, ◌∙◌, subst, Bool, none, some, List, [], ◌∷◌, ◌++◌, arith, nat_beq,
  if◌then◌else◌, Option-cases, inl, inr,
}
use mathlib.Core.List.{append-nil, append_assoc}
use dora_service_utils.Base.Result.{Result}
use dora_service_utils.Cache.{
  Phase, fetched, Cache, Event, call_init, call_start, call_stop, cancel, begin, poll, process,
  leave, new, init, start, stop, connect, call_cancel, begin_at, poll_at, leave_at, process_at,
  step, run,
}
use dora_service_utils.Cache.Invariant.{Inv, new-Inv}
use dora_service_utils.Cache.Reachable.{step-Inv}

module _ {F : Type 0} where
  -- A batch that has been polled and not processed.
  abbrev pub pending : Phase F → List F
  pending (fetched f) = f ∷ []
  pending _ = []

  -- What goroutine `i` polls in a sequence of events.
  abbrev pub polled : ℕ → List (Event F) → List F
  polled i [] = []
  polled i (poll j f ∷ es) = if nat_beq j i then f ∷ polled i es else polled i es
  polled i (e ∷ es) = polled i es

  -- The batches of goroutine `i`.
  abbrev pub of_goroutine : ℕ → List (ℕ × F) → List F
  of_goroutine i [] = []
  of_goroutine i ((j, f) ∷ l) = if nat_beq j i then f ∷ of_goroutine i l else of_goroutine i l

  abbrev batch_at : ℕ → Phase F → List (ℕ × F)
  batch_at i (fetched f) = (i, f) ∷ []
  batch_at i _ = []

  of_goroutine-append :
      (i : ℕ) (l k : List (ℕ × F)) → of_goroutine i (l ++ k) ≡ of_goroutine i l ++ of_goroutine i k
  of_goroutine-append i [] k = refl
  of_goroutine-append i ((j, f) ∷ l) k = ground (arith, of_goroutine-append i l k)

  pub polled_cons :
      (i : ℕ) (e : Event F) (es : List (Event F))
      → polled i (e ∷ es) ≡ polled i (e ∷ []) ++ polled i es
  polled_cons i (poll j f) es = ground arith
  polled_cons i (call_init r) es = refl
  polled_cons i call_start es = refl
  polled_cons i call_stop es = refl
  polled_cons i (cancel j) es = refl
  polled_cons i (begin j) es = refl
  polled_cons i (process j) es = refl
  polled_cons i (leave j r) es = refl

module _ {F R : Type 0} (process_func : F → R → R × Result (Unit {0})) where
  -- Batches applied one after the other.
  abbrev pub apply_all : List (ℕ × F) → R → R
  apply_all [] r = r
  apply_all ((i, f) ∷ l) r = apply_all l (process_func f r).0

  -- The batch that an event processes.
  unfoldable pub batch : Event F → Cache F R → List (ℕ × F)
  batch (process i) c = batch_at i (c.phase i)
  batch _ c = []

  -- The batches that a run processes, each with its goroutine.
  unfoldable pub processed : List (Event F) → Cache F R → List (ℕ × F)
  unfolding batch step
  processed [] c = []
  processed (e ∷ es) c = elim (step process_func e c) [
    | none ↦ []
    | some c' ↦ batch e c ++ processed es c'
  ]

  apply_all-append :
      (l k : List (ℕ × F)) (r : R) → apply_all (l ++ k) r ≡ apply_all k (apply_all l r)
  apply_all-append [] k r = refl
  apply_all-append ((i, f) ∷ l) k r = apply_all-append l k (process_func f r).0

  -- The records follow the batches, and goroutine `i` loses none and adds none.
  abbrev Follows : Event F → Cache F R → Cache F R → Type 0
  Follows e c d =
      (d.records ≡ apply_all (batch e c) c.records)
      × ((i : ℕ)
          → of_goroutine i (batch e c) ++ pending (d.phase i)
            ≡ pending (c.phase i) ++ polled i (e ∷ []))

  init-Follows : (r : Result (Unit {0})) (c : Cache F R) → Follows (call_init r) c (init r c).0
  unfolding init connect batch
  init-Follows r c = (ground arith, λ j. ground arith)

  start-Follows : (c : Cache F R) → Inv c → Follows call_start c (start c).0
  unfolding start batch
  start-Follows c h = (ground arith, λ j. ground (arith, h.numbered c.count, h.numbered j))

  stop-Follows : (c d : Cache F R) → stop c ≡ some d → Follows call_stop c d
  unfolding stop call_cancel batch
  stop-Follows c d e = (ground arith, λ j. ground arith)

  cancel-Follows :
      (i : ℕ) (c d : Cache F R) → step process_func (cancel i) c ≡ some d → Follows (cancel i) c d
  unfolding step batch
  cancel-Follows i c d e = (ground arith, λ j. ground arith)

  begin-Follows :
      (i : ℕ) (p : Phase F) (c d : Cache F R)
      → c.phase i ≡ p
      → begin_at i p c ≡ some d
      → Follows (begin i) c d
  unfolding begin_at batch
  begin-Follows i p c d q e = (ground arith, λ j. ground arith)

  poll-Follows :
      (i : ℕ) (f : F) (p : Phase F) (c d : Cache F R)
      → c.phase i ≡ p
      → poll_at i f p c ≡ some d
      → Follows (poll i f) c d
  unfolding poll_at batch
  poll-Follows i f p c d q e = (ground arith, λ j. ground arith)

  process-Follows :
      (i : ℕ) (p : Phase F) (c d : Cache F R)
      → c.phase i ≡ p
      → process_at process_func i p c ≡ some d
      → Follows (process i) c d
  unfolding process_at batch
  process-Follows i p c d q e = (ground arith, λ j. ground arith)

  leave-Follows :
      (i : ℕ) (r : Result (Unit {0})) (p : Phase F) (c d : Cache F R)
      → c.phase i ≡ p
      → leave_at i r p c ≡ some d
      → Follows (leave i r) c d
  unfolding leave_at batch
  leave-Follows i r p c d q e = (ground arith, λ j. ground arith)

  step-Follows :
      (e : Event F) (c d : Cache F R) → Inv c → step process_func e c ≡ some d → Follows e c d
  unfolding step
  step-Follows (call_init r) c d h e =
      subst (Follows (call_init r) c) {x = (init r c).0} {y = d} (ground arith) (init-Follows r c)
  step-Follows call_start c d h e =
      subst (Follows call_start c) {x = (start c).0} {y = d} (ground arith) (start-Follows c h)
  step-Follows call_stop c d h e = stop-Follows c d e
  step-Follows (cancel i) c d h e = cancel-Follows i c d e
  step-Follows (begin i) c d h e = begin-Follows i (c.phase i) c d refl e
  step-Follows (poll i f) c d h e = poll-Follows i f (c.phase i) c d refl e
  step-Follows (process i) c d h e = process-Follows i (c.phase i) c d refl e
  step-Follows (leave i r) c d h e = leave-Follows i r (c.phase i) c d refl e

  -- The same, of a run.
  abbrev FollowsAll : List (Event F) → Cache F R → Cache F R → Type 0
  FollowsAll es c d =
      (d.records ≡ apply_all (processed es c) c.records)
      × ((i : ℕ)
          → of_goroutine i (processed es c) ++ pending (d.phase i)
            ≡ pending (c.phase i) ++ polled i es)

  nil_follows : (c : Cache F R) → FollowsAll [] c c
  unfolding processed
  nil_follows c = (refl, λ i. sym (append-nil (pending (c.phase i))))

  processed_cons :
      (e : Event F) (es : List (Event F)) (c c' : Cache F R)
      → step process_func e c ≡ some c'
      → processed (e ∷ es) c ≡ batch e c ++ processed es c'
  unfolding processed
  processed_cons e es c c' s = ground (arith, s)

  cons-Follows :
      (e : Event F) (es : List (Event F)) (c c' d : Cache F R)
      → step process_func e c ≡ some c'
      → Follows e c c'
      → FollowsAll es c' d
      → FollowsAll (e ∷ es) c d
  cons-Follows e es c c' d s first rest = rw (processed_cons e es c c' s) (
    rest.0
        ∙ ap (apply_all (processed es c')) first.0
        ∙ sym (apply_all-append (batch e c) (processed es c') c.records),
    λ i.
        ap (λ l. l ++ pending (d.phase i)) (of_goroutine-append i (batch e c) (processed es c'))
        ∙ append_assoc (of_goroutine i (batch e c)) (of_goroutine i (processed es c')) _
        ∙ ap (λ l. of_goroutine i (batch e c) ++ l) (rest.1 i)
        ∙ sym (append_assoc (of_goroutine i (batch e c)) (pending (c'.phase i)) (polled i es))
        ∙ ap (λ l. l ++ polled i es) (first.1 i)
        ∙ append_assoc (pending (c.phase i)) (polled i (e ∷ [])) (polled i es)
        ∙ ap (λ l. pending (c.phase i) ++ l) (sym (polled_cons i e es)),
  )

  run_follows :
      (es : List (Event F)) (c d : Cache F R)
      → Inv c
      → run process_func es c ≡ some d
      → FollowsAll es c d
  unfolding run
  run_follows [] c d h e = subst (FollowsAll [] c) {x = c} {y = d} (ground arith) (nil_follows c)
  run_follows (v ∷ es) c d h e = elim (Option-cases (step process_func v c)) [
    | inl n ↦ absurd (ground arith)
    | inr (c', s) ↦
        cons-Follows v es c c' d s (step-Follows v c c' h s)
          (run_follows es c' d (step-Inv process_func v c c' h s) (ground (arith, s)))
  ]

  -- After any sequence of events from a new cache, however the goroutines interleave: the records
  -- are those of the new cache with the batches that were processed applied one after the other,
  -- and what each goroutine has processed, followed by the batch that it still holds, if any, is
  -- what it has polled, each batch once and in its order.
  pub records_refine :
      (client : Bool) (r : R) (es : List (Event F)) (d : Cache F R)
      → run process_func es (new client r) ≡ some d
      → (d.records ≡ apply_all (processed es (new client r)) r)
        × ((i : ℕ)
            → of_goroutine i (processed es (new client r)) ++ pending (d.phase i) ≡ polled i es)
  records_refine client r es d e = run_follows es (new client r) d (new-Inv client r) e
