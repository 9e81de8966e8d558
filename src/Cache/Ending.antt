-- ===== src/Cache/Ending.antt =====
-- How a goroutine of cache/cache.go ends once its context is done.
use dora_service_utils.Base.{
  ℕ, ◌+◌, ◌≤◌, ◌<◌, ◌≡◌, ◌≢◌, ◌⊎◌, refl, ap, ◌++◌, Bool-cases, Bool, true, false, some, List, [],
  ◌∷◌, arith, not, ◌||◌, ◌∙◌, nat_beq, length, if◌then◌else◌, Option-cases, inl, inr,
}
use dora_service_utils.Base.Result.{Result, ok, is_ok}
use dora_service_utils.Cache.{
  move, running, new, Phase, absent, spawned, polling, finished, fetched, Cache, Event, call_init,
  call_start, call_stop, cancel, begin, poll, process, leave, init, start, stop, connect,
  call_cancel, begin_at, poll_at, leave_at, process_at, step, run,
}
use dora_service_utils.Cache.Invariant.{Inv}
use dora_service_utils.Cache.Reachable.{step-Inv, reachable-Inv}
use dora_service_utils.Cache.Records.{polled, polled_cons}

module _ {F : Type 0} where
  -- How many of its own events a goroutine with a done context has before it.
  abbrev pub remaining : Phase F → ℕ
  remaining absent = 0
  remaining spawned = 2
  remaining polling = 1
  remaining (fetched f) = 2
  remaining finished = 0

  -- Whether an event is a part of goroutine `i`.
  abbrev pub is_of : ℕ → Event F → Bool
  is_of i (begin j) = nat_beq j i
  is_of i (poll j f) = nat_beq j i
  is_of i (process j) = nat_beq j i
  is_of i (leave j r) = nat_beq j i
  is_of i _ = false

  abbrev pub count_of : ℕ → List (Event F) → ℕ
  count_of i [] = 0
  count_of i (e ∷ es) = (if is_of i e then 1 else 0) + count_of i es

  remaining_le : (p : Phase F) → remaining p ≤ 2
  remaining_le absent = omega arith
  remaining_le spawned = omega arith
  remaining_le polling = omega arith
  remaining_le (fetched f) = omega arith
  remaining_le finished = omega arith

module _ {F R : Type 0} (process_func : F → R → R × Result (Unit {0})) (i : ℕ) where
  -- The context stays done, and each own event brings the goroutine nearer to its end.
  abbrev Nearer : Event F → Cache F R → Cache F R → Type 0
  Nearer e c d =
      (d.done i ≡ true)
      × (d.phase i ≢ absent)
      × ((if is_of i e then 1 else 0) + remaining (d.phase i) ≤ remaining (c.phase i))

  step-Nearer :
      (e : Event F) (c d : Cache F R)
      → Inv c
      → c.done i ≡ true
      → c.phase i ≢ absent
      → step process_func e c ≡ some d
      → Nearer e c d
  unfolding step init connect start stop call_cancel begin_at poll_at leave_at process_at
  step-Nearer (call_init r) c d h t p e = (ground arith, ground arith, ground arith)
  step-Nearer call_start c d h t p e = (
    ground (arith, h.numbered c.count),
    ground (arith, h.numbered c.count),
    ground (arith, h.numbered c.count),
  )
  step-Nearer call_stop c d h t p e = (ground arith, ground arith, ground arith)
  step-Nearer (cancel j) c d h t p e = (ground arith, ground arith, ground arith)
  step-Nearer (begin j) c d h t p e = (ground arith, ground arith, ground arith)
  step-Nearer (poll j f) c d h t p e = (ground arith, ground arith, ground arith)
  step-Nearer (process j) c d h t p e = (ground arith, ground arith, ground arith)
  step-Nearer (leave j r) c d h t p e = (ground arith, ground arith, ground arith)

  -- A goroutine whose context is done polls no batch.
  done_polls :
      (e : Event F) (c d : Cache F R)
      → c.done i ≡ true
      → step process_func e c ≡ some d
      → polled i (e ∷ []) ≡ []
  unfolding step poll_at
  done_polls (poll j f) c d t e = elim (Bool-cases (nat_beq j i)) [
    | inl y ↦ absurd (ground arith)
    | inr n ↦ rw n refl
  ]
  done_polls (call_init r) c d t e = refl
  done_polls call_start c d t e = refl
  done_polls call_stop c d t e = refl
  done_polls (cancel j) c d t e = refl
  done_polls (begin j) c d t e = refl
  done_polls (process j) c d t e = refl
  done_polls (leave j r) c d t e = refl

  polled_cons_nil :
      (e : Event F) (es : List (Event F))
      → polled i (e ∷ []) ≡ []
      → polled i es ≡ []
      → polled i (e ∷ es) ≡ []
  polled_cons_nil e es h k = polled_cons i e es ∙ ap (λ l. l ++ polled i es) h ∙ k

  run_nearer :
      (es : List (Event F)) (c d : Cache F R)
      → Inv c
      → c.done i ≡ true
      → c.phase i ≢ absent
      → run process_func es c ≡ some d
      → (d.phase i ≢ absent)
        × (count_of i es + remaining (d.phase i) ≤ remaining (c.phase i))
        × (polled i es ≡ [])
  unfolding run
  run_nearer [] c d h t p e = (ground arith, ground arith, refl)
  run_nearer (v ∷ es) c d h t p e = elim (Option-cases (step process_func v c)) [
    | inl n ↦ absurd (ground arith)
    | inr (c', s) ↦
        let (t', p', first) = step-Nearer v c c' h t p s in
        let (there, rest, none_left) =
          run_nearer es c' d (step-Inv process_func v c c' h s) t' p' (ground (arith, s)) in
        (there, omega (arith, first, rest), polled_cons_nil v es (done_polls v c c' t s) none_left)
  ]

  leave_polling :
      (r : Result (Unit {0})) (c : Cache F R)
      → c.phase i ≡ polling
      → c.done i ≡ true
      → (d : Cache F R) × (step process_func (leave i r) c ≡ some d) × (d.phase i ≡ finished)
  unfolding step leave_at
  leave_polling r c p t = (
    move i finished (record c { client_closed = c.client_closed || not (is_ok r) }),
    ground arith,
    ground arith,
  )

  begin_spawned :
      (c : Cache F R)
      → c.phase i ≡ spawned
      → (d : Cache F R) × (step process_func (begin i) c ≡ some d)
        × (d.phase i ≡ polling)
        × (d.done i ≡ c.done i)
  unfolding step begin_at
  begin_spawned c p =
      (move i polling (record c { status = running }), ground arith, ground arith, refl)

  process_fetched :
      (f : F) (c : Cache F R)
      → c.phase i ≡ fetched f
      → (d : Cache F R) × (step process_func (process i) c ≡ some d)
        × (d.phase i ≡ polling)
        × (d.done i ≡ c.done i)
  unfolding step process_at
  process_fetched f c p = (
    move i polling (record c { records = (process_func f c.records).0 }),
    ground arith,
    ground arith,
    refl,
  )

  -- A run of the goroutine alone that ends it.
  abbrev CanEnd : Cache F R → Type 0
  CanEnd c =
      (es : List (Event F)) × (d : Cache F R) × (run process_func es c ≡ some d)
      × (d.phase i ≡ finished)
      × (count_of i es ≡ length es)
      × (length es ≤ 2)

  CanEnd-after :
      (e : Event F) (r : Result (Unit {0})) (c c' : Cache F R)
      → is_of i e ≡ true
      → step process_func e c ≡ some c'
      → c'.phase i ≡ polling
      → c'.done i ≡ true
      → CanEnd c
  unfolding run
  CanEnd-after e r c c' o s p t =
      let (d, l, q) = leave_polling r c' p t in
      (e ∷ leave i r ∷ [], d, ground (arith, s, l), q, ground arith, omega arith)

  phase-CanEnd :
      (r : Result (Unit {0})) (p : Phase F) (c : Cache F R)
      → c.phase i ≡ p
      → p ≢ absent
      → c.done i ≡ true
      → CanEnd c
  unfolding run
  phase-CanEnd r absent c q a t = absurd (a refl)
  phase-CanEnd r finished c q a t = ([], c, refl, q, refl, omega arith)
  phase-CanEnd r polling c q a t =
      let (d, l, e) = leave_polling r c q t in
      (leave i r ∷ [], d, ground (arith, l), e, ground arith, omega arith)
  phase-CanEnd r spawned c q a t =
      let (d, l, e, k) = begin_spawned c q in
      CanEnd-after (begin i) r c d (ground arith) l e (k ∙ t)
  phase-CanEnd r (fetched f) c q a t =
      let (d, l, e, k) = process_fetched f c q in
      CanEnd-after (process i) r c d (ground arith) l e (k ∙ t)

module _ {F R : Type 0} (process_func : F → R → R × Result (Unit {0})) where
  -- A goroutine that has been started and whose context is done, in a cache that any sequence of
  -- events has led to: in every further sequence of events it polls no batch and has at most two
  -- events of its own, and after two it has returned.
  pub done_goroutine_bounded :
      (client : Bool) (r : R) (before : List (Event F)) (c : Cache F R) (i : ℕ)
      → run process_func before (new client r) ≡ some c
      → i < c.count
      → c.done i ≡ true
      → (after : List (Event F)) (d : Cache F R) → run process_func after c ≡ some d
      → (polled i after ≡ [])
        × ((count_of i after < 2) ⊎ ((count_of i after ≡ 2) × (d.phase i ≡ finished)))
  done_goroutine_bounded client r before c i e lt t after d f =
      let (h, q) = reachable-Inv process_func client r before c e in
      let (there, bound, silent) =
        run_nearer process_func i after c d h t (λ a. ground (arith, h.numbered i)) f in
      (silent, ground (arith, there, bound, remaining_le (c.phase i)))

  -- A goroutine that has been started and whose context is done, in a cache that any sequence of
  -- events has led to: it can return, by at most two events that are all its own.
  pub done_goroutine_can_end :
      (client : Bool) (r : R) (before : List (Event F)) (c : Cache F R) (i : ℕ)
      → run process_func before (new client r) ≡ some c
      → i < c.count
      → c.done i ≡ true
      → (es : List (Event F)) × (d : Cache F R) × (run process_func es c ≡ some d)
        × (d.phase i ≡ finished)
        × (count_of i es ≡ length es)
        × (length es ≤ 2)
  done_goroutine_can_end client r before c i e lt t =
      let (h, q) = reachable-Inv process_func client r before c e in
      phase-CanEnd process_func i (ok tt) (c.phase i) c refl (λ a. ground (arith, h.numbered i)) t
