-- ===== src/Cache/Invariant.antt =====
-- What the calls of cache/cache.go keep of a cache: the invariant.
use dora_service_utils.Base.{
  ℕ, ◌+◌, ◌≤◌, ◌≡◌, ◌≢◌, ◌↔◌, refl, subst, Bool, true, false, none, some, arith, Option-cases,
  Bool-cases, inl, inr,
}
use dora_service_utils.Base.Result.{Result, ok, err}
use dora_service_utils.Cache.{
  not_ready, ready, running, stopped, status_beq, cancel_context, move, connect, Phase, absent,
  spawned, Cache, update, new, init, start, stop, call_cancel,
}

-- Whether the goroutine has written the status.
abbrev pub HasBegun : {F : Type 0} → Phase F → Type 0
HasBegun p = (p ≢ absent) × (p ≢ spawned)

-- The goroutines that exist are those below the count; a cache that is not ready has none; one that
-- has left that state has a client; the cancel function is that of the last goroutine; a running
-- cache has a goroutine that has begun.
pub record Inv {F R : Type 0} (c : Cache F R) : Type 0 where
  pub numbered : (i : ℕ) → (c.phase i ≡ absent) ↔ (c.count ≤ i)
  pub idle : c.status ≡ not_ready → c.count ≡ 0
  pub connected : c.status ≢ not_ready → c.has_client ≡ true
  pub no_cancel : (c.cancel_func ≡ none) ↔ (c.count ≡ 0)
  pub last_cancel : (i : ℕ) → c.cancel_func ≡ some i → i + 1 ≡ c.count
  pub begun : c.status ≡ running → (i : ℕ) × HasBegun (c.phase i)

module _ {F R : Type 0} where
  pub new-Inv : (client : Bool) (r : R) → Inv {F = F} (new client r)
  new-Inv client r = record {
    numbered = λ i. ground arith;
    idle = ground arith;
    connected = ground arith;
    no_cancel = ground arith;
    last_cancel = λ i. ground arith;
    begun = λ h. absurd (ground arith);
  }

  -- The status becomes ready, and there is a client.
  ready-Inv : (c : Cache F R) → Inv c → Inv (record c { has_client = true; status = ready })
  ready-Inv c h = record {
    numbered = h.numbered;
    idle = ground arith;
    connected = λ n. refl;
    no_cancel = h.no_cancel;
    last_cancel = h.last_cancel;
    begun = λ r. absurd (ground arith);
  }

  connect-Inv : (r : Result (Unit {0})) (c : Cache F R) → Inv c → Inv (connect r c).0
  unfolding connect
  connect-Inv (ok u) c h = ready-Inv c h
  connect-Inv (err e) c h = h

  pub init-Inv : (r : Result (Unit {0})) (c : Cache F R) → Inv c → Inv (init r c).0
  unfolding init
  init-Inv r c h = elim (Bool-cases c.has_client) [
    | inl y ↦ rw y (ready-Inv c h)
    | inr n ↦ simp (n) (connect-Inv r c h)
  ]

  started-Inv :
      (c : Cache F R)
      → c.status ≢ not_ready
      → c.status ≢ running
      → Inv c
      → Inv (record c {
        cancel_func = some c.count;
        count = c.count + 1;
        phase = update c.phase c.count spawned;
        done = update c.done c.count false;
      })
  started-Inv c n r h = record {
    numbered = λ i. ground (arith, h.numbered i);
    idle = λ e. absurd (n e);
    connected = h.connected;
    no_cancel = ground arith;
    last_cancel = λ i e. ground arith;
    begun = λ e. absurd (r e);
  }

  pub start-Inv : (c : Cache F R) → Inv c → Inv (start c).0
  unfolding start
  start-Inv c h = elim (Bool-cases (status_beq c.status not_ready)) [
    | inl y ↦ rw y h
    | inr n ↦ rw n (elim (Bool-cases (status_beq c.status running)) [
      | inl y ↦ rw y h
      | inr m ↦ rw m (started-Inv c (λ e. ground arith) (λ e. ground arith) h)
    ])
  ]

  stopped-Inv :
      (i : ℕ) (c : Cache F R) → c.cancel_func ≡ some i → Inv c → Inv (record c { status = stopped })
  stopped-Inv i c s h = record {
    numbered = h.numbered;
    idle = λ e. absurd (ground arith);
    connected = λ n. ground (arith, h.last_cancel i, h.idle, h.connected);
    no_cancel = h.no_cancel;
    last_cancel = h.last_cancel;
    begun = λ e. absurd (ground arith);
  }

  pub cancel-Inv : (i : ℕ) (c : Cache F R) → Inv c → Inv (cancel_context i c)
  cancel-Inv i c h = record {
    numbered = h.numbered;
    idle = h.idle;
    connected = h.connected;
    no_cancel = h.no_cancel;
    last_cancel = h.last_cancel;
    begun = h.begun;
  }

  pub stop-Inv : (c d : Cache F R) → Inv c → stop c ≡ some d → Inv d
  unfolding stop call_cancel
  stop-Inv c d h e = elim (Option-cases c.cancel_func) [
    | inl n ↦ absurd (ground arith)
    | inr (i, s) ↦ subst Inv (ground arith) (cancel-Inv i _ (stopped-Inv i c s h))
  ]

  -- A goroutine that is there goes on to a phase behind the write of the status.
  pub move-Inv :
      (i : ℕ) (p : Phase F) (r : R) (closed : Bool) (c : Cache F R)
      → c.phase i ≢ absent
      → HasBegun p
      → Inv c
      → Inv (move i p (record c { records = r; client_closed = closed }))
  move-Inv i p r closed c a b h = record {
    numbered = λ j. ground (arith, h.numbered j, h.numbered i);
    idle = h.idle;
    connected = h.connected;
    no_cancel = h.no_cancel;
    last_cancel = h.last_cancel;
    begun = λ r. (i, ground arith);
  }
