-- ===== src/Cache.antt =====
-- cache/cache.go and cache/status.go: a cache that goroutines fill with what they poll from Kafka.
-- The goroutines and their contexts are numbered in the order of the calls of Start. An event is a
-- call by the owner of the cache or a part of a goroutine between two points at which others may
-- run: what stands under the mutex is one event, and Start and Init, which do not lock, are taken to
-- be called by one owner at a time. The client and the function that processes a batch are
-- parameters.
pub mod Options
pub mod Consume
pub mod Invariant
pub mod Reachable
pub mod Records
pub mod Ending
pub mod Races
use dora_service_utils.Base.{
  ℕ, ◌+◌, Bool, true, false, not, ◌&&◌, ◌||◌, Option, none, some, List, [], ◌∷◌, ltb, nat_beq,
  if◌then◌else◌,
}
use dora_service_utils.Base.Result.{Result, ok, err, Error, plain, is_ok}

pub data Status : Type 0 where
  not_ready ready running stopped : Status

abbrev pub status_beq : Status → Status → Bool
status_beq not_ready not_ready = true
status_beq ready ready = true
status_beq running running = true
status_beq stopped stopped = true
status_beq _ _ = false

-- Where a goroutine that runs `start` is: before the write of the status, at the head of the loop,
-- with a batch that it has polled and not processed, or returned. `F` is kgo.Fetches.
pub data Phase (F : Type 0) : Type 0 where
  absent spawned polling finished : Phase F
  fetched : F → Phase F

-- `R` is the map of records. A context is done once it or its parent has been cancelled.
pub record Cache (F R : Type 0) : Type 0 where
  pub status : Status
  pub has_client : Bool
  pub client_closed : Bool
  pub cancel_func : Option ℕ
  pub records : R
  pub count : ℕ
  pub phase : ℕ → Phase F
  pub done : ℕ → Bool

abbrev pub update : {A : Type 0} → (ℕ → A) → ℕ → A → ℕ → A
update f i a j = if nat_beq i j then a else f j

pub data Event (F : Type 0) : Type 0 where
  -- Init, with what kgo.NewClient returns
  call_init : Result (Unit {0}) → Event F
  call_start call_stop : Event F
  -- the parent of a context is cancelled
  cancel : ℕ → Event F
  -- a goroutine starts, polls a batch, processes it, and returns, with what
  -- CommitUncommittedOffsets returns
  begin : ℕ → Event F
  poll : ℕ → F → Event F
  process : ℕ → Event F
  leave : ℕ → Result (Unit {0}) → Event F

module _ {F R : Type 0} where
  -- New; the client may stand in the options.
  abbrev pub new : Bool → R → Cache F R
  new has_client no_records = record {
    status = not_ready;
    has_client = has_client;
    client_closed = false;
    cancel_func = none;
    records = no_records;
    count = 0;
    phase = λ i. absent;
    done = λ i. false;
  }

  abbrev pub is_ready : Cache F R → Bool
  is_ready c = status_beq c.status ready

  -- The end of Init, with what kgo.NewClient returns.
  unfoldable pub connect : Result (Unit {0}) → Cache F R → Cache F R × Result (Unit {0})
  connect (ok u) c = (record c { has_client = true; status = ready }, ok tt)
  connect (err e) c = (c, err e)

  -- Init
  unfoldable pub init : Result (Unit {0}) → Cache F R → Cache F R × Result (Unit {0})
  unfolding connect
  init new_client c =
      if c.has_client then (record c { status = ready }, ok tt) else connect new_client c

  -- Start
  unfoldable pub start : Cache F R → Cache F R × Result (Unit {0})
  start c =
      if status_beq c.status not_ready
      then (c, err plain)
      else if status_beq c.status running
      then (c, err plain)
      else (
        record c {
          cancel_func = some c.count;
          count = c.count + 1;
          phase = update c.phase c.count spawned;
          done = update c.done c.count false;
        },
        ok tt,
      )

  abbrev pub cancel_context : ℕ → Cache F R → Cache F R
  cancel_context i c = record c { done = update c.done i true }

  -- Stop: the call of a nil cancelFunc panics.
  unfoldable pub call_cancel : Option ℕ → Cache F R → Option (Cache F R)
  call_cancel none c = none
  call_cancel (some i) c = some (cancel_context i c)

  unfoldable pub stop : Cache F R → Option (Cache F R)
  unfolding call_cancel
  stop c = call_cancel c.cancel_func (record c { status = stopped })

  abbrev pub move : ℕ → Phase F → Cache F R → Cache F R
  move i p c = record c { phase = update c.phase i p }

  unfoldable pub begin_at : ℕ → Phase F → Cache F R → Option (Cache F R)
  begin_at i spawned c = some (move i polling (record c { status = running }))
  begin_at i _ c = none

  -- The `default` of the select, which is taken where the context is not done.
  unfoldable pub poll_at : ℕ → F → Phase F → Cache F R → Option (Cache F R)
  poll_at i f polling c = if c.done i then none else some (move i (fetched f) c)
  poll_at i f _ c = none

  -- The `case <-ctx.Done()` of the select, and the deferred commit.
  unfoldable pub leave_at : ℕ → Result (Unit {0}) → Phase F → Cache F R → Option (Cache F R)
  leave_at i committed polling c =
      if c.done i
      then some
          (move i finished (record c { client_closed = c.client_closed || not (is_ok committed) }))
      else none
  leave_at i committed _ c = none

module _ {F R : Type 0} (process_func : F → R → R × Result (Unit {0})) where
  -- The records are changed also where the function fails; the error is logged.
  unfoldable pub process_at : ℕ → Phase F → Cache F R → Option (Cache F R)
  process_at i (fetched f) c =
      some (move i polling (record c { records = (process_func f c.records).0 }))
  process_at i _ c = none

  -- none where the event cannot happen, or where it panics.
  unfoldable pub step : Event F → Cache F R → Option (Cache F R)
  unfolding init start stop begin_at poll_at process_at leave_at
  step (call_init r) c = some (init r c).0
  step call_start c = some (start c).0
  step call_stop c = stop c
  step (cancel i) c = if ltb i c.count then some (cancel_context i c) else none
  step (begin i) c = begin_at i (c.phase i) c
  step (poll i f) c = poll_at i f (c.phase i) c
  step (process i) c = process_at i (c.phase i) c
  step (leave i r) c = leave_at i r (c.phase i) c

  unfoldable pub run : List (Event F) → Cache F R → Option (Cache F R)
  unfolding step
  run [] c = some c
  run (e ∷ es) c = elim (step e c) [ none ↦ none | some c' ↦ run es c' ]
