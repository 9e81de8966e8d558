-- ===== src/Redis/Pools/Read.antt =====
-- What GetPools of pools/redis/pools.go returns.
use dora_service_utils.Base.{◌≡◌, refl, ap, List, [], ◌∷◌, ◌++◌, arith}
use dora_service_utils.Base.Text.{Str}
use dora_service_utils.Base.Result.{Result, ok, err, Error}
use dora_service_utils.Pools.{Pool}
use dora_service_utils.Redis.{Store, Attempt, quiet, hgetall, try_transaction}
use dora_service_utils.Redis.Hashes.{all_fields}
use dora_service_utils.Redis.Appending.{
  appending, Complete, try_transaction-Complete, IsSeen, try_transaction-IsSeen, retried_read,
}
use dora_service_utils.Redis.Positions.{returned}
use dora_service_utils.Redis.Pools.{Codec, pool_key, new_pool, scanned_then, read_pools, get_pools}

module _ {D : Type 0} (codec : Codec D) where
  open codec use {scan}

  -- One pool for each ID, in their order, each scanned from its hash in this store.
  abbrev pub Reads : List Str → Store → List (Pool D) → Type 0
  Reads [] store [] = Unit
  Reads [] store (p ∷ pools) = ⊥
  Reads (pool_id ∷ pool_ids) store [] = ⊥
  Reads (pool_id ∷ pool_ids) store (p ∷ pools) =
      (scan (all_fields (hgetall (pool_key pool_id) store)) (new_pool codec) ≡ (p, ok tt))
      × Reads pool_ids store pools

  scanned_then-Reads :
      (pool_id : Str) (pool_ids : List Str) (store : Store) (r : Pool D × Result (Unit {0}))
      (rest : List (Pool D) × Result (Unit {0}))
      → scan (all_fields (hgetall (pool_key pool_id) store)) (new_pool codec) ≡ r
      → (rest.1 ≡ ok tt → Reads pool_ids store rest.0)
      → (scanned_then codec r rest).1 ≡ ok tt
      → Reads (pool_id ∷ pool_ids) store (scanned_then codec r rest).0
  unfolding scanned_then
  scanned_then-Reads pool_id pool_ids store (p, ok tt) (pools, q) e ih h = (e, ih h)
  scanned_then-Reads pool_id pool_ids store (p, err x) rest e ih h = absurd (ground arith)

  read_pools-Reads :
      (pool_ids : List Str) (store : Store)
      → (read_pools codec pool_ids store).1 ≡ ok tt
      → Reads pool_ids store (read_pools codec pool_ids store).0
  unfolding read_pools
  read_pools-Reads [] store h = tt
  read_pools-Reads (pool_id ∷ pool_ids) store h =
      scanned_then-Reads pool_id pool_ids store _ (read_pools codec pool_ids store) refl
        (λ k. read_pools-Reads pool_ids store k) h

  returned-Complete :
      (pool_ids : List Str) (x : (Store × List (Pool D)) × Result (Unit {0}))
      (pools : List (Pool D))
      → returned x ≡ ok pools
      → Complete (read_pools codec pool_ids) x
      → (before fresh : List (Pool D)) × (pools ≡ before ++ fresh) × Reads pool_ids x.0.0 fresh
  unfolding returned
  returned-Complete pool_ids ((last, l), ok tt) pools e (before, split, read) = (
    before,
    (read_pools codec pool_ids last).0,
    ground (arith, e, split),
    read_pools-Reads pool_ids last read,
  )
  returned-Complete pool_ids (x, err u) pools e c = absurd (ground arith)

  -- GetPools that succeeds, after any number of attempts and whatever other clients do between them:
  -- what it returns ends with one pool for each ID that it was asked for, in their order, all scanned
  -- from their hashes in one and the same store, which is the given store as other clients have changed
  -- it up to one of the attempts.
  pub get_pools-Reads :
      (pool_ids : List Str) (a : Attempt) (attempts : List Attempt) (store : Store)
      (pools : List (Pool D))
      → get_pools codec pool_ids a attempts store ≡ ok pools
      → (last : Store) × (before fresh : List (Pool D)) × IsSeen (a ∷ attempts) store last
        × (pools ≡ before ++ fresh)
        × Reads pool_ids last fresh
  unfolding get_pools
  get_pools-Reads pool_ids a attempts store pools e =
      let read = read_pools codec pool_ids in
      let x = try_transaction (appending read) a attempts (store, []) in
      let (before, fresh, split, reads) =
        returned-Complete pool_ids x pools e
          (try_transaction-Complete read a attempts (store, [])) in
      (x.0.0, before, fresh, try_transaction-IsSeen read a attempts store [], split, reads)

  -- GetPools whose first attempt stops at a pool that cannot be scanned, and whose second attempt, on
  -- the store as others have left it, scans them all: it succeeds, and the pools that the first
  -- attempt had scanned stand in front of all those of the second.
  pub get_pools_repeats :
      (pool_ids : List Str) (store repaired : Store) (e : Error)
      → (read_pools codec pool_ids store).1 ≡ err e
      → (read_pools codec pool_ids repaired).1 ≡ ok tt
      → get_pools codec pool_ids quiet (record quiet { others = λ s. repaired } ∷ []) store
        ≡ ok ((read_pools codec pool_ids store).0 ++ (read_pools codec pool_ids repaired).0)
  unfolding get_pools returned
  get_pools_repeats pool_ids store repaired e h k =
      ap returned (retried_read (read_pools codec pool_ids) store repaired e h k)
