-- ===== src/Redis/Pools/RoundTrip.antt =====
-- Pools that are stored by UpdatePool, CreatePool and UpdatePoolBalance of pools/redis/pools.go and
-- read again by GetPool.
use dora_service_utils.Base.{◌≡◌, ◌≢◌, refl, sym, ap, ◌∙◌, List, [], ◌++◌}
use dora_service_utils.Base.Text.{Str, str_beq, str_eq}
use dora_service_utils.Base.Dict.{Dict, get-insert_ne}
use dora_service_utils.Base.Result.{Result, ok, err}
use dora_service_utils.OrderBook.{order_book_id}
use dora_service_utils.Pools.{Pool}
use dora_service_utils.Redis.{
  Store, quiet, hgetall, hash_of, attempt, try_transaction, retry, try_transaction-quiet,
}
use dora_service_utils.Redis.Hashes.{
  hset_fields, write_fields, read_fields, overlay, read_fields-write_fields,
  write_fields-write_fields, hgetall-hset_fields,
}
use dora_service_utils.Redis.Positions.{returned}
use dora_service_utils.Redis.Pools.{
  Codec, PoolBalance, pool_keys, pool_key, new_pool, pool_fields, balance_fields, get_pool,
  get_pool_body, hset_body, store_of, update_pool, update_pool_balance, create_pool,
}
use dora_service_utils.Redis.Pools.Scanning.{InRange, Scans, scan_fields}

module _ {D : Type 0} (codec : Codec D) where
  open codec use {scan}

  update_quiet :
      (p : Pool D) (pool_id : Str) (store : Store)
      → update_pool codec p pool_id quiet [] store
        ≡ (hset_fields (pool_key pool_id) (pool_fields codec p) store, ok tt)
  unfolding update_pool hset_body store_of try_transaction retry attempt
  update_quiet p pool_id store = refl

  create_quiet :
      (p named : Pool D) (store : Store)
      → named ≡ record p { pool_id = order_book_id p.base_asset p.quote_asset }
      → create_pool codec p quiet [] store
        ≡ (named, (hset_fields (pool_key named.pool_id) (pool_fields codec named) store, ok tt))
  unfolding create_pool update_pool hset_body store_of try_transaction retry attempt
  create_quiet p named store e = rw e refl

  balance_quiet :
      (b : PoolBalance) (pool_id : Str) (store : Store)
      → update_pool_balance codec pool_id b quiet [] store
        ≡ (hset_fields (pool_key pool_id) (balance_fields codec b) store, ok tt)
  unfolding update_pool_balance hset_body store_of try_transaction retry attempt
  balance_quiet b pool_id store = refl

  -- The pool that was scanned, or the error.
  scanned : Pool D × Result (Unit {0}) → Result (Pool D)
  scanned (q, ok u) = ok q
  scanned (q, err e) = err e

  scanned_ok : (q : Pool D) → scanned (q, ok tt) ≡ ok q
  unfolding scanned
  scanned_ok q = refl

  returned-scanned :
      (store : Store) (r : Pool D × Result (Unit {0})) → returned ((store, r.0), r.1) ≡ scanned r
  unfolding returned scanned
  returned-scanned store (q, ok u) = refl
  returned-scanned store (q, err e) = refl

  -- GetPool with one attempt is a scan of the fields of the pool's hash.
  get_quiet :
      (pool_id : Str) (store : Store)
      → get_pool codec pool_id quiet [] store
        ≡ scanned (scan (read_fields pool_keys (hgetall (pool_key pool_id) store)) (new_pool codec))
  unfolding get_pool get_pool_body
  get_quiet pool_id store =
      ap returned (try_transaction-quiet (get_pool_body codec pool_id) (store, new_pool codec))
      ∙ returned-scanned store
          (scan (read_fields pool_keys (hgetall (pool_key pool_id) store)) (new_pool codec))

  -- What GetPool reads depends on the hash of its pool alone.
  same_hash :
      (pool_id : Str) (store store' : Store)
      → hgetall (pool_key pool_id) store ≡ hgetall (pool_key pool_id) store'
      → get_pool codec pool_id quiet [] store ≡ get_pool codec pool_id quiet [] store'
  same_hash pool_id store store' h =
      get_quiet pool_id store
      ∙ ap (λ d. scanned (scan (read_fields pool_keys d) (new_pool codec))) h
      ∙ sym (get_quiet pool_id store')

  pool_key_ne : (a b : Str) → a ≢ b → pool_key a ≢ pool_key b
  unfolding pool_key
  pool_key_ne a b n e = n (cc)

  other_hash :
      (a b : Str) (fields : List (Str × Str)) (store : Store)
      → a ≢ b
      → hgetall (pool_key b) (hset_fields (pool_key a) fields store) ≡ hgetall (pool_key b) store
  unfolding hset_fields
  other_hash a b fields store n = ap hash_of (
      get-insert_ne (pool_key a) (pool_key b) (write_fields fields (hgetall (pool_key a) store))
        store (pool_key_ne a b n))

  -- The pool with the numbers of UpdatePoolBalance.
  abbrev pub with_balance : Pool D → PoolBalance → Pool D
  with_balance p b = record p {
    amount_shares = b.shares;
    amount_base = b.base;
    amount_quote = b.quote;
    fees_collected_base = b.fees_base;
    fees_collected_quote = b.fees_quote;
    sequence = b.sequence;
  }

  get_pool-update_pool :
      (s : Scans codec) (p : Pool D) (pool_id : Str) (store : Store)
      → InRange p
      → get_pool codec pool_id quiet [] (hset_fields (pool_key pool_id) (pool_fields codec p) store)
        ≡ ok p
  get_pool-update_pool s p pool_id store r =
      get_quiet pool_id _
      ∙ ap (λ h. scanned (scan (read_fields pool_keys h) (new_pool codec)))
          (hgetall-hset_fields (pool_key pool_id) (pool_fields codec p) store)
      ∙ ap (λ l. scanned (scan l (new_pool codec))) (read_fields-write_fields pool_keys _ _)
      ∙ rw (scan_fields codec s p r (hgetall (pool_key pool_id) store) (new_pool codec))
          (scanned_ok p)

  -- Both writes leave the fields that one write of the pool with the new numbers would leave.
  overlay_balance :
      (p : Pool D) (b : PoolBalance) (h : Dict Str Str)
      → overlay pool_keys (pool_fields codec p ++ balance_fields codec b) h
        ≡ overlay pool_keys (pool_fields codec (with_balance p b)) h
  unfolding pool_keys pool_fields balance_fields str_beq
  overlay_balance p b h = refl

  -- CreatePool and then GetPool, where Scan reads what was written, the numbers of the pool are those
  -- of their Go types and no one else changes the store: the pool gets the order book ID of its base
  -- and quote, GetPool of that ID returns it as it then is, whatever was stored under the ID before,
  -- and GetPool of any other ID returns what it would have returned before.
  pub get_pool-create_pool :
      (s : Scans codec) (p : Pool D) (store : Store) (other : Str)
      → InRange p
      → order_book_id p.base_asset p.quote_asset ≢ other
      → ((create_pool codec p quiet [] store).0
          ≡ record p { pool_id = order_book_id p.base_asset p.quote_asset })
        × ((create_pool codec p quiet [] store).1.1 ≡ ok tt)
        × (get_pool codec
              (order_book_id p.base_asset p.quote_asset)
              quiet
              []
              (create_pool codec p quiet [] store).1.0
            ≡ ok (record p { pool_id = order_book_id p.base_asset p.quote_asset }))
        × (get_pool codec other quiet [] (create_pool codec p quiet [] store).1.0
            ≡ get_pool codec other quiet [] store)
  get_pool-create_pool s p store other r n =
      let id = order_book_id p.base_asset p.quote_asset in
      let named = record p { pool_id = id } in
      let range : InRange named = record {
        amount_shares = r.amount_shares;
        amount_base = r.amount_base;
        amount_quote = r.amount_quote;
        created_at = r.created_at;
        maturity_at = r.maturity_at;
        fees_collected_base = r.fees_collected_base;
        fees_collected_quote = r.fees_collected_quote;
        sequence = r.sequence;
      } in
      rw (create_quiet p named store refl) (
        refl,
        refl,
        get_pool-update_pool s named id store range,
        same_hash other _ store (other_hash id other (pool_fields codec named) store n),
      )

  -- A pool that UpdatePool has stored, then UpdatePoolBalance and then GetPool of its ID, where Scan
  -- reads what was written, all numbers are those of their Go types and no one else changes the
  -- store: GetPool returns the pool with the six new numbers, and all else as it was stored.
  pub get_pool-update_pool_balance :
      (s : Scans codec) (p : Pool D) (b : PoolBalance) (pool_id : Str) (store : Store)
      → InRange (with_balance p b)
      → (update_pool_balance codec pool_id b quiet []
            (update_pool codec p pool_id quiet [] store).0).1
          ≡ ok tt
        × (get_pool codec pool_id quiet []
              (update_pool_balance codec pool_id b quiet []
                (update_pool codec p pool_id quiet [] store).0).0
            ≡ ok (with_balance p b))
  get_pool-update_pool_balance s p b pool_id store r =
      let k = pool_key pool_id in
      let h = hgetall k store in
      let first = hset_fields k (pool_fields codec p) store in
      let both = write_fields (pool_fields codec p ++ balance_fields codec b) h in
      let stored : hgetall k (hset_fields k (balance_fields codec b) first) ≡ both =
        hgetall-hset_fields k (balance_fields codec b) first
        ∙ ap (write_fields (balance_fields codec b))
            (hgetall-hset_fields k (pool_fields codec p) store)
        ∙ write_fields-write_fields (pool_fields codec p) (balance_fields codec b) h in
      rw (update_quiet p pool_id store) (
        rw (balance_quiet b pool_id first) (
          refl,
          get_quiet pool_id _
              ∙ ap (λ d. scanned (scan (read_fields pool_keys d) (new_pool codec))) stored
              ∙ ap (λ l. scanned (scan l (new_pool codec)))
                  (read_fields-write_fields pool_keys _ h ∙ overlay_balance p b h)
              ∙ rw (scan_fields codec s (with_balance p b) r h (new_pool codec))
                  (scanned_ok (with_balance p b)),
        ))
