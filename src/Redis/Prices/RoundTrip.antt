-- ===== src/Redis/Prices/RoundTrip.antt =====
-- SetPrices and then GetPrices of prices/redis/prices.go.
use dora_service_utils.Base.{
  ◌≡◌, ◌≢◌, refl, ap, subst, ◌∙◌, Option, none, some, List, [], ◌∷◌, arith, map, Bool-cases,
  Option-cases, inl, inr,
}
use dora_service_utils.Base.Text.{Str, str_beq, str_beq_iff, str_eq}
use dora_service_utils.Base.Dict.{Dict, get, IsMap}
use dora_service_utils.Base.Result.{ok}
use dora_service_utils.Redis.{Store, quiet, try_transaction-quiet}
use dora_service_utils.Redis.Hashes.{
  hset_fields, write_fields, read_fields, overlay, written, read_fields-write_fields,
  hgetall-hset_fields,
}
use dora_service_utils.Redis.Appending.{appending}
use dora_service_utils.Redis.Positions.{returned}
use dora_service_utils.Redis.Prices.{
  Price, Json, prices_key, zero_price, read_value, append_price, read_values, read_prices,
  get_prices, with_field, price_fields, write_prices, prices_body, set_prices,
}

module _ {F : Type 0} (json : Json F) where
  open json use {marshal, unmarshal}

  abbrev pub price_at : Str → F → Price F
  price_at asset_id price = record { asset_id = asset_id; price = price }

  -- Each price marshals, and JSON reads back what it wrote.
  abbrev pub Readable : Dict Str F → Type 0
  Readable [] = Unit
  Readable ((asset_id, price) ∷ reqs) =
      ((j : Str) × (marshal (price_at asset_id price) ≡ ok j)
        × (unmarshal j (zero_price json) ≡ (price_at asset_id price, ok tt)))
      × Readable reqs

  -- The price that was set, or the zero price.
  abbrev pub price_of : Dict Str F → Str → Price F
  price_of reqs id = elim (get id reqs) [ none ↦ zero_price json | some price ↦ price_at id price ]

  -- Fields that hold the prices of the requests, one each.
  abbrev Hold : Dict Str F → List (Str × Str) → Type 0
  Hold [] [] = Unit
  Hold [] (f ∷ fields) = ⊥
  Hold (r ∷ reqs) [] = ⊥
  Hold ((asset_id, price) ∷ reqs) ((k, j) ∷ fields) =
      (k ≡ asset_id)
      × (unmarshal j (zero_price json) ≡ (price_at asset_id price, ok tt))
      × Hold reqs fields

  price_fields-Hold :
      (reqs : Dict Str F)
      → Readable reqs
      → (fields : List (Str × Str)) × (price_fields json reqs ≡ ok fields) × Hold reqs fields
  unfolding price_fields with_field
  price_fields-Hold [] h = ([], refl, tt)
  price_fields-Hold ((asset_id, price) ∷ reqs) ((j, m, u), h) =
      let (fields, e, held) = price_fields-Hold reqs h in
      ((asset_id, j) ∷ fields, rw m (rw e refl), (refl, u, held))

  written_other :
      (id : Str) (reqs : Dict Str F) (fields : List (Str × Str)) (old : Option Str)
      → Hold reqs fields
      → get id reqs ≡ none
      → written id fields old ≡ old
  unfolding get
  written_other id [] [] old h n = refl
  written_other id [] (f ∷ fields) old h n = elim h [ ]
  written_other id (r ∷ reqs) [] old h n = elim h [ ]
  written_other id ((a, p) ∷ reqs) ((k, j) ∷ fields) old h n = elim (Bool-cases (str_beq a id)) [
    | inl y ↦ absurd (ground arith)
    | inr f ↦ rw (h.0) (rw f (written_other id reqs fields old h.2 (ground arith)))
  ]

  -- The last text that is written for an asset reads as its price.
  read_written :
      (id : Str) (price : F) (reqs : Dict Str F) (fields : List (Str × Str)) (old : Option Str)
      → Hold reqs fields
      → IsMap reqs
      → get id reqs ≡ some price
      → read_value json (written id fields old) ≡ (price_at id price, ok tt)
  unfolding get read_value
  read_written id price [] fields old h m g = absurd (ground arith)
  read_written id price (r ∷ reqs) [] old h m g = elim h [ ]
  read_written id price ((a, p) ∷ reqs) ((k, j) ∷ fields) old h m g =
      elim (Bool-cases (str_beq a id)) [
        | inl y ↦
            let same : a ≡ id = (str_beq_iff a id).0 y in
            let found : p ≡ price = ground (arith, g, y) in
            let missing : get id reqs ≡ none = subst (λ t. get t reqs ≡ none) same m.0 in
            rw (h.0) (
              rw y (
                ap (read_value json) (written_other id reqs fields (some j) h.2 missing)
                ∙ h.1
                ∙ ap (λ (t : Str). (price_at t p, ok tt)) same
                ∙ ap (λ (t : F). (price_at id t, ok tt)) found))
        | inr f ↦ rw (h.0) (rw f (read_written id price reqs fields old h.2 m.1 (ground arith)))
      ]

  read_one :
      (id : Str) (reqs : Dict Str F) (fields : List (Str × Str))
      → Hold reqs fields
      → IsMap reqs
      → read_value json (written id fields none) ≡ (price_of reqs id, ok tt)
  unfolding read_value
  read_one id reqs fields h m = elim (Option-cases (get id reqs)) [
    | inl n ↦ rw (n, price_of) (ap (read_value json) (written_other id reqs fields none h n))
    | inr (price, e) ↦ rw (e, price_of) (read_written id price reqs fields none h m e)
  ]

  read_all :
      (ids : List Str) (reqs : Dict Str F) (fields : List (Str × Str))
      → Hold reqs fields
      → IsMap reqs
      → read_values json (overlay ids fields []) ≡ (map (price_of reqs) ids, ok tt)
  unfolding read_values append_price get
  read_all [] reqs fields h m = refl
  read_all (id ∷ ids) reqs fields h m =
      rw (read_one id reqs fields h m) (rw (read_all ids reqs fields h m) refl)

  -- The fields are not empty where there are requests.
  write_prices-Hold :
      (reqs : Dict Str F) (fields : List (Str × Str)) (store : Store)
      → Hold reqs fields
      → reqs ≢ []
      → write_prices json (ok fields) store ≡ (hset_fields prices_key fields store, ok tt)
  unfolding write_prices
  write_prices-Hold [] fields store h n = absurd (n refl)
  write_prices-Hold (r ∷ reqs) [] store h n = elim h [ ]
  write_prices-Hold (r ∷ reqs) (f ∷ fields) store h n = refl

  set_quiet :
      (reqs : Dict Str F) (fields : List (Str × Str)) (store : Store)
      → price_fields json reqs ≡ ok fields
      → Hold reqs fields
      → reqs ≢ []
      → set_prices json reqs quiet [] store ≡ (hset_fields prices_key fields store, ok tt)
  unfolding set_prices prices_body
  set_quiet reqs fields store e h n =
      rw (try_transaction-quiet (prices_body json reqs) (store, tt))
        (rw e (rw (write_prices-Hold reqs fields store h n) refl))

  read_stored :
      (ids : List Str) (fields : List (Str × Str)) (store : Store)
      → ids ≢ []
      → get prices_key store ≡ none
      → read_prices json prices_key ids (hset_fields prices_key fields store)
        ≡ read_values json (overlay ids fields [])
  unfolding read_prices
  read_stored [] fields store n g = absurd (n refl)
  read_stored (id ∷ ids) fields store n g =
      ap (λ h. read_values json (read_fields (id ∷ ids) h))
        (hgetall-hset_fields prices_key fields store ∙ ap (write_fields fields) (rw g refl))
      ∙ ap (read_values json) (read_fields-write_fields (id ∷ ids) fields [])

  -- SetPrices and then GetPrices, where JSON reads back each price that it wrote, there is a price to
  -- set and an asset to ask for, no price was stored before and no one else changes the store: both
  -- succeed, and GetPrices gives for each asset that it is asked for, in order, the price that was
  -- set for it, and the zero price where none was.
  pub get_prices-set_prices :
      (reqs : Dict Str F) (ids : List Str) (store : Store)
      → Readable reqs
      → IsMap reqs
      → reqs ≢ []
      → ids ≢ []
      → get prices_key store ≡ none
      → ((set_prices json reqs quiet [] store).1 ≡ ok tt)
        × (get_prices json ids quiet [] (set_prices json reqs quiet [] store).0
            ≡ ok (map (price_of reqs) ids))
  unfolding get_prices appending returned
  get_prices-set_prices reqs ids store readable m n k g =
      let (fields, e, h) = price_fields-Hold reqs readable in
      let written_store = hset_fields prices_key fields store in
      rw (set_quiet reqs fields store e h n) (
        refl,
        ap returned (
            try_transaction-quiet (appending (read_prices json prices_key ids)) (written_store, [])
            ∙ ap (λ l. ((written_store, l.0), l.1))
                (read_stored ids fields store k g ∙ read_all ids reqs fields h m)),
      )
