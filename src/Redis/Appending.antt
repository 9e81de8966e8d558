-- ===== src/Redis/Appending.antt =====
-- A transaction of GetPools and of getPrices appends what it reads to a variable that stands outside
-- of it, and a retry does not empty that variable.
use dora_service_utils.Base.{
  ◌≡◌, ◌⊎◌, refl, ap, ◌∙◌, subst, Option, none, some, List, [], ◌∷◌, ◌++◌, Option-cases, inl, inr,
}
use dora_service_utils.Base.Result.{Result, ok, err, Error}
use dora_service_utils.Redis.{Store, Attempt, quiet, Body, attempt, retry, try_transaction}

-- The part of a body behind the pipeline: what it appends before it returns, and what it returns.
unfoldable pub appending : {A : Type 0} → (Store → List A × Result (Unit {0})) → Body (List A)
appending read (some e) (store, l) = ((store, l), err e)
appending read none (store, l) = let (more, r) = read store in ((store, l ++ more), r)

-- The last store is what one of the attempts finds: the first store as the other clients have changed
-- it up to that attempt.
abbrev pub IsSeen : List Attempt → Store → Store → Type 0
IsSeen [] store last = ⊥
IsSeen (a ∷ attempts) store last = (last ≡ a.others store) ⊎ IsSeen attempts (a.others store) last

IsSeen-from :
    (attempts : List Attempt) {s t : Store} (last : Store)
    → s ≡ t
    → IsSeen attempts s last
    → IsSeen attempts t last
IsSeen-from attempts last e h = subst (λ (q : Store). IsSeen attempts q last) e h

module _ {A : Type 0} (read : Store → List A × Result (Unit {0})) where
  -- A transaction that has succeeded has appended, last, all that its read gives on the store that it
  -- leaves; what stands before it is of failed attempts.
  abbrev pub Complete : (Store × List A) × Result (Unit {0}) → Type 0
  Complete ((store, l), ok u) =
      (before : List A) × (l ≡ before ++ (read store).0) × ((read store).1 ≡ ok tt)
  Complete ((store, l), err e) = Unit

  appending-Complete :
      (conflict : Option Error) (store : Store) (l : List A) (r : Result (Unit {0}))
      → (read store).1 ≡ r
      → Complete (appending read conflict (store, l))
  unfolding appending
  appending-Complete (some e) store l r h = tt
  appending-Complete none store l (ok tt) h = rw h (l, refl, h)
  appending-Complete none store l (err e) h = rw h tt

  attempt-Complete : (a : Attempt) (x : Store × List A) → Complete (attempt (appending read) a x)
  unfolding attempt
  attempt-Complete a (store, l) = elim (Option-cases a.refused) [
    | inl n ↦ rw n (appending-Complete a.conflict (a.others store) l _ refl)
    | inr (e, s) ↦ rw s tt
  ]

  retry-Complete :
      (x : (Store × List A) × Result (Unit {0})) (attempts : List Attempt)
      → Complete x
      → Complete (retry (appending read) x attempts)
  unfolding retry
  retry-Complete (x, ok u) attempts c = c
  retry-Complete (x, err e) [] c = c
  retry-Complete (x, err e) (a ∷ attempts) c =
      retry-Complete (attempt (appending read) a x) attempts (attempt-Complete a x)

  pub try_transaction-Complete :
      (a : Attempt) (attempts : List Attempt) (x : Store × List A)
      → Complete (try_transaction (appending read) a attempts x)
  unfolding try_transaction
  try_transaction-Complete a attempts x =
      retry-Complete (attempt (appending read) a x) attempts (attempt-Complete a x)

  -- An attempt that reads the store that others have left.
  read_from :
      (seen store : Store) (l : List A) (r : Result (Unit {0}))
      → (read seen).1 ≡ r
      → attempt (appending read) (record quiet { others = λ s. seen }) (store, l)
        ≡ ((seen, l ++ (read seen).0), r)
  unfolding attempt appending
  read_from seen store l r h = ap (λ q. ((seen, l ++ (read seen).0), q)) h

  attempt-store :
      (a : Attempt) (store : Store) (l : List A)
      → (attempt (appending read) a (store, l)).0.0 ≡ a.others store
  unfolding attempt appending
  attempt-store a store l = elim (Option-cases a.refused) [
    | inr (e, s) ↦ rw s refl
    | inl n ↦ rw n (elim (Option-cases a.conflict) [ inr (e, s) ↦ rw s refl | inl m ↦ rw m refl ])
  ]

  retry-IsSeen :
      (s : Store) (l : List A) (r : Result (Unit {0})) (attempts : List Attempt)
      → ((retry (appending read) ((s, l), r) attempts).0.0 ≡ s)
        ⊎ IsSeen attempts s (retry (appending read) ((s, l), r) attempts).0.0
  unfolding retry
  retry-IsSeen s l (ok u) attempts = inl refl
  retry-IsSeen s l (err e) [] = inl refl
  retry-IsSeen s l (err e) (a ∷ attempts) =
      let x = attempt (appending read) a (s, l) in
      let next = attempt-store a s l in
      let last = (retry (appending read) x attempts).0.0 in
      elim (retry-IsSeen x.0.0 x.0.1 x.1 attempts) [
        | inl here ↦ inr (inl (here ∙ next))
        | inr later ↦ inr (inr (IsSeen-from attempts last next later))
      ]

  -- A transaction ends on the store as one of its attempts has found it.
  pub try_transaction-IsSeen :
      (a : Attempt) (attempts : List Attempt) (store : Store) (l : List A)
      → IsSeen (a ∷ attempts) store (try_transaction (appending read) a attempts (store, l)).0.0
  unfolding try_transaction
  try_transaction-IsSeen a attempts store l =
      let x = attempt (appending read) a (store, l) in
      let next = attempt-store a store l in
      let last = (retry (appending read) x attempts).0.0 in
      elim (retry-IsSeen x.0.0 x.0.1 x.1 attempts) [
        | inl here ↦ inl (here ∙ next)
        | inr later ↦ inr (IsSeen-from attempts last next later)
      ]

  pub retried_read :
      (store repaired : Store) (e : Error)
      → (read store).1 ≡ err e
      → (read repaired).1 ≡ ok tt
      → try_transaction
          (appending read)
          quiet
          (record quiet { others = λ s. repaired } ∷ [])
          (store, [])
        ≡ ((repaired, (read store).0 ++ (read repaired).0), ok tt)
  unfolding try_transaction retry
  retried_read store repaired e h k =
      let f = appending read in
      let again : List Attempt = record quiet { others = λ s. repaired } ∷ [] in
      ap (λ x. retry f x again) (read_from store store [] (err e) h)
      ∙ ap (λ x. retry f x []) (read_from repaired store (read store).0 (ok tt) k)
