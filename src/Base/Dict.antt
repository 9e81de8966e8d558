-- ===== src/Base/Dict.antt =====
-- A Go map as an association list, in an arbitrary order: a `range` loop visits the entries in the
-- order of the list, and as the theorems quantify over all lists they cover each order that the
-- runtime may choose.
use dora_service_utils.Base.{
  ◌≡◌, ◌≢◌, refl, Bool, Option, none, some, List, [], ◌∷◌, arith, Eq, beq_refl, if◌then◌else◌,
}

module _ {κ ℓ} where
  abbrev pub Dict : Type κ → Type ℓ → Type (κ ⊔ ℓ)
  Dict K V = List (K × V)

module _ {κ ℓ} {K : Type κ} ⦃e : Eq K⦄ {V : Type ℓ} where
  -- `v, ok := d[k]`
  unfoldable pub get : K → Dict K V → Option V
  get k [] = none
  get k ((j, v) ∷ d) = if e.beq j k then some v else get k d

  -- `d[k] = v`
  unfoldable pub insert : K → V → Dict K V → Dict K V
  insert k v [] = (k, v) ∷ []
  insert k v ((j, w) ∷ d) = if e.beq j k then (j, v) ∷ d else (j, w) ∷ insert k v d

  -- No key stands twice.
  abbrev pub IsMap : Dict K V → Type ℓ
  IsMap [] = Unit
  IsMap ((k, v) ∷ d) = (get k d ≡ none) × IsMap d

  pub get-insert :
      (k j : K) (v : V) (d : Dict K V)
      → get j (insert k v d) ≡ (if e.beq k j then some v else get j d)
  unfolding get insert
  get-insert k j v [] = refl
  get-insert k j v ((i, w) ∷ d) =
      ground (arith, e.beq_iff k j, e.beq_iff i k, e.beq_iff i j, get-insert k j v d)

  pub get-insert_self : (k : K) (v : V) (d : Dict K V) → get k (insert k v d) ≡ some v
  get-insert_self k v d = rw get-insert (rw beq_refl)

  pub get-insert_ne : (k j : K) (v : V) (d : Dict K V) → k ≢ j → get j (insert k v d) ≡ get j d
  get-insert_ne k j v d h = rw get-insert (ground (arith, e.beq_iff k j))

  pub insert-IsMap : (k : K) (v : V) (d : Dict K V) → IsMap d → IsMap (insert k v d)
  unfolding insert get
  insert-IsMap k v [] h = (refl, tt)
  insert-IsMap k v ((i, w) ∷ d) h =
      ground (arith, insert-IsMap k v d h.1, get-insert k i v d, e.beq_iff k i, e.beq_iff i k)

abbrev pub merged {ℓ} :
    {V : Type ℓ} → (V → Bool) → (Option V → V → V) → Option V → Option V → Option V
merged keep f old none = old
merged keep f old (some v) = if keep v then some (f old v) else old

-- `for k, v := range d { if keep(v) { r[k] = f(r[k], v) } }`: a loop that writes, at most, the key
-- that it visits; `f` is given what stood under that key.
module _ {κ ℓ} {K : Type κ} ⦃e : Eq K⦄ {V : Type ℓ} (keep : V → Bool) (f : Option V → V → V) where
  unfoldable pub merge : Dict K V → Dict K V → Dict K V
  merge r [] = r
  merge r ((k, v) ∷ d) = merge (if keep v then insert k (f (get k r) v) r else r) d

  -- Each key of `d` is visited once, so a lookup depends on the two lookups alone.
  pub get-merge :
      (j : K) (r d : Dict K V) → IsMap d → get j (merge r d) ≡ merged keep f (get j r) (get j d)
  unfolding merge get
  get-merge j r [] h = refl
  get-merge j r ((k, v) ∷ d) h = ground (
    arith,
    get-merge j (if keep v then insert k (f (get k r) v) r else r) d h.1,
    get-insert k j (f (get k r) v) r,
    e.beq_iff k j,
  )

  pub merge-IsMap : (r d : Dict K V) → IsMap r → IsMap (merge r d)
  unfolding merge
  merge-IsMap r [] h = h
  merge-IsMap r ((k, v) ∷ d) h =
      merge-IsMap (if keep v then insert k (f (get k r) v) r else r) d
        (ground (arith, insert-IsMap k (f (get k r) v) r))
