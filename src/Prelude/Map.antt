-- ===== src/Prelude/Map.antt =====
-- `HashMap<K, V>` as an association list. The first entry of a key counts; `insert` writes in
-- place, so a key that is there keeps its place. The order stands for the map's own order.
use mathlib.Core.Path.{◌≡◌, refl}
use mathlib.Core.Bool.{Bool}
use mathlib.Core.Option.{Option, none, some}
use mathlib.Core.Logic.{inl, inr}
use mathlib.Core.List.{List, [], ◌∷◌}
use native.Mathlib.Omega.{arith}
use bit_cord.Prelude.Tests.{Eq, if◌then◌else◌, Bool-cases}
use bit_cord.Prelude.Lists.{is_some, map_some}

abbrev pub Map : Type 0 → Type 0 → Type 0
Map K V = List (K × V)

abbrev pub values : {K V : Type 0} → Map K V → List V
values [] = []
values ((k, v) ∷ m) = v ∷ values m

-- `filter_entry p o` is `o` where its value passes.
abbrev pub filter_value : {V : Type 0} → (V → Bool) → Option V → Option V
filter_value p none = none
filter_value p (some v) = if p v then some v else none

-- `retain(|_, v| p(v))`.
unfoldable pub retain : {K V : Type 0} → (V → Bool) → Map K V → Map K V
retain p [] = []
retain p ((k, v) ∷ m) = let rest = retain p m in if p v then (k, v) ∷ rest else rest

-- `for v in values_mut() { v = f(v) }`.
unfoldable pub map_values : {K V W : Type 0} → (V → W) → Map K V → Map K W
map_values f [] = []
map_values f ((k, v) ∷ m) = (k, f v) ∷ map_values f m

module _ {K V : Type 0} ⦃e : Eq K⦄ where
  unfoldable pub get : Map K V → K → Option V
  get [] k = none
  get ((j, v) ∷ m) k = if e.beq j k then some v else get m k

  unfoldable pub insert : Map K V → K → V → Map K V
  insert [] k v = (k, v) ∷ []
  insert ((j, w) ∷ m) k v = if e.beq j k then (j, v) ∷ m else (j, w) ∷ insert m k v

  unfoldable pub remove : Map K V → K → Map K V
  remove [] k = []
  remove ((j, w) ∷ m) k = let rest = remove m k in if e.beq j k then rest else (j, w) ∷ rest

  unfoldable pub contains_key : Map K V → K → Bool
  contains_key m k = is_some (get m k)

  pub get-empty : (k : K) → ◌≡◌ {A = Option V} (get [] k) none
  unfolding get
  get-empty k = refl

  pub get-insert :
      (m : Map K V) (k j : K) (v : V)
      → get (insert m k v) j ≡ (if e.beq k j then some v else get m j)
  unfolding get insert
  get-insert [] k j v = refl
  get-insert ((i, w) ∷ m) k j v =
      ground (arith, e.beq_iff k j, e.beq_iff i k, e.beq_iff i j, get-insert m k j v)

  pub get-insert_self : (m : Map K V) (k : K) (v : V) → get (insert m k v) k ≡ some v
  get-insert_self m k v = ground (arith, get-insert m k k v, (e.beq_iff k k).1 refl)

  pub get-remove :
      (m : Map K V) (k j : K) → get (remove m k) j ≡ (if e.beq k j then none else get m j)
  unfolding get remove
  get-remove [] k j = ground arith
  get-remove ((i, w) ∷ m) k j =
      ground (arith, e.beq_iff k j, e.beq_iff i k, e.beq_iff i j, get-remove m k j)

  pub get-remove_self : (m : Map K V) (k : K) → get (remove m k) k ≡ none
  get-remove_self m k = ground (arith, get-remove m k k, (e.beq_iff k k).1 refl)

  -- No key has two entries.
  abbrev pub IsMap : Map K V → Type 0
  IsMap [] = Unit
  IsMap ((k, v) ∷ m) = (get m k ≡ none) × IsMap m

  pub insert-IsMap : (m : Map K V) (k : K) (v : V) → IsMap m → IsMap (insert m k v)
  unfolding get insert
  insert-IsMap [] k v h = (refl, tt)
  insert-IsMap ((j, w) ∷ m) k v h = elim (Bool-cases (e.beq j k)) [
    | inl same ↦ rw same h
    | inr other ↦ rw other (
      ground (arith, get-insert m k j v, e.beq_iff k j, e.beq_iff j k, h.0),
      insert-IsMap m k v h.1,
    )
  ]

  get-retain-none :
      (p : V → Bool) (m : Map K V) (k : K) → get m k ≡ none → get (retain p m) k ≡ none
  unfolding get retain
  get-retain-none p [] k h = refl
  get-retain-none p ((j, w) ∷ m) k h = ground (arith, get-retain-none p m k)

  pub get-retain :
      (p : V → Bool) (m : Map K V) (k : K) → IsMap m → get (retain p m) k ≡ filter_value p (get m k)
  unfolding get retain
  get-retain p [] k h = refl
  get-retain p ((j, w) ∷ m) k h =
      ground (arith, get-retain p m k h.1, get-retain-none p m j h.0, e.beq_iff j k)

  pub retain-IsMap : (p : V → Bool) (m : Map K V) → IsMap m → IsMap (retain p m)
  unfolding retain
  retain-IsMap p [] h = tt
  retain-IsMap p ((j, w) ∷ m) h = elim (Bool-cases (p w)) [
    | inl t ↦ rw t (get-retain-none p m j h.0, retain-IsMap p m h.1)
    | inr f ↦ rw f (retain-IsMap p m h.1)
  ]

module _ {K V W : Type 0} ⦃e : Eq K⦄ where
  pub get-map_values :
      (f : V → W) (m : Map K V) (k : K) → get (map_values f m) k ≡ map_some f (get m k)
  unfolding get map_values
  get-map_values f [] k = refl
  get-map_values f ((j, w) ∷ m) k = ground (arith, get-map_values f m k)

  pub map_values-IsMap : (f : V → W) (m : Map K V) → IsMap m → IsMap (map_values f m)
  unfolding map_values
  map_values-IsMap f [] h = tt
  map_values-IsMap f ((j, w) ∷ m) h =
      (ground (arith, get-map_values f m j, h.0), map_values-IsMap f m h.1)
