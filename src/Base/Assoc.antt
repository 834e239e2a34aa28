-- ===== src/Base/Assoc.antt =====
-- Go maps as association lists. The order of the entries stands for the order in which one run of
-- the program iterates over the map, which Go leaves open; `insert` writes over an entry of the key.
use Prim.Native.Nat.{suc}
use mathlib.Core.Path.{◌≡◌, refl, ap}
use mathlib.Core.Logic.{◌≢◌}
use mathlib.Core.Bool.{Bool, true, false}
use mathlib.Core.List.{List, [], ◌∷◌, map}
use mathlib.Core.Option.{Option, none, some}
use native.Mathlib.Omega.{arith}
use matrix_discord_voice_bri.Base.Tests.{if◌then◌else◌}
use matrix_discord_voice_bri.Base.Lists.{length}
use matrix_discord_voice_bri.Base.Eq.{Eq, ◌==◌}

-- The `ok` of `_, ok := m[k]`.
abbrev pub is_some {ℓ} : {V : Type ℓ} → Option V → Bool
is_some none = false
is_some (some v) = true

module _ {ℓ κ} {K : Type ℓ} {V : Type κ} ⦃e : Eq K⦄ where
  unfoldable pub lookup : K → List (K × V) → Option V
  lookup k [] = none
  lookup k ((j, v) ∷ m) = if j == k then some v else lookup k m

  unfoldable pub insert : K → V → List (K × V) → List (K × V)
  insert k v [] = (k, v) ∷ []
  insert k v ((j, w) ∷ m) = if j == k then (k, v) ∷ m else (j, w) ∷ insert k v m

  unfoldable pub delete : K → List (K × V) → List (K × V)
  delete k [] = []
  delete k ((j, w) ∷ m) = let rest = delete k m in if j == k then rest else (j, w) ∷ rest

  unfoldable pub has : K → List (K × V) → Bool
  has k m = is_some (lookup k m)

  -- No key has two entries.
  unfoldable pub Distinct : List (K × V) → Type 0
  Distinct [] = Unit
  Distinct ((j, v) ∷ m) = (has j m ≡ false) × Distinct m

  pub lookup-insert :
      (k read : K) (new : V) (m : List (K × V))
      → lookup read (insert k new m) ≡ (if k == read then some new else lookup read m)
  unfolding insert lookup
  lookup-insert k read new ((i, old) ∷ m) =
      ground (arith, e.beq_iff k read, e.beq_iff i k, e.beq_iff i read, lookup-insert k read new m)
  lookup-insert k read new [] = refl

  pub lookup-insert_self : (k : K) (v : V) (m : List (K × V)) → lookup k (insert k v m) ≡ some v
  lookup-insert_self k v m = ground (arith, lookup-insert k k v m, e.beq_iff k k)

  pub lookup-insert_ne :
      (k j : K) (v : V) (m : List (K × V)) → k ≢ j → lookup j (insert k v m) ≡ lookup j m
  lookup-insert_ne k j v m h = ground (arith, lookup-insert k j v m, e.beq_iff k j)

  pub lookup-delete :
      (k j : K) (m : List (K × V)) → lookup j (delete k m) ≡ (if k == j then none else lookup j m)
  unfolding lookup delete
  lookup-delete k j [] = ground arith
  lookup-delete k j ((i, w) ∷ m) =
      ground (arith, e.beq_iff k j, e.beq_iff i k, e.beq_iff i j, lookup-delete k j m)

  pub lookup-delete_self : (k : K) (m : List (K × V)) → lookup k (delete k m) ≡ none
  lookup-delete_self k m = ground (arith, lookup-delete k k m, e.beq_iff k k)

  pub lookup-delete_ne : (k j : K) (m : List (K × V)) → k ≢ j → lookup j (delete k m) ≡ lookup j m
  lookup-delete_ne k j m h = ground (arith, lookup-delete k j m, e.beq_iff k j)

  pub has-insert_ne : (k j : K) (v : V) (m : List (K × V)) → k ≢ j → has j (insert k v m) ≡ has j m
  unfolding has
  has-insert_ne k j v m h = ap is_some (lookup-insert_ne k j v m h)

  pub Distinct-insert : (k : K) (v : V) (m : List (K × V)) → Distinct m → Distinct (insert k v m)
  unfolding Distinct insert has lookup
  Distinct-insert k v [] d = (refl, tt)
  Distinct-insert k v ((j, w) ∷ m) d =
      ground (arith, e.beq_iff j k, e.beq_iff k j, lookup-insert k j v m, Distinct-insert k v m)

  has-delete : (k j : K) (m : List (K × V)) → has j m ≡ false → has j (delete k m) ≡ false
  unfolding has
  has-delete k j m h = ground (arith, lookup-delete k j m)

  pub Distinct-delete : (k : K) (m : List (K × V)) → Distinct m → Distinct (delete k m)
  unfolding Distinct delete
  Distinct-delete k [] d = tt
  Distinct-delete k ((j, w) ∷ m) d = ground (arith, has-delete k j m, Distinct-delete k m)

  pub length-insert_new :
      (k : K) (v : V) (m : List (K × V)) → has k m ≡ false → length (insert k v m) ≡ suc (length m)
  unfolding insert has lookup
  length-insert_new k v [] h = refl
  length-insert_new k v ((j, w) ∷ m) h = ground (arith, length-insert_new k v m)

  pub length-insert_old :
      (k : K) (v : V) (m : List (K × V)) → has k m ≡ true → length (insert k v m) ≡ length m
  unfolding insert has lookup
  length-insert_old k v [] h = cc
  length-insert_old k v ((j, w) ∷ m) h = ground (arith, length-insert_old k v m)

  pub length-delete_none :
      (k : K) (m : List (K × V)) → has k m ≡ false → length (delete k m) ≡ length m
  unfolding delete has lookup
  length-delete_none k [] h = refl
  length-delete_none k ((j, w) ∷ m) h = ground (arith, length-delete_none k m)

  pub length-delete_some :
      (k : K) (m : List (K × V))
      → Distinct m
      → has k m ≡ true
      → suc (length (delete k m)) ≡ length m
  unfolding delete has lookup Distinct
  length-delete_some k [] d h = cc
  length-delete_some k ((j, w) ∷ m) d h =
      ground (arith, length-delete_some k m, length-delete_none k m, e.beq_iff j k)

  -- The first entry whose value passes the test, as a loop with `break` finds it.
  unfoldable pub find_value : (V → Bool) → List (K × V) → Option (K × V)
  find_value p [] = none
  find_value p ((k, v) ∷ m) = if p v then some (k, v) else find_value p m

  pub find_value-some :
      (p : V → Bool) (m : List (K × V)) (k : K) (v : V)
      → Distinct m
      → find_value p m ≡ some (k, v)
      → (lookup k m ≡ some v) × (p v ≡ true)
  unfolding find_value lookup Distinct has
  find_value-some p [] k v d h = cc
  find_value-some p ((j, w) ∷ m) k v d h = ground (arith, find_value-some p m k v, e.beq_iff j k)

  pub find_value-none :
      (p : V → Bool) (m : List (K × V)) (k : K) (v : V)
      → find_value p m ≡ none
      → lookup k m ≡ some v
      → p v ≡ false
  unfolding find_value lookup
  find_value-none p [] k v h l = cc
  find_value-none p ((j, w) ∷ m) k v h l = ground (arith, find_value-none p m k v)

module _ {ℓ κ} {K : Type ℓ} {V : Type κ} where
  abbrev pub keys : List (K × V) → List K
  keys m = map (λ p. p.0) m

  abbrev pub values : List (K × V) → List V
  values m = map (λ p. p.1) m

module _ {ℓ κ} {K : Type ℓ} {V : Type κ} ⦃e : Eq K⦄ where
  pub delete_none : (k : K) (m : List (K × V)) → has k m ≡ false → delete k m ≡ m
  unfolding delete has lookup
  delete_none k [] h = refl
  delete_none k ((j, w) ∷ m) h = ground (arith, delete_none k m)

  pub delete-insert :
      (k : K) (v : V) (m : List (K × V)) → has k m ≡ false → delete k (insert k v m) ≡ m
  unfolding delete insert has lookup
  delete-insert k v [] h = ground (arith, e.beq_iff k k)
  delete-insert k v ((j, w) ∷ m) h = ground (arith, delete-insert k v m)

  pub insert-insert :
      (k : K) (v w : V) (m : List (K × V)) → insert k w (insert k v m) ≡ insert k w m
  unfolding insert
  insert-insert k v w [] = ground (arith, e.beq_iff k k)
  insert-insert k v w ((j, x) ∷ m) = ground (arith, insert-insert k v w m, e.beq_iff k k)
