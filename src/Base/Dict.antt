-- ===== src/Base/Dict.antt =====
-- `HashMap<String, V>` as an association list. The program never relies on the order of entries.
use nexuspouch.Base.Tests.{if◌then◌else◌, Bool-cases}
use Prim.Native.String.{String}
use mathlib.Core.Path.{◌≡◌, refl, subst, ◌∙◌}
use mathlib.Core.Logic.{inl, inr}
use mathlib.Core.Option.{Option, none, some}
use mathlib.Core.List.{List, [], ◌∷◌}
use native.Mathlib.Omega.{arith}
use text.Mathlib.Text.{◌==◌}
use text.Mathlib.TextEquality.{eq_iff}

abbrev pub Dict {ℓ} : Type ℓ → Type ℓ
Dict V = List (String × V)

module _ {ℓ} {V : Type ℓ} where
  -- `m.get(k)`
  unfoldable pub lookup : String → Dict V → Option V
  lookup key [] = none
  lookup key ((name, value) ∷ rest) = if name == key then some value else lookup key rest

  -- `m.insert(k, v)`
  unfoldable pub insert : String → V → Dict V → Dict V
  insert k v [] = (k, v) ∷ []
  insert k v ((j, w) ∷ m) = let rest = insert k v m in if j == k then (k, v) ∷ m else (j, w) ∷ rest

  -- `m.remove(k)`
  unfoldable pub remove : String → Dict V → Dict V
  remove k [] = []
  remove k ((j, w) ∷ m) = let rest = remove k m in if j == k then rest else (j, w) ∷ rest

  pub lookup-nil : (k : String) → lookup k [] ≡ none
  unfolding lookup
  lookup-nil k = refl

  -- An inserted value is found under its key, and every other key finds what it found before.
  pub lookup-insert :
      (key other : String) (v : V) (m : Dict V)
      → lookup other (insert key v m) ≡ (if key == other then some v else lookup other m)
  unfolding insert lookup
  lookup-insert key other v [] = refl
  lookup-insert key other v ((i, w) ∷ rest) =
      let later = lookup-insert key other v rest in
      ground (arith, later, eq_iff i other, eq_iff i key, eq_iff key other)

  pub lookup-insert_self : (k : String) (v : V) (m : Dict V) → lookup k (insert k v m) ≡ some v
  lookup-insert_self k v m = lookup-insert k k v m ∙ ground (arith, eq_iff k k)

  -- A removed key finds nothing, and every other key finds what it found before.
  pub lookup-remove :
      (key other : String) (m : Dict V)
      → lookup other (remove key m) ≡ (if key == other then none else lookup other m)
  unfolding remove lookup
  lookup-remove key other [] = ground arith
  lookup-remove key other ((i, w) ∷ rest) =
      let later = lookup-remove key other rest in
      ground (arith, later, eq_iff i other, eq_iff i key, eq_iff key other)

pub ruleset dict_laws = (lookup-nil, lookup-insert, lookup-remove)

module _ {ℓ} {V : Type ℓ} (P : V → Type 0) where
  abbrev pub AllValues : Dict V → Type 0
  AllValues [] = Unit
  AllValues ((k, v) ∷ m) = P v × AllValues m

  pub AllValues-insert :
      (k : String) (v : V) (m : Dict V) → P v → AllValues m → AllValues (insert k v m)
  unfolding insert
  AllValues-insert k v [] p h = (p, tt)
  AllValues-insert k v ((j, w) ∷ m) p h = elim (Bool-cases (j == k)) [
    | inl e ↦ rw e (p, h.1)
    | inr e ↦ rw e (h.0, AllValues-insert k v m p h.1)
  ]

  pub AllValues-lookup :
      (k : String) (m : Dict V) → AllValues m → (v : V) → lookup k m ≡ some v → P v
  unfolding lookup
  AllValues-lookup k [] h v e = cc
  AllValues-lookup k ((j, w) ∷ m) h v e = elim (Bool-cases (j == k)) [
    | inl d ↦ subst P (ground arith) h.0
    | inr d ↦ AllValues-lookup k m h.1 v (ground arith)
  ]
