-- ===== src/Common/Maps.antt =====
-- Go maps with text keys as association lists, and sets of texts as lists without repetitions.
-- A Go map has no order: what the program lists from one it sorts, or only counts.
use Prim.Native.String.{String}
use mathlib.Core.Path.{◌≡◌, refl}
use mathlib.Core.Bool.{Bool, false, ◌||◌}
use mathlib.Core.Option.{Option, none, some}
use mathlib.Core.List.{List, [], ◌∷◌}
use native.Mathlib.Omega.{arith}
use rw_node_go.Common.Tests.{if◌then◌else◌}
use text.Mathlib.Text.{◌==◌}
use text.Mathlib.TextEquality.{eq_iff}

abbrev pub Dict {ℓ} : Type ℓ → Type ℓ
Dict V = List (String × V)

module _ {ℓ} {V : Type ℓ} where
  -- m[key]
  unfoldable pub lookup : String → Dict V → Option V
  lookup key [] = none
  lookup key ((name, value) ∷ rest) =
      let later = lookup key rest in if name == key then some value else later

  -- m[key] = value; an entry that stands there keeps its place
  unfoldable pub insert : String → V → Dict V → Dict V
  insert key value [] = (key, value) ∷ []
  insert key value ((name, old) ∷ rest) =
      let later = insert key value rest in
      if name == key then (key, value) ∷ rest else (name, old) ∷ later

  -- delete(m, key)
  unfoldable pub delete : String → Dict V → Dict V
  delete key [] = []
  delete key ((name, old) ∷ rest) =
      let later = delete key rest in if name == key then later else (name, old) ∷ later

  pub lookup-insert :
      (key other : String) (value : V) (dict : Dict V)
      → lookup other (insert key value dict)
        ≡ (if key == other then some value else lookup other dict)
  unfolding lookup insert
  lookup-insert key other value [] = refl
  lookup-insert key other value ((name, old) ∷ rest) = ground (
    arith,
    lookup-insert key other value rest,
    eq_iff name key,
    eq_iff name other,
    eq_iff key other,
  )

  pub lookup-delete :
      (key other : String) (dict : Dict V)
      → lookup other (delete key dict) ≡ (if key == other then none else lookup other dict)
  unfolding lookup delete
  lookup-delete key other [] = ground arith
  lookup-delete key other ((name, old) ∷ rest) =
      ground
        (arith, lookup-delete key other rest, eq_iff name key, eq_iff name other, eq_iff key other)

-- _, ok := set[k]
unfoldable pub has : String → List String → Bool
has k [] = false
has k (x ∷ xs) = x == k || has k xs

-- set[k] = struct{}{}
unfoldable pub add : String → List String → List String
add k xs = if has k xs then xs else k ∷ xs

-- delete(set, k)
unfoldable pub remove : String → List String → List String
remove k [] = []
remove k (x ∷ xs) = let rest = remove k xs in if x == k then rest else x ∷ rest

pub has-add : (k j : String) (xs : List String) → has j (add k xs) ≡ (k == j || has j xs)
unfolding has add
has-add k j xs = ground (arith, eq_iff k j)

pub has-remove :
    (k j : String) (xs : List String) → has j (remove k xs) ≡ (if k == j then false else has j xs)
unfolding has remove
has-remove k j [] = ground arith
has-remove k j (x ∷ xs) = ground (arith, eq_iff k j, eq_iff x k, eq_iff x j, has-remove k j xs)

pub ruleset dict_laws = (lookup-insert, lookup-delete, has-add, has-remove)
