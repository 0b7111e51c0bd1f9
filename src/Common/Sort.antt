-- ===== src/Common/Sort.antt =====
-- `sort.Strings` and `sort.Slice`: the result of a sort by a total order.
use Prim.Native.String.{String}
use mathlib.Core.Path.{◌≡◌, refl, ap, ◌∙◌}
use mathlib.Core.Logic.{◌⊎◌, inl, inr, ∥∥₁_elim}
use mathlib.Core.Bool.{Bool, true, ◌||◌}
use mathlib.Core.List.{List, [], ◌∷◌, Perm, Permᴰ}
use mathlib.Core.List.Perm
use native.Mathlib.Omega.{arith}
use text.Mathlib.TextEquality.{IsScalar-prop}
use rw_node_go.Common.Tests.{Bool-cases, if◌then◌else◌}
use rw_node_go.Common.Lists.{All}
use rw_node_go.Common.Texts.{text_le, text_le_total, text_le_trans, text_le_antisymm, ◌==◌}
use rw_node_go.Common.Maps.{has}

module _ {ℓ} {A : Type ℓ} (le : A → A → Bool) where
  unfoldable pub insert_sorted : A → List A → List A
  insert_sorted x [] = x ∷ []
  insert_sorted x (y ∷ ys) = if le x y then x ∷ y ∷ ys else y ∷ insert_sorted x ys

  unfoldable pub sort : List A → List A
  unfolding insert_sorted
  sort [] = []
  sort (x ∷ xs) = insert_sorted x (sort xs)

  -- Every element comes before all later ones.
  abbrev pub IsSorted : List A → Type ℓ
  IsSorted [] = Unit
  IsSorted (x ∷ xs) = All (λ y. le x y ≡ true) xs × IsSorted xs

  insert_sorted-perm : (x : A) (ys : List A) → Perm (insert_sorted x ys) (x ∷ ys)
  unfolding insert_sorted
  insert_sorted-perm x [] = Perm.refl _
  insert_sorted-perm x (y ∷ ys) = elim (Bool-cases (le x y)) [
    | inl e ↦ rw e (Perm.refl _)
    | inr e ↦ rw e (Perm.trans (Perm.cons y (insert_sorted-perm x ys)) (Perm.swap x y ys))
  ]

  pub sort-perm : (xs : List A) → Perm (sort xs) xs
  unfolding sort
  sort-perm [] = Perm.refl _
  sort-perm (x ∷ xs) = Perm.trans (insert_sorted-perm x (sort xs)) (Perm.cons x (sort-perm xs))

module _ {ℓ} {A : Type ℓ} (le : A → A → Bool)
    (total : (x y : A) → (le x y ≡ true) ⊎ (le y x ≡ true))
    (trans : (x y z : A) → le x y ≡ true → le y z ≡ true → le x z ≡ true) where
  All-trans :
      (x y : A) (ys : List A)
      → le x y ≡ true
      → All (λ z. le y z ≡ true) ys
      → All (λ z. le x z ≡ true) ys
  All-trans x y [] h a = tt
  All-trans x y (z ∷ zs) h a = (trans x y z h a.0, All-trans x y zs h a.1)

  All-insert_sorted :
      (z x : A) (ys : List A)
      → le z x ≡ true
      → All (λ w. le z w ≡ true) ys
      → All (λ w. le z w ≡ true) (insert_sorted le x ys)
  unfolding insert_sorted
  All-insert_sorted z x [] h a = (h, tt)
  All-insert_sorted z x (y ∷ ys) h a = elim (Bool-cases (le x y)) [
    | inl e ↦ rw e (h, a)
    | inr e ↦ rw e (a.0, All-insert_sorted z x ys h a.1)
  ]

  insert_sorted-IsSorted :
      (x : A) (ys : List A) → IsSorted le ys → IsSorted le (insert_sorted le x ys)
  unfolding insert_sorted
  insert_sorted-IsSorted x [] s = (tt, tt)
  insert_sorted-IsSorted x (y ∷ ys) s = elim (Bool-cases (le x y)) [
    | inl e ↦ rw e ((e, All-trans x y ys e s.0), s)
    | inr e ↦
        rw e (
          All-insert_sorted y x ys (ground (arith, total x y)) s.0,
          insert_sorted-IsSorted x ys s.1,
        )
  ]

  pub sort-IsSorted : (xs : List A) → IsSorted le (sort le xs)
  unfolding sort
  sort-IsSorted [] = tt
  sort-IsSorted (x ∷ xs) = insert_sorted-IsSorted x (sort le xs) (sort-IsSorted xs)

-- `sort.Strings`
unfoldable pub sort_texts : List String → List String
sort_texts = sort text_le

pub sort_texts-IsSorted : (xs : List String) → IsSorted text_le (sort_texts xs)
unfolding sort_texts
sort_texts-IsSorted = sort-IsSorted text_le text_le_total text_le_trans

has-insert_sorted :
    (k x : String) (ys : List String) → has k (insert_sorted text_le x ys) ≡ (x == k || has k ys)
unfolding insert_sorted has
has-insert_sorted k x [] = refl
has-insert_sorted k x (y ∷ ys) = ground (arith, has-insert_sorted k x ys)

pub has-sort_texts : (k : String) (xs : List String) → has k (sort_texts xs) ≡ has k xs
unfolding sort_texts sort has
has-sort_texts k [] = refl
has-sort_texts k (x ∷ xs) =
    has-insert_sorted k x (sort text_le xs) ∙ ap (λ b. x == k || b) (has-sort_texts k xs)

insert_sorted_swap :
    (x y : String) (l : List String)
    → insert_sorted text_le x (insert_sorted text_le y l)
      ≡ insert_sorted text_le y (insert_sorted text_le x l)
unfolding insert_sorted
insert_sorted_swap x y [] = ground (arith, text_le_total x y, text_le_antisymm x y)
insert_sorted_swap x y (z ∷ l) = ground (
  arith,
  text_le_total x y,
  text_le_antisymm x y,
  text_le_trans x y z,
  text_le_trans y x z,
  text_le_total x z,
  text_le_total y z,
  insert_sorted_swap x y l,
)

sort_texts-Permᴰ : {xs ys : List String} → Permᴰ xs ys → sort_texts xs ≡ sort_texts ys
unfolding sort_texts sort
sort_texts-Permᴰ Permᴰ.nil = refl
sort_texts-Permᴰ (Permᴰ.cons e p) = λ i. insert_sorted text_le (e i) (sort_texts-Permᴰ p i)
sort_texts-Permᴰ (Permᴰ.swap {a} {b} {l = l} e f) =
    insert_sorted_swap a b (sort text_le l)
    ∙ (λ i. insert_sorted text_le (f i) (insert_sorted text_le (e i) (sort text_le l)))
sort_texts-Permᴰ (Permᴰ.trans p q) = sort_texts-Permᴰ p ∙ sort_texts-Permᴰ q

texts_set : IsSet (List String)
texts_set = hlevel IsScalar-prop

-- A sort forgets the order in which a map is iterated.
pub sort_texts-Perm : {xs ys : List String} → Perm xs ys → sort_texts xs ≡ sort_texts ys
sort_texts-Perm p = ∥∥₁_elim p (texts_set _ _) sort_texts-Permᴰ
