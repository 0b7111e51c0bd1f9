-- ===== src/Golang/Paths/Slashes.antt =====
-- Texts without a slash, and the parts of a path that was joined from them (path/filepath).
use Prim.Native.Char.{Char, code}
use mathlib.Core.List.{append_assoc}
use rw_node_go.Common.{
  ◌≡◌, refl, sym, ap, ◌∙◌, Bool, true, false, ◌&&◌, not, String, List, [], ◌∷◌, ◌++◌, inl, inr,
  nat_eq, Bool-cases, All, arith,
}
use rw_node_go.Golang.Strings.{with_first}
use rw_node_go.Golang.Paths.{split_path, join_reversed}
use rw_node_go.Golang.Paths.Under.{onto, split_path-append}

abbrev pub is_slash_free : String → Bool
is_slash_free String.[] = true
is_slash_free (String.◌∷◌ c s) = not (nat_eq (code c) 47) && is_slash_free s

abbrev pub HasNoSlash : String → Type 0
HasNoSlash s = is_slash_free s ≡ true

pub with_first-HasNoSlash :
    (c : Char) (parts : List String)
    → nat_eq (code c) 47 ≡ false
    → All HasNoSlash parts
    → All HasNoSlash (with_first c parts)
with_first-HasNoSlash c [] h k = (ground arith, tt)
with_first-HasNoSlash c (part ∷ parts) h (k, ks) = (ground arith, ks)

pub split_path-HasNoSlash : (s : String) → All HasNoSlash (split_path s)
unfolding split_path
split_path-HasNoSlash String.[] = (refl, tt)
split_path-HasNoSlash (String.◌∷◌ c s) = elim (Bool-cases (nat_eq (code c) 47)) [
  | inl e ↦ rw e (refl, split_path-HasNoSlash s)
  | inr e ↦ rw e (with_first-HasNoSlash c (split_path s) e (split_path-HasNoSlash s))
]

pub split_path-alone : (s : String) → HasNoSlash s → split_path s ≡ s ∷ []
unfolding split_path
split_path-alone String.[] h = refl
split_path-alone (String.◌∷◌ c s) h =
    let first : nat_eq (code c) 47 ≡ false = ground arith in
    let rest : is_slash_free s ≡ true = ground arith in simp (first, split_path-alone s rest) refl

pub onto-append : (xs ys : List String) → onto xs ys ≡ onto xs [] ++ ys
onto-append [] ys = refl
onto-append (x ∷ xs) ys =
    onto-append xs (x ∷ ys)
    ∙ sym (append_assoc (onto xs []) (x ∷ []) ys)
    ∙ ap (λ l. l ++ ys) (sym (onto-append xs (x ∷ [])))

-- A joined path is cut into the parts that were joined.
pub split_path-join_reversed :
    (part : String) (done : List String)
    → All HasNoSlash (part ∷ done)
    → split_path (join_reversed (part ∷ done)) ≡ onto (part ∷ done) []
unfolding join_reversed
split_path-join_reversed part [] (h, hs) = split_path-alone part h
split_path-join_reversed part (before ∷ done) (h, hs) =
    split_path-append (join_reversed (before ∷ done)) part
    ∙ (λ i. split_path-join_reversed before done hs i ++ split_path-alone part h i)
    ∙ sym (onto-append (before ∷ done) (part ∷ []))
