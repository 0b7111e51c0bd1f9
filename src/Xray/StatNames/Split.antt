-- ===== src/Xray/StatNames/Split.antt =====
-- strings.Split by ">>>": the text is cut at each separator from the left.
use Prim.Native.Char.{Char, code}
use Prim.Native.String.{[], ◌∷◌}
use rw_node_go.Common.{ℕ, zero, suc, Bool, false, ◌&&◌, String, List, nat_eq, if◌then◌else◌}

-- The character '>'.
abbrev pub is_gt : Char → Bool
is_gt c = nat_eq (code c) b'>'

-- The text begins with the separator.
unfoldable pub at_separator : String → Bool
at_separator (a ∷ b ∷ c ∷ s) = is_gt a && is_gt b && is_gt c
at_separator _ = false

abbrev pub cons_first : Char → List String → List String
cons_first c List.[] = List.◌∷◌ (c ∷ []) List.[]
cons_first c (List.◌∷◌ part parts) = List.◌∷◌ (c ∷ part) parts

-- The number counts the characters of a separator that are still to be passed over.
unfoldable pub split_from : ℕ → String → List String
unfolding at_separator
split_from skip [] = List.◌∷◌ [] List.[]
split_from (suc skip) (c ∷ s) = split_from skip s
split_from zero (c ∷ s) =
    let cut : List String = List.◌∷◌ [] (split_from 2 s) in
    let kept = cons_first c (split_from 0 s) in if at_separator (c ∷ s) then cut else kept

unfoldable pub split : String → List String
unfolding split_from
split s = split_from 0 s
