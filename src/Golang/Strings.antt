-- ===== src/Golang/Strings.antt =====
-- Package strings: TrimSpace, Fields, Split and Join by a line feed, ReplaceAll of two characters,
-- HasPrefix and ToLower.
use Prim.Native.Char.{Char, code}
use Prim.Native.String.{[], ◌∷◌, ◌++◌}
use rw_node_go.Common.{
  ℕ, zero, suc, Bool, true, false, ◌&&◌, ◌||◌, ◌≡◌, refl, String, List, nat_eq, ltb, leb,
  if◌then◌else◌, ap, ◌∙◌, Bool-cases, inl, inr,
}

abbrev pub is_blank : String → Bool
is_blank [] = true
is_blank (c ∷ s) = false

-- unicode.IsSpace
unfoldable pub is_space : Char → Bool
is_space c =
    (leb 9 (code c) && leb (code c) 13)
    || nat_eq (code c) 32
    || nat_eq (code c) 133
    || nat_eq (code c) 160
    || nat_eq (code c) 5760
    || (leb 8192 (code c) && leb (code c) 8202)
    || nat_eq (code c) 8232
    || nat_eq (code c) 8233
    || nat_eq (code c) 8239
    || nat_eq (code c) 8287
    || nat_eq (code c) 12288

unfoldable pub trim_left : String → String
trim_left [] = []
trim_left (c ∷ s) = let rest = trim_left s in if is_space c then rest else c ∷ s

unfoldable pub trim_right : String → String
trim_right [] = []
trim_right (c ∷ s) = let rest = trim_right s in if is_space c && is_blank rest then [] else c ∷ rest

unfoldable pub trim_space : String → String
trim_space s = trim_right (trim_left s)

-- The field that is being read, and those after it.
abbrev pub with_field : String → List String → List String
with_field [] fields = fields
with_field (c ∷ s) fields = List.◌∷◌ (c ∷ s) fields

-- strings.Fields; the text is cut into the word that it begins with and the rest.
unfoldable pub words : String → String × List String
words [] = ([], List.[])
words (c ∷ s) =
    let (word, later) = words s in
    if is_space c then ([], with_field word later) else (c ∷ word, later)

unfoldable pub fields : String → List String
fields s = let (word, later) = words s in with_field word later

-- strings.Split by a line feed.
abbrev pub with_first : Char → List String → List String
with_first c List.[] = List.◌∷◌ (c ∷ []) List.[]
with_first c (List.◌∷◌ line lines) = List.◌∷◌ (c ∷ line) lines

unfoldable pub split_lines : String → List String
split_lines [] = List.◌∷◌ [] List.[]
split_lines (c ∷ s) =
    let rest = split_lines s in if nat_eq (code c) 10 then List.◌∷◌ [] rest else with_first c rest

-- strings.Join
unfoldable pub join : String → List String → String
join separator List.[] = []
join separator (List.◌∷◌ part List.[]) = part
join separator (List.◌∷◌ part (List.◌∷◌ next parts)) =
    part ++ separator ++ join separator (List.◌∷◌ next parts)

-- strings.ReplaceAll of the two characters with the codes `a` and `b` by a line feed.
unfoldable pub replace_pair : ℕ → ℕ → String → String
replace_pair a b [] = []
replace_pair a b (c ∷ []) = c ∷ []
replace_pair a b (c ∷ d ∷ s) =
    let cut = replace_pair a b s in
    let kept = replace_pair a b (d ∷ s) in
    if nat_eq (code c) a && nat_eq (code d) b then "\n" ++ cut else c ∷ kept

-- The first n characters of a text that has as many.
unfoldable pub first_characters : ℕ → String → String
first_characters zero s = []
first_characters (suc n) [] = []
first_characters (suc n) (c ∷ s) = c ∷ first_characters n s

-- The text before the first line feed, if it has one.
unfoldable pub first_line : String → String
first_line [] = []
first_line (c ∷ s) = let rest = first_line s in if nat_eq (code c) 10 then [] else c ∷ rest

-- strings.HasPrefix
unfoldable pub has_prefix : String → String → Bool
has_prefix s [] = true
has_prefix [] (d ∷ t) = false
has_prefix (c ∷ s) (d ∷ t) = nat_eq (code c) (code d) && has_prefix s t

-- strings.Contains
unfoldable pub contains : String → String → Bool
unfolding has_prefix
contains [] t = has_prefix [] t
contains (c ∷ s) t = has_prefix (c ∷ s) t || contains s t

-- unicode.ToLower: the Latin letters by a table, and Unicode's table, `other`, past ASCII.
unfoldable pub lower_by : (Char → Char) → String → Char → Char
lower_by other (upper ∷ lower ∷ rest) c =
    let later = lower_by other rest c in if nat_eq (code upper) (code c) then lower else later
lower_by other _ c = if ltb (code c) 128 then c else other c

abbrev pub letters : String
letters = "AaBbCcDdEeFfGgHhIiJjKkLlMmNnOoPpQqRrSsTtUuVvWwXxYyZz"

-- strings.ToLower
unfoldable pub to_lower : (Char → Char) → String → String
to_lower other [] = []
to_lower other (c ∷ s) = lower_by other letters c ∷ to_lower other s

-- No space stands at the front, or at the end.
abbrev pub Starts : String → Type 0
Starts [] = Unit
Starts (c ∷ s) = is_space c ≡ false

trim_left-Starts : (s : String) → Starts (trim_left s)
unfolding trim_left
trim_left-Starts [] = tt
trim_left-Starts (c ∷ s) = elim (Bool-cases (is_space c)) [
  | inl e ↦ rw e (trim_left-Starts s)
  | inr e ↦ rw e e
]

trim_right-Starts : (s : String) → Starts s → Starts (trim_right s)
unfolding trim_right
trim_right-Starts [] h = tt
trim_right-Starts (c ∷ s) h = simp h refl

trim_right_again : (s : String) → trim_right (trim_right s) ≡ trim_right s
unfolding trim_right
trim_right_again [] = refl
trim_right_again (c ∷ s) = elim (Bool-cases (is_space c && is_blank (trim_right s))) [
  | inl e ↦ simp e refl
  | inr e ↦ simp e (simp (trim_right_again s) (simp e refl))
]

trim_left_done : (s : String) → Starts s → trim_left s ≡ s
unfolding trim_left
trim_left_done [] h = refl
trim_left_done (c ∷ s) h = simp h refl

-- A trimmed text is trimmed already.
pub trim_space_again : (s : String) → trim_space (trim_space s) ≡ trim_space s
unfolding trim_space
trim_space_again s =
    ap trim_right (
      trim_left_done (trim_right (trim_left s))
        (trim_right-Starts (trim_left s) (trim_left-Starts s)))
    ∙ trim_right_again (trim_left s)
