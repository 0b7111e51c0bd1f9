-- ===== src/Golang/Paths/Tidy.antt =====
-- The parts of a clean path (path/filepath): no part has a slash, and the parts ".." of a path that is
-- not rooted stand in front.
use Prim.Native.Char.{Char, code}
use text.Mathlib.TextLemmas.{cons-append}
use mathlib.Core.Path.{subst}
use rw_node_go.Common.{
  ◌≡◌, ◌≢◌, refl, sym, ap, ◌∙◌, Bool, true, false, ◌||◌, String, ◌==◌, eq_iff, List, [], ◌∷◌, ◌⊎◌,
  inl, inr, nat_eq, Bool-cases, All, arith, if_all,
}
use rw_node_go.Golang.Strings.{has_prefix}
use rw_node_go.Golang.Paths.{
  split_path, is_rooted, go_up, clean_part, clean_parts, cleaned, join_reversed, path_text, clean,
}
use rw_node_go.Golang.Paths.Slashes.{HasNoSlash, split_path-HasNoSlash, split_path-join_reversed}
use rw_node_go.Golang.Paths.Under.{split_path-cons, not_equal, IsProper, onto}

-- Proper parts last, and the parts ".." before them.
abbrev pub IsTidy : List String → Type 0
IsTidy [] = Unit
IsTidy (part ∷ done) =
    ((part ≡ "..") × All (λ (p : String). p ≡ "..") done) ⊎ (IsProper part × IsTidy done)

go_up-HasNoSlash :
    (rooted : Bool) (done : List String) → All HasNoSlash done → All HasNoSlash (go_up rooted done)
go_up-HasNoSlash true [] h = tt
go_up-HasNoSlash false [] h = (refl, tt)
go_up-HasNoSlash true (part ∷ done) (h, hs) =
    if_all (All HasNoSlash) (part == "..") _ _ (refl, (h, hs)) hs
go_up-HasNoSlash false (part ∷ done) (h, hs) =
    if_all (All HasNoSlash) (part == "..") _ _ (refl, (h, hs)) hs

clean_part-HasNoSlash :
    (rooted : Bool) (done : List String) (part : String)
    → All HasNoSlash done
    → HasNoSlash part
    → All HasNoSlash (clean_part rooted done part)
unfolding clean_part
clean_part-HasNoSlash rooted done part h k =
    if_all (All HasNoSlash) (part == "" || part == ".") _ _ h
      (if_all (All HasNoSlash) (part == "..") _ _ (go_up-HasNoSlash rooted done h) (k, h))

clean_parts-HasNoSlash :
    (rooted : Bool) (done parts : List String)
    → All HasNoSlash done
    → All HasNoSlash parts
    → All HasNoSlash (clean_parts rooted done parts)
unfolding clean_parts
clean_parts-HasNoSlash rooted done [] h k = h
clean_parts-HasNoSlash rooted done (part ∷ parts) h (k, ks) =
    clean_parts-HasNoSlash rooted (clean_part rooted done part) parts
      (clean_part-HasNoSlash rooted done part h k) ks

go_up-IsTidy : (done : List String) → IsTidy done → IsTidy (go_up false done)
go_up-IsTidy [] h = inl (refl, tt)
go_up-IsTidy (part ∷ done) (inl (up, ups)) = rw up (inl (refl, (refl, ups)))
go_up-IsTidy (part ∷ done) (inr ((empty, dot, dots), tidy)) = rw (not_equal part ".." dots) tidy

clean_part-IsTidy :
    (done : List String) (part : String) → IsTidy done → IsTidy (clean_part false done part)
unfolding clean_part
clean_part-IsTidy done part h = elim (Bool-cases (part == "" || part == ".")) [
  | inl e ↦ rw e h
  | inr e ↦ elim (Bool-cases (part == "..")) [
    | inl k ↦ rw e (rw k (go_up-IsTidy done h))
    | inr k ↦ rw e (
        rw k (
          inr (
            (
              ground (arith, eq_iff part ""),
              ground (arith, eq_iff part "."),
              ground (arith, eq_iff part ".."),
            ),
            h,
          )))
  ]
]

clean_parts-IsTidy :
    (done parts : List String) → IsTidy done → IsTidy (clean_parts false done parts)
unfolding clean_parts
clean_parts-IsTidy done [] h = h
clean_parts-IsTidy done (part ∷ parts) h =
    clean_parts-IsTidy (clean_part false done part) parts (clean_part-IsTidy done part h)

ups-onto :
    (done acc : List String) (x : String)
    → All (λ (p : String). p ≡ "..") done
    → x ≡ ".."
    → (rest : List String) × (onto done (x ∷ acc) ≡ ".." ∷ rest)
ups-onto [] acc x h up = (acc, ap (λ p. p ∷ acc) up)
ups-onto (part ∷ done) acc x (h, hs) up = ups-onto done (x ∷ acc) part hs h

-- A tidy path has proper parts only, or ".." as its first part.
tidy-onto :
    (done acc : List String)
    → IsTidy done
    → All IsProper acc
    → All IsProper (onto done acc) ⊎ ((rest : List String) × (onto done acc ≡ ".." ∷ rest))
tidy-onto [] acc h k = inl k
tidy-onto (part ∷ done) acc (inl (up, ups)) k = inr (ups-onto done acc part ups up)
tidy-onto (part ∷ done) acc (inr (proper, tidy)) k = tidy-onto done (part ∷ acc) tidy (proper, k)

split_head :
    (c d : Char) (s p : String) (rest : List String)
    → split_path (String.◌∷◌ c s) ≡ String.◌∷◌ d p ∷ rest
    → (c ≡ d) × (split_path s ≡ p ∷ rest)
unfolding split_path
split_head c d s p rest h = elim (Bool-cases (nat_eq (code c) 47)) [
  | inl e ↦ cc (simp e at h)
  | inr e ↦
      let (part, parts, cut) = split_path-cons s in
      let same : String.◌∷◌ c part ∷ parts ≡ String.◌∷◌ d p ∷ rest = (simp (e, cut) at h) in
      (cc same, cut ∙ cc same)
]

slash_first :
    (e : Char) (s : String) (rest : List String)
    → split_path (String.◌∷◌ e s) ≡ "" ∷ rest
    → nat_eq (code e) 47 ≡ true
unfolding split_path
slash_first e s rest h = elim (Bool-cases (nat_eq (code e) 47)) [
  | inl k ↦ k
  | inr k ↦
      let (part, parts, cut) = split_path-cons s in
      let absurd : String.◌∷◌ e part ∷ parts ≡ "" ∷ rest = (simp (k, cut) at h) in cc absurd
]

cleaned-HasNoSlash : (path : String) → All HasNoSlash (cleaned path)
unfolding cleaned
cleaned-HasNoSlash path =
    clean_parts-HasNoSlash (is_rooted path) [] (split_path path) tt (split_path-HasNoSlash path)

-- What begins with the part ".." is that part, or goes on with a slash.
first_up :
    (s : String) (rest : List String)
    → split_path s ≡ ".." ∷ rest
    → (s ≡ "..") ⊎ (has_prefix s "../" ≡ true)
unfolding split_path has_prefix
first_up String.[] rest h = cc
first_up (String.◌∷◌ c String.[]) rest h =
    let (a, k) = split_head c "." "" "." rest h in
    let absurd : "" ∷ [] ≡ "." ∷ rest = k in cc absurd
first_up (String.◌∷◌ c (String.◌∷◌ d String.[])) rest h =
    let (a, k) = split_head c "." (String.◌∷◌ d "") "." rest h in
    let (b, l) = split_head d "." "" "" rest k in inl (λ i. String.◌∷◌ (a i) (String.◌∷◌ (b i) ""))
first_up (String.◌∷◌ c (String.◌∷◌ d (String.◌∷◌ e s))) rest h =
    let (a, k) = split_head c "." (String.◌∷◌ d (String.◌∷◌ e s)) "." rest h in
    let (b, l) = split_head d "." (String.◌∷◌ e s) "" rest k in
    inr (simp (a, b, slash_first e s rest l) refl)

rooted_slash : (done : List String) → is_rooted (path_text true done) ≡ true
unfolding is_rooted
rooted_slash done = rw (cons-append "/" "" (join_reversed done)) refl

-- The parts of a clean path that is not rooted, in order.
split_path-clean :
    (name part : String) (done : List String)
    → is_rooted name ≡ false
    → cleaned name ≡ part ∷ done
    → split_path (clean name) ≡ onto (part ∷ done) []
unfolding clean
split_path-clean name part done relative parts =
    let free = subst (All HasNoSlash) parts (cleaned-HasNoSlash name) in
    ap split_path ((λ i. path_text (relative i) (parts i)))
    ∙ split_path-join_reversed part done free

rooted_clean : (name : String) → is_rooted name ≡ true → is_rooted (clean name) ≡ true
unfolding clean
rooted_clean name e =
    ap (λ r. is_rooted (path_text r (cleaned name))) e ∙ rooted_slash (cleaned name)

cleaned-IsTidy : (name : String) → is_rooted name ≡ false → IsTidy (cleaned name)
unfolding cleaned
cleaned-IsTidy name e =
    subst (λ r. IsTidy (clean_parts r [] (split_path name))) (sym e)
      (clean_parts-IsTidy [] (split_path name) tt)

clean-nil : (name : String) → is_rooted name ≡ false → cleaned name ≡ [] → clean name ≡ "."
unfolding clean
clean-nil name e parts = λ i. path_text (e i) (parts i)

relative_parts :
    (name : String) (done : List String)
    → is_rooted name ≡ false
    → cleaned name ≡ done
    → clean name ≢ "."
    → clean name ≢ ".."
    → has_prefix (clean name) "../" ≡ false
    → All IsProper (split_path (clean name))
relative_parts name [] e parts dot dots prefix = elim (dot (clean-nil name e parts)) [ ]
relative_parts name (part ∷ done) e parts dot dots prefix =
    let cut = split_path-clean name part done e parts in
    let tidy = subst IsTidy parts (cleaned-IsTidy name e) in
    elim (tidy-onto (part ∷ done) [] tidy tt) [
      | inl all ↦ subst (All IsProper) (sym cut) all
      | inr (rest, up) ↦ elim (first_up (clean name) rest (cut ∙ up)) [
        | inl same ↦ elim (dots same) [ ]
        | inr begins ↦ (let absurd : true ≡ false = sym begins ∙ prefix in cc absurd)
      ]
    ]

-- The parts of a clean path are proper, where it is not ".", not ".." and begins neither with "../" nor
-- with a slash.
pub clean-IsProper :
    (name : String)
    → is_rooted (clean name) ≡ false
    → clean name ≢ "."
    → clean name ≢ ".."
    → has_prefix (clean name) "../" ≡ false
    → All IsProper (split_path (clean name))
clean-IsProper name relative dot dots prefix = elim (Bool-cases (is_rooted name)) [
  | inl e ↦
      let rooted = rooted_clean name e in
      let absurd : true ≡ false = sym rooted ∙ relative in cc absurd
  | inr e ↦ relative_parts name (cleaned name) e refl dot dots prefix
]
