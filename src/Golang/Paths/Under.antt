-- ===== src/Golang/Paths/Under.antt =====
-- A path that is joined to a directory lies under it (path/filepath).
use Prim.Native.Char.{Char, code}
use Prim.Native.String
use text.Mathlib.TextLemmas.{nil-append, cons-append}
use rw_node_go.Common.{
  ◌≡◌, ◌≢◌, refl, ap, ◌∙◌, Bool, false, String, ◌==◌, eq_iff, List, [], ◌∷◌, ◌++◌, nat_eq,
  Bool-cases, inl, inr, All, arith,
}
use rw_node_go.Golang.Strings.{with_first}
use rw_node_go.Golang.Paths.{
  split_path, is_rooted, clean_part, clean_parts, cleaned, path_text, clean, join_path,
}

-- A part that cleaning keeps.
abbrev pub IsProper : String → Type 0
IsProper part = (part ≢ "") × (part ≢ ".") × (part ≢ "..")

-- The parts from last to first, before those that are there.
abbrev pub onto : List String → List String → List String
onto [] done = done
onto (part ∷ parts) done = onto parts (part ∷ done)

clean_part-IsProper :
    (rooted : Bool) (done : List String) (part : String)
    → IsProper part
    → clean_part rooted done part ≡ part ∷ done
unfolding clean_part
clean_part-IsProper rooted done part h =
    ground (arith, eq_iff part "", eq_iff part ".", eq_iff part "..")

pub clean_parts_proper :
    (rooted : Bool) (done parts : List String)
    → All IsProper parts
    → clean_parts rooted done parts ≡ onto parts done
unfolding clean_parts
clean_parts_proper rooted done [] h = refl
clean_parts_proper rooted done (part ∷ parts) (h, hs) =
    rw (clean_part-IsProper rooted done part h) (clean_parts_proper rooted (part ∷ done) parts hs)

clean_parts-append :
    (rooted : Bool) (done xs ys : List String)
    → clean_parts rooted done (xs ++ ys) ≡ clean_parts rooted (clean_parts rooted done xs) ys
unfolding clean_parts
clean_parts-append rooted done [] ys = refl
clean_parts-append rooted done (x ∷ xs) ys =
    clean_parts-append rooted (clean_part rooted done x) xs ys

pub split_path-cons :
    (s : String) → (part : String) × (parts : List String) × (split_path s ≡ part ∷ parts)
unfolding split_path
split_path-cons String.[] = ("", [], refl)
split_path-cons (String.◌∷◌ c s) =
    let (part, parts, h) = split_path-cons s in
    elim (Bool-cases (nat_eq (code c) 47)) [
      | inl e ↦ ("", split_path s, simp e refl)
      | inr e ↦ (String.◌∷◌ c part, parts, simp (e, h) refl)
    ]

with_first-append :
    (c : Char) (xs ys : List String) (part : String) (parts : List String)
    → xs ≡ part ∷ parts
    → with_first c (xs ++ ys) ≡ with_first c xs ++ ys
with_first-append c xs ys part parts h = rw h refl

-- What is cut at a slash is cut on either side.
pub split_path-append :
    (dir name : String)
    → split_path (String.◌++◌ dir (String.◌++◌ "/" name)) ≡ split_path dir ++ split_path name
unfolding split_path
split_path-append String.[] name = ap split_path (
    nil-append (String.◌++◌ "/" name)
    ∙ cons-append "/" "" name
    ∙ ap (String.◌∷◌ "/") (nil-append name))
split_path-append (String.◌∷◌ c s) name =
    let (part, parts, h) = split_path-cons s in
    let rest = String.◌++◌ "/" name in
    let ih = split_path-append s name in
    elim (Bool-cases (nat_eq (code c) 47)) [
      | inl e ↦ rw (cons-append c s rest) (simp (e, ih) refl)
      | inr e ↦
          rw (cons-append c s rest)
            (simp (e, ih) (with_first-append c (split_path s) (split_path name) part parts h))
    ]

pub is_rooted-append :
    (dir rest : String) → dir ≢ "" → is_rooted (String.◌++◌ dir rest) ≡ is_rooted dir
unfolding is_rooted
is_rooted-append String.[] rest h = elim (h refl) [ ]
is_rooted-append (String.◌∷◌ c s) rest h = rw (cons-append c s rest) refl

pub not_equal : (s t : String) → s ≢ t → (s == t) ≡ false
not_equal s t h = ground (arith, eq_iff s t)

-- A name whose parts are proper, joined to a directory, is the directory's clean path with these parts
-- after it, so it lies inside the directory.
pub join_path_under :
    (dir name : String)
    → dir ≢ ""
    → All IsProper (split_path name)
    → join_path dir name ≡ path_text (is_rooted dir) (onto (split_path name) (cleaned dir))
unfolding join_path clean cleaned
join_path_under dir name full proper =
    let rooted = is_rooted-append dir (String.◌++◌ "/" name) full in
    let parts =
      ap (clean_parts (is_rooted dir) []) (split_path-append dir name)
      ∙ clean_parts-append (is_rooted dir) [] (split_path dir) (split_path name)
      ∙ clean_parts_proper (is_rooted dir) (cleaned dir) (split_path name) proper in
    rw (not_equal dir "" full) (rw rooted (ap (path_text (is_rooted dir)) parts))
