-- ===== src/Contractdiff/Unchanged.antt =====
-- When the comparison of internal/contractdiff/diff.go reports no changes.
use rw_node_go.Common.{
  Bool, true, false, not, ◌||◌, ◌&&◌, ◌≡◌, refl, ◌≢◌, ◌↔◌, String, List, [], ◌∷◌, All, is_empty,
  Dict, lookup, insert, lookup-insert, sort, text_le, ◌==◌, eq_iff, eq_refl, Option, none, some,
  arith, Bool-cases, Option-cases, inl, inr, sym, ap, ◌∙◌, insert_sorted,
}
use rw_node_go.Contractdiff.{
  Manifest, FileHash, ChangedFile, files_map, add_if_new, change_if_other, added_files,
  changed_files, compare, has_changes,
}

is_empty-insert_sorted {ℓ} :
    {A : Type ℓ} (le : A → A → Bool) (x : A) (xs : List A)
    → is_empty (insert_sorted le x xs) ≡ false
unfolding insert_sorted
is_empty-insert_sorted le x [] = refl
is_empty-insert_sorted le x (y ∷ ys) = elim (Bool-cases (le x y)) [
  | inl e ↦ simp e refl
  | inr e ↦ simp e refl
]

is_empty-sort {ℓ} :
    {A : Type ℓ} (le : A → A → Bool) (xs : List A) → is_empty (sort le xs) ≡ is_empty xs
unfolding sort
is_empty-sort le [] = refl
is_empty-sort le (x ∷ xs) = is_empty-insert_sorted le x (sort le xs)

-- A path stands once in a map.
abbrev IsUnique : Dict String → Type 0
IsUnique [] = Unit
IsUnique (e ∷ m) = (lookup e.0 m ≡ none) × IsUnique m

insert-IsUnique : (k v : String) (m : Dict String) → IsUnique m → IsUnique (insert k v m)
unfolding insert lookup
insert-IsUnique k v [] h = (refl, tt)
insert-IsUnique k v ((j, w) ∷ m) h = elim (Bool-cases (j == k)) [
  | inl e ↦ rw e (rw (← (eq_iff j k).0 e) h)
  | inr e ↦ rw e (
    lookup-insert k j v m ∙ ground (arith, eq_iff j k, eq_iff k j, h.0),
    insert-IsUnique k v m h.1,
  )
]

files_map-IsUnique :
    (files : List FileHash) (m : Dict String) → IsUnique m → IsUnique (files_map files m)
unfolding files_map
files_map-IsUnique [] m h = h
files_map-IsUnique (file ∷ files) m h =
    files_map-IsUnique files (insert file.path file.sha256 m)
      (insert-IsUnique file.path file.sha256 m h)

-- Every entry of the second map is one of the first.
abbrev Within : Dict String → Dict String → Type 0
Within m = All (λ e. lookup e.0 m ≡ some e.1)

Within-cons :
    (k v : String) (m es : Dict String) → lookup k m ≡ none → Within m es → Within ((k, v) ∷ m) es
unfolding lookup
Within-cons k v m [] h w = tt
Within-cons k v m (e ∷ es) h w = (ground (arith, eq_iff k e.0, h, w.0), Within-cons k v m es h w.1)

Within-refl : (m : Dict String) → IsUnique m → Within m m
unfolding lookup
Within-refl [] h = tt
Within-refl ((k, v) ∷ m) h =
    (ground (arith, eq_refl k), Within-cons k v m m h.0 (Within-refl m h.1))

Within-lookup :
    (m es : Dict String) (k v : String) → Within m es → lookup k es ≡ some v → lookup k m ≡ some v
unfolding lookup
Within-lookup m [] k v w h = cc
Within-lookup m (e ∷ es) k v w h = ground (arith, eq_iff e.0 k, w.0, Within-lookup m es k v w.1)

false_and : (b : Bool) → (b && false) ≡ true → ⊥
false_and true h = cc h
false_and false h = cc h

-- One entry that is neither new nor changed.
entry_iff :
    (k v : String) (found : Option String) (more : List FileHash) (others : List ChangedFile)
    → ((is_empty (add_if_new k v found more) && is_empty (change_if_other k v found others)) ≡ true)
      ↔ ((found ≡ some v) × ((is_empty more && is_empty others) ≡ true))
entry_iff k v none more others = (λ h. cc, λ h. cc (h.0))
entry_iff k v (some b) more others = elim (Bool-cases (b == v)) [
  | inl e ↦ simp e (λ h. (ap some ((eq_iff b v).0 e), h), λ h. h.1)
  | inr e ↦
      simp e (λ h. elim (false_and (is_empty more) h) [ ], λ h. ground (arith, eq_iff b v, e, h.0))
]

-- Nothing added and nothing changed, on the entries of the current map.
unchanged_iff :
    (base es : Dict String)
    → ((is_empty (added_files base es) && is_empty (changed_files base es)) ≡ true) ↔ Within base es
unfolding added_files changed_files
unchanged_iff base [] = (λ h. tt, λ h. refl)
unchanged_iff base ((k, v) ∷ es) =
    let entry = entry_iff k v (lookup k base) (added_files base es) (changed_files base es) in
    let rest = unchanged_iff base es in
    (λ h. ((entry.0 h).0, rest.0 (entry.0 h).1), λ h. entry.1 (h.0, rest.1 h.1))

add_if_new-none :
    (k v : String) (found : Option String) (more : List FileHash)
    → (is_empty (add_if_new k v found more) ≡ true) ↔ ((found ≢ none) × (is_empty more ≡ true))
add_if_new-none k v none more = (λ h. cc, λ h. elim (h.0 refl) [ ])
add_if_new-none k v (some b) more = (λ h. ((λ e. cc e), h), λ h. h.1)

-- Nothing of the base is missing.
abbrev Covers : Dict String → Dict String → Type 0
Covers m = All (λ e. lookup e.0 m ≢ none)

kept_iff : (m es : Dict String) → (is_empty (added_files m es) ≡ true) ↔ Covers m es
unfolding added_files
kept_iff m [] = (λ h. tt, λ h. refl)
kept_iff m ((k, v) ∷ es) =
    let rest = kept_iff m es in
    let entry = add_if_new-none k v (lookup k m) (added_files m es) in
    (λ h. ((entry.0 h).0, rest.0 (entry.0 h).1), λ h. entry.1 (h.0, rest.1 h.1))

Covers-lookup :
    (m es : Dict String) (k : String) → Covers m es → lookup k m ≡ none → lookup k es ≡ none
unfolding lookup
Covers-lookup m [] k c h = refl
Covers-lookup m (e ∷ es) k c h = elim (Bool-cases (e.0 == k)) [
  | inl g ↦ elim (c.0 (ap (λ j. lookup j m) ((eq_iff e.0 k).0 g) ∙ h)) [ ]
  | inr g ↦ simp g (Covers-lookup m es k c.1 h)
]

Within-map :
    (m n es : Dict String) → ((k : String) → lookup k m ≡ lookup k n) → Within n es → Within m es
Within-map m n [] same w = tt
Within-map m n (e ∷ es) same w = (same e.0 ∙ w.0, Within-map m n es same w.1)

Within-Covers : (m es : Dict String) → Within m es → Covers m es
Within-Covers m [] w = tt
Within-Covers m (e ∷ es) w = (λ h. cc (w.0, h), Within-Covers m es w.1)

Covers-refl :
    (n m : Dict String) → IsUnique m → ((k : String) → lookup k m ≡ lookup k n) → Covers n m
Covers-refl n m u same = Within-Covers n m (Within-map n m m (λ k. sym (same k)) (Within-refl m u))

same_lookup :
    (base now : Dict String) (path : String)
    → Within base now
    → Covers now base
    → lookup path base ≡ lookup path now
same_lookup base now path within covers = elim (Option-cases (lookup path now)) [
  | inl e ↦ Covers-lookup now base path covers e ∙ sym e
  | inr (v, e) ↦ Within-lookup base now path v within e ∙ sym e
]

Within-equal :
    (m n : Dict String) → IsUnique n → ((k : String) → lookup k m ≡ lookup k n) → Within m n
Within-equal m n u same = Within-map m n n same (Within-refl n u)

-- Two maps have the same hash, or none, for every path.
abbrev pub SameFiles : Manifest → Manifest → Type 0
SameFiles baseline current =
    (path : String)
    → lookup path (files_map baseline.files []) ≡ lookup path (files_map current.files [])

has_changes-compare :
    (baseline current : Manifest)
    → has_changes (compare baseline current) ≡ (
        not (is_empty (added_files (files_map baseline.files []) (files_map current.files [])))
        || not (is_empty (added_files (files_map current.files []) (files_map baseline.files [])))
        || not
            (is_empty (changed_files (files_map baseline.files []) (files_map current.files []))))
unfolding has_changes compare
has_changes-compare baseline current =
    let base = files_map baseline.files [] in
    let now = files_map current.files [] in
    simp
      (
        is_empty-sort (λ a b. text_le a.path b.path) (added_files base now),
        is_empty-sort (λ a b. text_le a.path b.path) (added_files now base),
        is_empty-sort (λ a b. text_le a.changed_path b.changed_path) (changed_files base now),
      )
      refl

-- The comparison reports no change exactly if both manifests give every path the same hash, or
-- none; the order of the files and files that are listed twice do not matter, the last one counts.
pub compare_iff :
    (baseline current : Manifest)
    → (has_changes (compare baseline current) ≡ false) ↔ SameFiles baseline current
compare_iff baseline current =
    let base = files_map baseline.files [] in
    let now = files_map current.files [] in
    let kept = kept_iff now base in
    let unchanged = unchanged_iff base now in
    (
      λ h path.
          let reported = sym (has_changes-compare baseline current) ∙ h in
          same_lookup base now path (unchanged.0 (ground (arith, reported)))
            (kept.0 (ground (arith, reported))),
      λ same.
          let within =
            unchanged.1 (Within-equal base now (files_map-IsUnique current.files [] tt) same) in
          let covers =
            kept.1 (Covers-refl now base (files_map-IsUnique baseline.files [] tt) same) in
          has_changes-compare baseline current ∙ ground (arith, within, covers),
    )
