-- ===== src/Contractdiff/Inside.antt =====
-- Where the files of a tarball are written (extractTarGzip of cmd/contract-diff/main.go).
use rw_node_go.Common.{
  ◌∙◌, ℕ, ◌≡◌, ◌≢◌, ap, false, Option, none, some, String, ◌==◌, eq_iff, List, [], ◌∷◌, ◌⊎◌, inl,
  inr, Bool-cases, All, arith,
}
use rw_node_go.Golang.Strings.{has_prefix}
use rw_node_go.Golang.Paths.{clean, cleaned, is_rooted, join_path, path_text, split_path}
use rw_node_go.Golang.Paths.Under.{IsProper, onto, join_path_under, split_path-cons}
use rw_node_go.Golang.Paths.Slashes.{HasNoSlash, split_path-HasNoSlash}
use mathlib.Core.Path.{subst}
use rw_node_go.Golang.Paths.Tidy.{clean-IsProper}
use rw_node_go.Contractdiff.Extract.{
  Header, Kind, folder, file, other, Written, is_unsafe, after_made, extracted, extract,
}

-- The path goes on from the directory, by at least one part, each of which is a name: it has no slash
-- and is not empty, "." or "..".
abbrev pub IsInside : String → String → Type 0
IsInside dest target =
    (part : String) × (parts : List String) × All IsProper (part ∷ parts)
    × All HasNoSlash (part ∷ parts)
    × (target ≡ path_text (is_rooted dest) (onto (part ∷ parts) (cleaned dest)))

split_path-IsInside :
    (dest name : String)
    → dest ≢ ""
    → All IsProper (split_path name)
    → IsInside dest (join_path dest name)
split_path-IsInside dest name full proper =
    let (part, parts, cut) = split_path-cons name in
    (
      part,
      parts,
      subst (All IsProper) cut proper,
      subst (All HasNoSlash) cut (split_path-HasNoSlash name),
      join_path_under dest name full proper
          ∙ ap (λ ps. path_text (is_rooted dest) (onto ps (cleaned dest))) cut,
    )

-- Inside the directory, or the directory above it.
abbrev pub IsNear : String → String → Type 0
IsNear dest target = IsInside dest target ⊎ (target ≡ join_path dest "..")

join_path-IsNear :
    (dest name : String)
    → dest ≢ ""
    → is_unsafe (clean name) ≡ false
    → IsNear dest (join_path dest (clean name))
unfolding is_unsafe
join_path-IsNear dest name full safe = elim (Bool-cases (clean name == "..")) [
  | inl e ↦ inr (ap (join_path dest) ((eq_iff (clean name) "..").0 e))
  | inr e ↦
      let relative : is_rooted (clean name) ≡ false = ground arith in
      let prefix : has_prefix (clean name) "../" ≡ false = ground arith in
      let proper =
        clean-IsProper name relative (ground (arith, eq_iff (clean name) "."))
          (ground (arith, eq_iff (clean name) "..")) prefix in
      inl (split_path-IsInside dest (clean name) full proper)
]

module _ (quote : String → String) (made : Written → Option String) (dest : String) where
  -- All that is written is near the directory.
  abbrev pub AllNear : List Written × Option String → Type 0
  AllNear r = All (λ (w : Written). IsNear dest w.target) r.0

  after_made-AllNear :
      (w : Written) (e : Option String) (rest : List Written × Option String)
      → IsNear dest w.target
      → AllNear rest
      → AllNear (after_made quote made dest w e rest)
  after_made-AllNear w (some e) (ws, f) h k = (h, tt)
  after_made-AllNear w none (ws, f) h k = (h, k)

  extracted-AllNear :
      (kind : Kind) (mode : ℕ) (target : String) (rest : List Written × Option String)
      → IsNear dest target
      → AllNear rest
      → AllNear (extracted quote made dest kind mode target rest)
  extracted-AllNear folder mode target rest h k = after_made-AllNear _ (made _) rest h k
  extracted-AllNear file mode target rest h k = after_made-AllNear _ (made _) rest h k
  extracted-AllNear other mode target rest h k = k

  -- Whatever the entries of a tarball are named, if the name of the directory of the extraction is not
  -- empty, everything that is written for them goes on from that directory by at least one part, each
  -- without a slash and not empty, "." or "..", or it is the directory joined with "..", the one above
  -- (a name of ".." passes the guard).
  pub extract-AllNear :
      (headers : List Header) (ended : Option String)
      → dest ≢ ""
      → AllNear (extract quote made dest headers ended)
  unfolding extract
  extract-AllNear [] ended full = tt
  extract-AllNear (header ∷ headers) ended full =
      elim (Bool-cases (is_unsafe (clean header.name))) [
        | inl e ↦ rw e tt
        | inr e ↦ rw e (
            extracted-AllNear header.kind header.mode (join_path dest (clean header.name)) _
              (join_path-IsNear dest header.name full e) (extract-AllNear headers ended full))
      ]
