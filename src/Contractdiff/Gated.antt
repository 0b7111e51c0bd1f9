-- ===== src/Contractdiff/Gated.antt =====
-- When the command of cmd/contract-diff/main.go lets a release pass.
use rw_node_go.Common.{
  ◌≡◌, ◌≢◌, refl, ap, ◌∙◌, Bool, true, false, not, Option, none, some, String, Result, ok, ◌↔◌,
  if◌then◌else◌,
}
use Prim.Native.String
use rw_node_go.Golang.Paths.Under.{not_equal}
use rw_node_go.Contractdiff.{Manifest, compare, has_changes}
use rw_node_go.Contractdiff.Unchanged.{SameFiles, compare_iff}
use rw_node_go.Contractdiff.Gate.{
  Flags, drift, repo_name, compared, finished, scanned, root_of, with_baseline, or_tag, run,
}

unchanged : (b : Bool) → (if not b then none else some drift) ≡ none → b ≡ false
unchanged false h = refl
unchanged true h = cc

module _ (load : String → Result Manifest) (download : String → String → Result String)
    (scan : String → String → String → Result Manifest)
    (save : String → Manifest → Option String) where
  -- The tag that is checked: that of the flags, else that of the baseline, else "dev".
  abbrev pub tag_for : Flags → Manifest → String
  tag_for flags baseline =
      or_tag load download scan save (or_tag load download scan save flags.tag baseline.tag) "dev"

  compared_iff :
      (baseline current : Manifest)
      → ((compared load download scan save baseline current).failure ≡ none)
        ↔ SameFiles baseline current
  compared_iff baseline current =
      let (there, back) = compare_iff baseline current in
      (
        λ h. there (unchanged (has_changes (compare baseline current)) h),
        λ same. rw (back same) refl,
      )

  compares :
      (flags : Flags) (baseline current : Manifest) (root : String)
      → flags.baseline_path ≢ ""
      → flags.repo ≢ ""
      → flags.write_baseline ≡ false
      → load flags.baseline_path ≡ ok baseline
      → root_of load download scan save flags (tag_for flags baseline) ≡ ok root
      → scan root (String.◌++◌ "github.com/" (repo_name flags.repo)) (tag_for flags baseline)
        ≡ ok current
      → run load download scan save flags ≡ compared load download scan save baseline current
  unfolding run
  compares flags baseline current root path repo reads loaded rooted scans =
      let same = λ (t : String) (s : String) (h : s ≢ t). not_equal s t h in
      rw (same "" flags.baseline_path path) (
        rw (same "" flags.repo repo) (
          rw reads (
            ap (with_baseline load download scan save flags) loaded
            ∙ ap (scanned load download scan save flags (some baseline) (tag_for flags baseline))
                rooted
            ∙ ap (finished load download scan save flags (some baseline)) scans)))

  -- Where it compares, with a path of the baseline and a repository given, a baseline that loads, a
  -- directory to scan and a scan that succeeds, the command ends without an error exactly when the
  -- scanned files have the paths and hashes of the baseline. The directory is the one of the flags or
  -- the download for the tag of the flags, else of the baseline, else "dev".
  pub gate_iff :
      (flags : Flags) (baseline current : Manifest) (root : String)
      → flags.baseline_path ≢ ""
      → flags.repo ≢ ""
      → flags.write_baseline ≡ false
      → load flags.baseline_path ≡ ok baseline
      → root_of load download scan save flags (tag_for flags baseline) ≡ ok root
      → scan root (String.◌++◌ "github.com/" (repo_name flags.repo)) (tag_for flags baseline)
        ≡ ok current
      → ((run load download scan save flags).failure ≡ none) ↔ SameFiles baseline current
  gate_iff flags baseline current root path repo reads loaded rooted scans =
      rw (compares flags baseline current root path repo reads loaded rooted scans)
        (compared_iff baseline current)
