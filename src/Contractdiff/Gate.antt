-- ===== src/Contractdiff/Gate.antt =====
-- cmd/contract-diff/main.go: the command that compares the official contract with its baseline. The
-- flags are parsed already, the variables are read, and the download gives a directory or an error; a
-- tarball's extraction is in Contractdiff.Extract. The text of the report is left out.
use Prim.Native.String.{◌++◌}
use rw_node_go.Common.{Bool, not, Option, none, some, String, ◌==◌, Result, ok, err, if◌then◌else◌}
use rw_node_go.Golang.Strings.{has_prefix}
use rw_node_go.Panel.Redact.{drop_characters}
use rw_node_go.Contractdiff.{Manifest, compare, has_changes}

-- The flags of the command.
pub record Flags : Type 0 where
  pub tag : String
  pub baseline_path : String
  pub repo : String
  pub source_dir : String
  pub write_baseline : Bool

abbrev pub drift : String
drift =
    "official contract changed; update Go contracts, routes, golden fixtures, and baseline after review"

unfoldable pub getenv_default : (String → String) → String → String → String
getenv_default getenv name fallback =
    let value = getenv name in if not (value == "") then value else fallback

-- strings.TrimPrefix of "github.com/"
unfoldable pub repo_name : String → String
unfolding has_prefix drop_characters
repo_name repo = if has_prefix repo "github.com/" then drop_characters 11 repo else repo

-- What becomes of a run: what is saved, if anything, and the error.
pub record Outcome : Type 0 where
  pub saved : Option Manifest
  pub failure : Option String

abbrev pub failed : String → Outcome
failed e = record { saved = none; failure = some e }

module _ (load : String → Result Manifest) (download : String → String → Result String)
    (scan : String → String → String → Result Manifest)
    (save : String → Manifest → Option String) where
  abbrev pub or_tag : String → String → String
  or_tag tag fallback = if tag == "" then fallback else tag

  abbrev pub compared : Manifest → Manifest → Outcome
  compared baseline current = record {
    saved = none;
    failure = if not (has_changes (compare baseline current)) then none else some drift;
  }

  abbrev pub finished : Flags → Option Manifest → Result Manifest → Outcome
  finished flags baseline (err e) = failed e
  finished flags none (ok current) = record {
    saved = some current;
    failure = save flags.baseline_path current;
  }
  finished flags (some baseline) (ok current) = compared baseline current

  abbrev pub scanned : Flags → Option Manifest → String → Result String → Outcome
  scanned flags baseline tag (err e) = failed e
  scanned flags baseline tag (ok root) =
      finished flags baseline (scan root ("github.com/" ++ repo_name flags.repo) tag)

  -- The directory that is scanned for a tag.
  abbrev pub root_of : Flags → String → Result String
  root_of flags tag =
      if not (flags.source_dir == "") then ok flags.source_dir else download tag flags.repo

  abbrev pub with_tag : Flags → Option Manifest → String → Outcome
  with_tag flags baseline tag =
      scanned flags baseline (or_tag tag "dev") (root_of flags (or_tag tag "dev"))

  abbrev pub with_baseline : Flags → Result Manifest → Outcome
  with_baseline flags (err e) = failed e
  with_baseline flags (ok baseline) = with_tag flags (some baseline) (or_tag flags.tag baseline.tag)

  unfoldable pub run : Flags → Outcome
  unfolding repo_name compare has_changes
  run flags =
      if flags.baseline_path == ""
      then failed "-baseline must not be empty"
      else if flags.repo == ""
      then failed "-repo must not be empty"
      else if not flags.write_baseline
      then with_baseline flags (load flags.baseline_path)
      else with_tag flags none flags.tag
