-- ===== src/Contractdiff.antt =====
-- internal/contractdiff: the comparison of two manifests (diff.go) and the checks of a manifest that
-- is loaded (manifest.go). Reading a file and decoding JSON are parameters.
pub mod Unchanged
pub mod Scan
pub mod Gate
pub mod Gated
pub mod Extract
pub mod Inside
use Prim.Native.String.{◌++◌}
use rw_node_go.Common.{
  prefixed, ℕ, Bool, true, false, not, ◌||◌, String, List, [], ◌∷◌, is_empty, Dict, lookup, insert,
  sort, text_le, ◌==◌, if◌then◌else◌, Option, none, some, Result, ok, err, ◌>>=◌,
}

pub record FileHash : Type 0 where
  pub path : String
  pub sha256 : String

pub record Manifest : Type 0 where
  pub source : String
  pub tag : String
  pub files : List FileHash

pub record ChangedFile : Type 0 where
  pub changed_path : String
  pub baseline_hash : String
  pub current_hash : String

pub record Diff : Type 0 where
  pub added : List FileHash
  pub deleted : List FileHash
  pub changed : List ChangedFile

-- The map from paths to hashes; a later file replaces an earlier one of the same path.
unfoldable pub files_map : List FileHash → Dict String → Dict String
files_map [] m = m
files_map (file ∷ files) m = files_map files (insert file.path file.sha256 m)

abbrev pub add_if_new : String → String → Option String → List FileHash → List FileHash
add_if_new path hash none rest = record { path = path; sha256 = hash } ∷ rest
add_if_new path hash (some base) rest = rest

abbrev pub change_if_other : String → String → Option String → List ChangedFile → List ChangedFile
change_if_other path hash none rest = rest
change_if_other path hash (some base) rest =
    if not (base == hash)
    then record { changed_path = path; baseline_hash = base; current_hash = hash } ∷ rest
    else rest

unfoldable pub added_files : Dict String → Dict String → List FileHash
added_files base [] = []
added_files base ((path, hash) ∷ current) =
    add_if_new path hash (lookup path base) (added_files base current)

unfoldable pub changed_files : Dict String → Dict String → List ChangedFile
changed_files base [] = []
changed_files base ((path, hash) ∷ current) =
    change_if_other path hash (lookup path base) (changed_files base current)

unfoldable pub compare : Manifest → Manifest → Diff
unfolding files_map added_files changed_files
compare baseline current =
    let base_files = files_map baseline.files [] in
    let current_files = files_map current.files [] in
    record {
      added = sort (λ a b. text_le a.path b.path) (added_files base_files current_files);
      deleted = sort (λ a b. text_le a.path b.path) (added_files current_files base_files);
      changed =
          sort (λ a b. text_le a.changed_path b.changed_path)
            (changed_files base_files current_files);
    }

unfoldable pub has_changes : Diff → Bool
has_changes d = not (is_empty d.added) || not (is_empty d.deleted) || not (is_empty d.changed)

abbrev pub checked : Manifest → Result Manifest
checked manifest =
    if manifest.source == ""
    then err "baseline manifest source is empty"
    else if manifest.tag == ""
    then err "baseline manifest tag is empty"
    else if is_empty manifest.files
    then err "baseline manifest has no files"
    else ok manifest

-- LoadManifest on what ReadFile gives.
unfoldable pub load_manifest : (String → Result Manifest) → Result String → Result Manifest
load_manifest unmarshal file = do
  data_read ← prefixed "read baseline manifest: " file
  manifest ← prefixed "decode baseline manifest: " (unmarshal data_read)
  checked manifest
