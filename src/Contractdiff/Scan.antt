-- ===== src/Contractdiff/Scan.antt =====
-- ScanRepository of internal/contractdiff/manifest.go. The file system is a parameter: what os.Stat
-- says of a directory and what filepath.WalkDir visits in it, in its order; a visited file comes with
-- its hash and its path below the root, or the error of either. The time of the scan is left out.
use Prim.Native.Char.{Char, code}
use Prim.Native.String.{◌++◌}
use rw_node_go.Common.{
  Bool, false, not, String, ◌==◌, List, nat_eq, Result, ok, err, ◌>>=◌, prefixed, if◌then◌else◌,
  sort, text_le,
}
use rw_node_go.Golang.Paths.{split_path, join_path}
use rw_node_go.Http.Tokens.{equal_fold}
use rw_node_go.Contractdiff.{FileHash, Manifest}

abbrev pub default_source : String
default_source = "github.com/remnawave/node"

abbrev pub scan_dirs : List String
scan_dirs = List.◌∷◌ "libs/contract/api" (
    List.◌∷◌ "libs/contract/commands" (
      List.◌∷◌ "libs/contract/constants/errors"
        (List.◌∷◌ "libs/contract/constants/xray" (List.◌∷◌ "libs/contract/models" List.[]))))

-- What os.Stat finds.
pub data Stat : Type 0 where
  missing : Stat
  unreadable : String → Stat
  plain_file : Stat
  directory : Stat

pub data Visit : Type 0 where
  walk_error : String → Visit
  visit_dir : Visit
  visit_file : String → Result String → Result String → Visit

-- filepath.Base of the path of a file, which does not end in a slash
abbrev pub last_part : List String → String
last_part List.[] = "."
last_part (List.◌∷◌ part List.[]) = part
last_part (List.◌∷◌ part (List.◌∷◌ next parts)) = last_part (List.◌∷◌ next parts)

-- filepath.Ext of a name: from its last dot on
unfoldable pub ext : String → String
ext String.[] = String.[]
ext (String.◌∷◌ c s) =
    let rest = ext s in
    if not (rest == "") then rest else if nat_eq (code c) 46 then String.◌∷◌ c s else String.[]

module _ (fold : Char → Char) where
  unfoldable pub is_contract_file : String → Bool
  unfolding split_path ext equal_fold
  is_contract_file path =
      let name = last_part (split_path path) in
      if name == "index.ts" then false else equal_fold fold (ext name) ".ts"

  -- The hash and the path of a file, then the files after it.
  abbrev pub hashed :
      Result String → Result String → Result (List FileHash) → Result (List FileHash)
  hashed (err e) rel rest = err e
  hashed (ok hash) (err e) rest = err e
  hashed (ok hash) (ok rel) (err e) = err e
  hashed (ok hash) (ok rel) (ok rest) = ok (List.◌∷◌ (record { path = rel; sha256 = hash }) rest)

  -- The files of a walk up to an error.
  unfoldable pub walk_files : List Visit → Result (List FileHash)
  unfolding is_contract_file
  walk_files List.[] = ok List.[]
  walk_files (List.◌∷◌ (walk_error e) visits) = err e
  walk_files (List.◌∷◌ visit_dir visits) = walk_files visits
  walk_files (List.◌∷◌ (visit_file path hash rel) visits) =
      let rest = walk_files visits in
      let here = hashed hash rel rest in if is_contract_file path then here else rest

  module _ (stat : String → Stat) (walk : String → List Visit) (quote : String → String) where
    abbrev pub scan_dir : String → Stat → List Visit → Result (List FileHash)
    scan_dir dir missing visits = err (
        "official contract scan path "
        ++ quote dir
        ++ " is missing; inspect upstream contract structure manually")
    scan_dir dir (unreadable e) visits = err ("stat contract scan path " ++ quote dir ++ ": " ++ e)
    scan_dir dir plain_file visits = err (
        "official contract scan path "
        ++ quote dir
        ++ " is not a directory; inspect upstream contract structure manually")
    scan_dir dir directory visits =
        prefixed ("scan contract path " ++ quote dir ++ ": ") (walk_files visits)

    abbrev pub after_files : List FileHash → Result (List FileHash) → Result (List FileHash)
    after_files files (err e) = err e
    after_files List.[] (ok rest) = ok rest
    after_files (List.◌∷◌ file files) (ok rest) =
        after_files files (ok rest) >>= λ more. ok (List.◌∷◌ file more)

    unfoldable pub scan_each : String → List String → Result (List FileHash)
    unfolding walk_files join_path
    scan_each root List.[] = ok List.[]
    scan_each root (List.◌∷◌ dir dirs) =
        let path = join_path root dir in
        scan_dir dir (stat path) (walk path) >>= λ files. after_files files (scan_each root dirs)

    unfoldable pub scan_repository : String → String → String → Result Manifest
    unfolding scan_each
    scan_repository root source tag = scan_each root scan_dirs >>= λ files. ok (record {
      source = if source == "" then default_source else source;
      tag = tag;
      files = sort (λ a b. text_le a.path b.path) files;
    })
