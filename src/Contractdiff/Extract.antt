-- ===== src/Contractdiff/Extract.antt =====
-- cmd/contract-diff/main.go: the extraction of a tarball. The entries come from the readers of gzip and
-- tar, up to their error; the file system is the parameter `made`, the error of the calls for an entry.
use Prim.Native.Nat.{◌%◌}
use Prim.Native.String.{◌++◌}
use rw_node_go.Common.{
  ℕ, Bool, not, ◌||◌, Option, none, some, String, ◌==◌, List, Result, ok, err, nat_eq,
  if◌then◌else◌,
}
use rw_node_go.Golang.Strings.{has_prefix}
use rw_node_go.Golang.Paths.{clean, is_rooted, join_path}

pub data Kind : Type 0 where
  folder : Kind
  file : Kind
  other : Kind

pub record Header : Type 0 where
  pub name : String
  pub kind : Kind
  pub mode : ℕ

-- What is written: a folder, or a file with its permissions.
pub record Written : Type 0 where
  pub target : String
  pub kind : Kind
  pub mode : ℕ

-- The permissions of a mode are its last nine bits.
unfoldable pub fs_mode : ℕ → ℕ
fs_mode mode = if nat_eq mode 0 then 420 else mode % 512

unfoldable pub is_unsafe : String → Bool
unfolding has_prefix is_rooted
is_unsafe name = name == "." || has_prefix name "../" || is_rooted name

module _ (quote : String → String) (made : Written → Option String) (dest : String) where
  abbrev pub after_made :
      Written → Option String → List Written × Option String → List Written × Option String
  after_made w (some e) rest = (List.◌∷◌ w List.[], some e)
  after_made w none (ws, e) = (List.◌∷◌ w ws, e)

  abbrev pub folder_at : String → Written
  folder_at target = record { target = target; kind = folder; mode = 493 }

  abbrev pub file_at : String → ℕ → Written
  file_at target mode = record { target = target; kind = file; mode = fs_mode mode }

  abbrev pub extracted :
      Kind → ℕ → String → List Written × Option String → List Written × Option String
  extracted folder mode target rest = after_made (folder_at target) (made (folder_at target)) rest
  extracted file mode target rest =
      after_made (file_at target mode) (made (file_at target mode)) rest
  extracted other mode target rest = rest

  -- The calls that are made for the entries, and the error that ends them: that of an entry, or the
  -- one that the readers end with.
  unfoldable pub extract : List Header → Option String → List Written × Option String
  unfolding is_unsafe clean join_path fs_mode
  extract List.[] ended = (List.[], ended)
  extract (List.◌∷◌ header headers) ended =
      let name = clean header.name in
      let rest = extract headers ended in
      let here = extracted header.kind header.mode (join_path dest name) rest in
      if is_unsafe name then (List.[], some ("unsafe tar path " ++ quote header.name)) else here

-- An entry of the directory: its path, whether it is a directory, and whether libs/contract/api stands
-- in it.
pub record Found : Type 0 where
  pub path : String
  pub is_dir : Bool
  pub has_contract : Bool

unfoldable pub find_root : List Found → List String → Result String
find_root List.[] (List.◌∷◌ dir List.[]) = ok dir
find_root List.[] dirs = err "tarball did not contain a recognizable repository root"
find_root (List.◌∷◌ entry entries) dirs =
    let skipped = find_root entries dirs in
    let later = find_root entries (List.◌∷◌ entry.path dirs) in
    if not entry.is_dir then skipped else if entry.has_contract then ok entry.path else later

unfoldable pub find_extracted_root : Result (List Found) → Result String
unfolding find_root
find_extracted_root (err e) = err e
find_extracted_root (ok entries) = find_root entries List.[]
