-- ===== src/Xray/Geodata.antt =====
-- internal/xray/geodata.go: the files that a start downloads for a configuration. A disk gives the
-- entry at each clean path. What the network and the disk answer is a parameter, one `Attempt` for each
-- asset; url.Parse and the JSON decoder are parameters. The goroutines are a sequence of attempts, in
-- any order, and the log is left out.
pub mod Files
pub mod Settled
pub mod Cut
pub mod Steps
pub mod Kept
pub mod Inside
use Prim.Native.Char.{Char, code}
use rw_node_go.Common.{
  ℕ, zero, suc, ◌+◌, Bool, true, false, not, ◌&&◌, ◌||◌, Option, none, some, String, ◌==◌, List, [],
  ◌∷◌, Result, ok, err, nat_eq, leb, is_empty, if◌then◌else◌,
}
use rw_node_go.Golang.Strings.{is_blank}
use rw_node_go.Golang.Paths.{join_path}
use rw_node_go.Json.{Fields, get, as_map}
use rw_node_go.Http.Body.{Bytes, Decoded, read_limited}
use Prim.Native.String

-- 256 << 20
abbrev pub max_geodata_asset_size : ℕ
max_geodata_asset_size = 268435456

pub record GeodataAsset : Type 0 where
  pub url : String
  pub file : String

-- What os.Stat finds at a path: nothing, a regular file, something else, or an error.
pub data Entry : Type 0 where
  absent : Entry
  regular : Bytes → Entry
  irregular : Entry
  hidden : Entry

abbrev pub Disk : Type 0
Disk = String → Entry

unfoldable pub write_at : String → Entry → Disk → Disk
write_at path e d other = if path == other then e else d other

-- What the world answers while an asset is prepared: the response or an error of the request, the
-- names that os.CreateTemp tries, and the error of each call that can fail.
pub record Attempt : Type 0 where
  pub response : Result (ℕ × Decoded)
  pub mkdir : Option String
  pub names : List String
  pub copy : Option String
  pub close : Option String
  pub rename : Option String
  pub remove : Option String
  pub stub_mkdir : Option String
  pub stub_open : Option String

-- A word character, a dot or a dash
unfoldable pub is_plain : Char → Bool
is_plain c =
    (leb 48 (code c) && leb (code c) 57)
    || (leb 65 (code c) && leb (code c) 90)
    || (leb 97 (code c) && leb (code c) 122)
    || nat_eq (code c) 95
    || nat_eq (code c) 46
    || nat_eq (code c) 45

unfoldable pub all_plain : String → Bool
unfolding is_plain
all_plain String.[] = true
all_plain (String.◌∷◌ c s) = is_plain c && all_plain s

-- geodataFileNamePattern
unfoldable pub matches_pattern : String → Bool
unfolding all_plain
matches_pattern s = not (is_blank s) && all_plain s

abbrev pub is_https : Result String → Bool
is_https (err e) = false
is_https (ok scheme) = scheme == "https"

module _ (scheme_of : String → Result String) where
  unfoldable pub valid_geodata_asset : GeodataAsset → Bool
  unfolding matches_pattern
  valid_geodata_asset asset =
      if not (is_https (scheme_of asset.url))
      then false
      else if not (matches_pattern asset.file) || asset.file == "." || asset.file == ".."
      then false
      else true

  unfoldable pub valid_assets : List GeodataAsset → List GeodataAsset
  unfolding valid_geodata_asset
  valid_assets [] = []
  valid_assets (asset ∷ assets) =
      let rest = valid_assets assets in
      if not (valid_geodata_asset asset) then rest else asset ∷ rest

abbrev pub stat : Entry → Result Bool
stat hidden = err "stat"
stat absent = ok false
stat (regular content) = ok (not (is_empty content))
stat irregular = ok false

unfoldable pub file_exists_non_empty : Disk → String → Result Bool
file_exists_non_empty d path = stat (d path)

-- os.CreateTemp makes the first file whose name is free.
abbrev pub is_absent : Entry → Bool
is_absent absent = true
is_absent _ = false

unfoldable pub first_free : Disk → List String → Option String
first_free d [] = none
first_free d (name ∷ names) =
    let later = first_free d names in if is_absent (d name) then some name else later

-- The error of a call, or what follows it.
abbrev pub unless : Option String → Disk → Option String × Disk → Option String × Disk
unless (some e) d rest = (some e, d)
unless none d rest = rest

-- The deferred removal of the temporary file.
abbrev pub removed : Option String → String → Option String × Disk → Option String × Disk
removed (some e) tmp (r, d) = (r, d)
removed none tmp (r, d) = (r, write_at tmp absent d)

abbrev pub renamed : String → String → Bytes → Disk → Disk
renamed tmp path content d = write_at path (regular content) (write_at tmp absent d)

-- O_EXCL: what is there stays.
abbrev pub stub_opened : Option String → String → Disk → Disk
stub_opened (some e) path d = d
stub_opened none path d = if is_absent (d path) then write_at path (regular []) d else d

abbrev pub stub_under : Option String → Option String → String → Disk → Disk
stub_under (some e) opened path d = d
stub_under none opened path d = stub_opened opened path d

module _ (a : Attempt) where
  -- From the copy to the rename, on a temporary file that is there.
  unfoldable pub fill : String → String → Result Bytes → Disk → Option String × Disk
  unfolding write_at
  fill tmp path (err e) d = (some e, d)
  fill tmp path (ok content) d =
      let written = write_at tmp (regular content) d in
      unless a.copy d
        (unless a.close written (unless a.rename written (none, renamed tmp path content written)))

  abbrev pub into_temp : String → Decoded → Option String → Disk → Option String × Disk
  into_temp path body none d = (some "create temp", d)
  into_temp path body (some tmp) d =
      removed a.remove tmp
        (fill tmp path (read_limited max_geodata_asset_size body) (write_at tmp (regular []) d))

  abbrev pub answered : String → Result (ℕ × Decoded) → Disk → Option String × Disk
  answered path (err e) d = (some e, d)
  answered path (ok (status, body)) d =
      if not (nat_eq status 200)
      then (some "download status", d)
      else unless a.mkdir d (into_temp path body (first_free d a.names) d)

  unfoldable pub download_geodata_asset : String → Disk → Option String × Disk
  unfolding read_limited fill first_free
  download_geodata_asset path d = answered path a.response d

  unfoldable pub create_geodata_stub : String → Disk → Disk
  create_geodata_stub path d = stub_under a.stub_mkdir a.stub_open path d

  abbrev pub or_stub : String → Option String × Disk → Disk
  or_stub path (none, d) = d
  or_stub path (some e, d) = create_geodata_stub path d

  abbrev pub unless_exists : String → Result Bool → Disk → Disk
  unless_exists path (ok true) d = d
  unless_exists path _ d = or_stub path (download_geodata_asset path d)

  unfoldable pub prepare_geodata_asset : String → GeodataAsset → Disk → Disk
  unfolding file_exists_non_empty download_geodata_asset create_geodata_stub join_path
  prepare_geodata_asset asset_dir asset d =
      let path = join_path asset_dir asset.file in
      unless_exists path (file_exists_non_empty d path) d

-- The assets one after the other, each with its attempt.
unfoldable pub prepare_assets : String → (ℕ → Attempt) → ℕ → List GeodataAsset → Disk → Disk
unfolding prepare_geodata_asset
prepare_assets asset_dir attempts k [] d = d
prepare_assets asset_dir attempts k (asset ∷ assets) d =
    prepare_assets asset_dir attempts (k + 1) assets
      (prepare_geodata_asset (attempts k) asset_dir asset d)

abbrev pub section_of : Option Fields → Option Fields
section_of none = none
section_of (some config) = as_map (get "geodata" config)

module _ (scheme_of : String → Result String)
    (assets_of : Fields → Result (List GeodataAsset)) where
  abbrev pub listed : Option Fields → List GeodataAsset
  listed none = []
  listed (some section) = elim (assets_of section) [ err e ↦ [] | ok assets ↦ assets ]

  unfoldable pub prepare_geodata : String → (ℕ → Attempt) → Option Fields → Disk → Disk
  unfolding valid_assets prepare_assets get
  prepare_geodata asset_dir attempts config d =
      prepare_assets asset_dir attempts 0 (valid_assets scheme_of (listed (section_of config))) d
