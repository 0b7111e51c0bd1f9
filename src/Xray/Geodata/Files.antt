-- ===== src/Xray/Geodata/Files.antt =====
-- The files that stand on the disk after the geodata assets are prepared
-- (internal/xray/geodata.go).
use mathlib.Core.Path.{subst}
use rw_node_go.Common.{
  true, Bool, ℕ, ◌+◌, ◌≡◌, refl, sym, ap, ◌∙◌, false, Option, none, some, String, ◌==◌, eq_refl,
  List, [], ◌∷◌, Result, ok, err, Bool-cases, inl, inr, arith, All, nat_eq,
}
use rw_node_go.Http.Body.{Bytes, Decoded, read_limited}
use rw_node_go.Xray.Geodata.{
  unless_exists, stat, join_path, file_exists_non_empty, GeodataAsset, prepare_geodata_asset,
  create_geodata_stub, Entry, prepare_assets, or_stub, irregular, hidden, Disk, absent, regular,
  Attempt, write_at, first_free, is_absent, unless, removed, renamed, fill, into_temp, answered,
  download_geodata_asset, max_geodata_asset_size,
}
use rw_node_go.Xray.Geodata.Kept.{prepare_assets-there}
use rw_node_go.Xray.Geodata.Steps.{write_at-hit, removed-same}

-- Nothing that os.CreateTemp tries is the path.
abbrev pub Apart : String → List String → Type 0
Apart path names = All (λ (name : String). (name == path) ≡ false) names

pub first_free-Apart :
    (d : Disk) (path : String) (names : List String) (tmp : String)
    → Apart path names
    → first_free d names ≡ some tmp
    → (tmp == path) ≡ false
unfolding first_free
first_free-Apart d path [] tmp h taken = cc
first_free-Apart d path (name ∷ names) tmp (h, hs) taken = elim (Bool-cases (is_absent (d name))) [
  | inl e ↦
      let found : some name ≡ some tmp = (simp e at taken) in
      let same : name ≡ tmp = cc in subst (λ n. (n == path) ≡ false) same h
  | inr e ↦ first_free-Apart d path names tmp hs (simp e at taken)
]

-- A chain that ends without an error goes on after each call.
unless-none :
    (e : Option String) (d : Disk) (rest : Option String × Disk)
    → (unless e d rest).0 ≡ none
    → unless e d rest ≡ rest
unless-none none d rest h = refl
unless-none (some e) d rest h = cc

pub removed-none :
    (e : Option String) (tmp : String) (r : Option String × Disk) → (removed e tmp r).0 ≡ r.0
removed-none none tmp (o, d) = refl
removed-none (some e) tmp (o, d) = refl

module _ (a : Attempt) where
  fill-none :
      (tmp path : String) (r : Result Bytes) (d : Disk)
      → (fill a tmp path r d).0 ≡ none
      → (content : Bytes) × (r ≡ ok content) × ((fill a tmp path r d).1 path ≡ regular content)
  unfolding fill
  fill-none tmp path (err e) d h = cc
  fill-none tmp path (ok content) d h =
      let written = write_at tmp (regular content) d in
      let moved : Option String × Disk = (none, renamed tmp path content written) in
      let last = unless a.rename written moved in
      let closing = unless a.close written last in
      let first = unless-none a.copy d closing h in
      let second = unless-none a.close written last (rw first at h) in
      let third = unless-none a.rename written moved (rw second at (rw first at h)) in
      let all = first ∙ second ∙ third in
      (
        content,
        refl,
        ap (λ (r : Option String × Disk). r.1 path) all
            ∙ write_at-hit path path (regular content) (write_at tmp absent written) (eq_refl path),
      )

  into_temp-none :
      (path : String) (body : Decoded) (tmp : Option String) (d : Disk)
      → ((name : String) → tmp ≡ some name → (name == path) ≡ false)
      → (into_temp a path body tmp d).0 ≡ none
      → (content : Bytes) × (read_limited max_geodata_asset_size body ≡ ok content)
        × ((into_temp a path body tmp d).1 path ≡ regular content)
  into_temp-none path body none d apart h = cc
  into_temp-none path body (some tmp) d apart h =
      let read = read_limited max_geodata_asset_size body in
      let made = write_at tmp (regular []) d in
      let filled = fill a tmp path read made in
      let (content, whole, there) =
        fill-none tmp path read made (sym (removed-none a.remove tmp filled) ∙ h) in
      (content, whole, removed-same a.remove tmp path filled (apart tmp refl) ∙ there)

  answered-none :
      (path : String) (response : Result (ℕ × Decoded)) (d : Disk)
      → Apart path a.names
      → (answered a path response d).0 ≡ none
      → (body : Decoded) × (response ≡ ok (200, body))
        × (content : Bytes) × (read_limited max_geodata_asset_size body ≡ ok content)
        × ((answered a path response d).1 path ≡ regular content)
  answered-none path (err e) d apart h = cc
  answered-none path (ok (status, body)) d apart h = elim (Bool-cases (nat_eq status 200)) [
    | inr e ↦ cc (simp e at h)
    | inl e ↦
        let into = into_temp a path body (first_free d a.names) d in
        let found : status ≡ 200 = ground arith in
        let chain : (unless a.mkdir d into).0 ≡ none = (simp e at h) in
        let same = unless-none a.mkdir d into chain in
        let (content, whole, there) =
          into_temp-none path body (first_free d a.names) d
            (λ name. first_free-Apart d path a.names name apart) (rw same at chain) in
        (
          body,
          ap (λ n. ok (n, body)) found,
          content,
          whole,
          simp e (ap (λ (r : Option String × Disk). r.1 path) same ∙ there),
        )
  ]

  -- A download without an error leaves the body at the path, as far as the limit.
  pub download-none :
      (path : String) (d : Disk)
      → Apart path a.names
      → (download_geodata_asset a path d).0 ≡ none
      → (body : Decoded) × (a.response ≡ ok (200, body))
        × (content : Bytes) × (read_limited max_geodata_asset_size body ≡ ok content)
        × ((download_geodata_asset a path d).1 path ≡ regular content)
  unfolding download_geodata_asset
  download-none path d apart h = answered-none path a.response d apart h

  stub_there :
      (path : String) (d : Disk)
      → a.stub_mkdir ≡ none
      → a.stub_open ≡ none
      → is_absent (create_geodata_stub a path d path) ≡ false
  unfolding create_geodata_stub
  stub_there path d made opened =
      simp (made, opened)
        (elim (Bool-cases (is_absent (d path))) [
          | inr e ↦ rw e e
          | inl e ↦ rw e (rw (write_at-hit path path (regular []) d (eq_refl path)) refl)
        ])

  or_stub_there :
      (path : String) (r : Option String × Disk)
      → a.stub_mkdir ≡ none
      → a.stub_open ≡ none
      → (r.0 ≡ none → is_absent (r.1 path) ≡ false)
      → is_absent (or_stub a path r path) ≡ false
  or_stub_there path (none, d) made opened h = h refl
  or_stub_there path (some e, d) made opened h = stub_there path d made opened

  stat_there : (e : Entry) → stat e ≡ ok true → is_absent e ≡ false
  stat_there absent h = cc
  stat_there (regular content) h = refl
  stat_there irregular h = cc
  stat_there hidden h = cc

  present :
      (path : String) (d : Disk)
      → Apart path a.names
      → (download_geodata_asset a path d).0 ≡ none
      → is_absent ((download_geodata_asset a path d).1 path) ≡ false
  present path d apart h =
      let (body, response, content, whole, there) = download-none path d apart h in
      ap is_absent there

  unless_exists_there :
      (path : String) (exists : Result Bool) (d : Disk)
      → exists ≡ stat (d path)
      → a.stub_mkdir ≡ none
      → a.stub_open ≡ none
      → Apart path a.names
      → is_absent (unless_exists a path exists d path) ≡ false
  unless_exists_there path (ok true) d found made opened apart = stat_there (d path) (sym found)
  unless_exists_there path (ok false) d found made opened apart =
      or_stub_there path (download_geodata_asset a path d) made opened (present path d apart)
  unless_exists_there path (err e) d found made opened apart =
      or_stub_there path (download_geodata_asset a path d) made opened (present path d apart)

  -- The path of an asset is not free after its preparation.
  prepare_there :
      (dir : String) (asset : GeodataAsset) (d : Disk)
      → a.stub_mkdir ≡ none
      → a.stub_open ≡ none
      → Apart (join_path dir asset.file) a.names
      → is_absent (prepare_geodata_asset a dir asset d (join_path dir asset.file)) ≡ false
  unfolding prepare_geodata_asset file_exists_non_empty
  prepare_there dir asset d made opened apart =
      unless_exists_there (join_path dir asset.file) _ d refl made opened apart

-- A stub can be made in every attempt, and no temporary file is named like an asset.
abbrev pub Works : String → List GeodataAsset → (ℕ → Attempt) → Type 0
Works dir assets attempts =
    (k : ℕ)
    → ((attempts k).stub_mkdir ≡ none)
      × ((attempts k).stub_open ≡ none)
      × All (λ (asset : GeodataAsset). Apart (join_path dir asset.file) (attempts k).names) assets

pub assets_there :
    (dir : String) (attempts : ℕ → Attempt) (k : ℕ) (assets : List GeodataAsset) (d : Disk)
    → Works dir assets attempts
    → All
        (λ (asset : GeodataAsset).
          is_absent (prepare_assets dir attempts k assets d (join_path dir asset.file)) ≡ false)
        assets
unfolding prepare_assets
assets_there dir attempts k [] d works = tt
assets_there dir attempts k (asset ∷ assets) d works =
    let (made, opened, (apart, rest)) = works k in
    let next = prepare_geodata_asset (attempts k) dir asset d in
    (
      prepare_assets-there dir attempts (k + 1) assets (join_path dir asset.file) next
          (prepare_there (attempts k) dir asset d made opened apart),
      assets_there dir attempts (k + 1) assets next
          (λ j. let (made', opened', (apart', rest')) = works j in (made', opened', rest')),
    )
