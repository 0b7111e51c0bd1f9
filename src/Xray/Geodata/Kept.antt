-- ===== src/Xray/Geodata/Kept.antt =====
-- What preparing the geodata files does to the disk (internal/xray/geodata.go).
use rw_node_go.Common.{
  ℕ, ◌+◌, ◌≡◌, refl, sym, ◌∙◌, Bool, true, false, Option, none, some, String, ◌==◌, eq_iff, List,
  [], ◌∷◌, Result, ok, err, Bool-cases, inl, inr, nat_eq,
}
use mathlib.Core.Path.{subst}
use rw_node_go.Golang.Paths.{join_path}
use rw_node_go.Xray.Geodata.Steps.{
  non_empty, write_at-other, absent_of, write_at-hit, first_free-absent, After, free_apart, apart,
  stays, non_empty-there, exists_of, unless-all, removed-same,
}
use rw_node_go.Http.Body.{Bytes, Decoded, read_limited}
use rw_node_go.Xray.Geodata.{
  section_of, listed, valid_assets, Fields, prepare_geodata, Disk, Entry, absent, regular, Attempt,
  GeodataAsset, write_at, first_free, is_absent, max_geodata_asset_size, fill, into_temp, answered,
  or_stub, unless_exists, download_geodata_asset, create_geodata_stub, prepare_geodata_asset,
  prepare_assets, file_exists_non_empty, stub_under,
}

module _ (a : Attempt) where
  fill-After :
      (tmp path q : String) (r : Result Bytes) (d : Disk)
      → (tmp == q) ≡ false
      → After path q (d q) ((fill a tmp path r d).1 q)
  unfolding fill
  fill-After tmp path q (err e) d h = inl refl
  fill-After tmp path q (ok content) d h =
      let P = λ (d' : Disk). After path q (d q) (d' q) in
      let written = write_at tmp (regular content) d in
      let kept = write_at-other tmp q (regular content) d h in
      unless-all P a.copy d _ (inl refl) (
        unless-all P a.close written _ (inl kept) (
          unless-all P a.rename written _ (inl kept) (elim (Bool-cases (path == q)) [
            | inl e ↦
                inr (
                  e,
                  content,
                  write_at-hit path q (regular content) (write_at tmp absent written) e,
                )
            | inr e ↦ inl (
                write_at-other path q (regular content) (write_at tmp absent written) e
                ∙ write_at-other tmp q absent written h
                ∙ kept)
          ])))

  into_temp-After :
      (path q : String) (body : Decoded) (tmp : Option String) (d : Disk)
      → ((name : String) → tmp ≡ some name → (name == q) ≡ false)
      → After path q (d q) ((into_temp a path body tmp d).1 q)
  into_temp-After path q body none d h = inl refl
  into_temp-After path q body (some tmp) d h =
      let apart = h tmp refl in
      let made = write_at tmp (regular []) d in
      let read = read_limited max_geodata_asset_size body in
      rw (removed-same a.remove tmp q (fill a tmp path read made) apart) (
        subst (λ e. After path q e ((fill a tmp path read made).1 q))
          (write_at-other tmp q (regular []) d apart) (fill-After tmp path q read made apart))

  answered-After :
      (path q : String) (response : Result (ℕ × Decoded)) (d : Disk)
      → is_absent (d q) ≡ false
      → After path q (d q) ((answered a path response d).1 q)
  answered-After path q (err e) d there = inl refl
  answered-After path q (ok (status, body)) d there = elim (Bool-cases (nat_eq status 200)) [
    | inr e ↦ rw e (inl refl)
    | inl e ↦
        let into =
          into_temp-After path q body (first_free d a.names) d
            (λ name h. free_apart d name q (first_free-absent d a.names name h) there) in
        rw e (unless-all (λ d'. After path q (d q) (d' q)) a.mkdir d _ (inl refl) into)
  ]

  download-After :
      (path q : String) (d : Disk)
      → is_absent (d q) ≡ false
      → After path q (d q) ((download_geodata_asset a path d).1 q)
  unfolding download_geodata_asset
  download-After path q d there = answered-After path q a.response d there

  -- A stub does not touch what is there.
  stub_under-same :
      (made opened : Option String) (path q : String) (d : Disk)
      → is_absent (d q) ≡ false
      → stub_under made opened path d q ≡ d q
  stub_under-same (some e) opened path q d there = refl
  stub_under-same none (some e) path q d there = refl
  stub_under-same none none path q d there = elim (Bool-cases (is_absent (d path))) [
    | inr e ↦ rw e refl
    | inl e ↦
        let apart = free_apart d path q (absent_of (d path) e) there in
        rw e (write_at-other path q (regular []) d apart)
  ]

  or_stub-After :
      (path q : String) (e : Entry) (r : Option String × Disk)
      → is_absent e ≡ false
      → After path q e (r.1 q)
      → After path q e (or_stub a path r q)
  unfolding create_geodata_stub
  or_stub-After path q e (none, d) there after = after
  or_stub-After path q e (some error, d) there (inl same) =
      inl (stub_under-same a.stub_mkdir a.stub_open path q d (rw same there) ∙ same)
  or_stub-After path q e (some error, d) there (inr (hit, content, same)) =
      inr (hit, content, stub_under-same a.stub_mkdir a.stub_open path q d (rw same refl) ∙ same)

  unless_exists-After :
      (path q : String) (exists : Result Bool) (d : Disk)
      → is_absent (d q) ≡ false
      → After path q (d q) (unless_exists a path exists d q)
  unless_exists-After path q (ok true) d there = inl refl
  unless_exists-After path q (ok false) d there =
      or_stub-After path q (d q) (download_geodata_asset a path d) there
        (download-After path q d there)
  unless_exists-After path q (err e) d there =
      or_stub-After path q (d q) (download_geodata_asset a path d) there
        (download-After path q d there)

  pub prepare-After :
      (dir : String) (asset : GeodataAsset) (q : String) (d : Disk)
      → is_absent (d q) ≡ false
      → After (join_path dir asset.file) q (d q) (prepare_geodata_asset a dir asset d q)
  unfolding prepare_geodata_asset
  prepare-After dir asset q d there =
      let path = join_path dir asset.file in
      unless_exists-After path q (file_exists_non_empty d path) d there

  -- A file with content is not touched.
  prepare-same :
      (dir : String) (asset : GeodataAsset) (q : String) (d : Disk)
      → non_empty (d q) ≡ true
      → prepare_geodata_asset a dir asset d q ≡ d q
  unfolding prepare_geodata_asset
  prepare-same dir asset q d full =
      let path = join_path dir asset.file in
      elim (Bool-cases (path == q)) [
        | inr e ↦ apart path q e (prepare-After dir asset q d (non_empty-there (d q) full))
        | inl e ↦
            let same = (eq_iff path q).0 e in
            rw (exists_of d path (subst (λ p. non_empty (d p) ≡ true) (sym same) full)) refl
      ]

-- A file with content has the same content after the preparation of any assets.
pub prepare_assets-same :
    (dir : String) (attempts : ℕ → Attempt) (k : ℕ) (assets : List GeodataAsset) (q : String)
    (d : Disk)
    → non_empty (d q) ≡ true
    → prepare_assets dir attempts k assets d q ≡ d q
unfolding prepare_assets
prepare_assets-same dir attempts k [] q d full = refl
prepare_assets-same dir attempts k (asset ∷ assets) q d full =
    let same = prepare-same (attempts k) dir asset q d full in
    let next = prepare_geodata_asset (attempts k) dir asset d in
    prepare_assets-same dir attempts (k + 1) assets q next (rw same full) ∙ same

-- What is there stays there, as it was or as a regular file.
pub prepare_assets-there :
    (dir : String) (attempts : ℕ → Attempt) (k : ℕ) (assets : List GeodataAsset) (q : String)
    (d : Disk)
    → is_absent (d q) ≡ false
    → is_absent (prepare_assets dir attempts k assets d q) ≡ false
unfolding prepare_assets
prepare_assets-there dir attempts k [] q d there = there
prepare_assets-there dir attempts k (asset ∷ assets) q d there =
    let next = prepare_geodata_asset (attempts k) dir asset d in
    prepare_assets-there dir attempts (k + 1) assets q next
      (stays _ q (d q) (next q) there (prepare-After (attempts k) dir asset q d there))

-- A start never touches an asset file that has content: after the preparation for any configuration it
-- is as it was, whatever the network answers.
pub prepare_geodata_same :
    (scheme_of : String → Result String) (assets_of : Fields → Result (List GeodataAsset))
    (dir : String) (attempts : ℕ → Attempt) (config : Option Fields) (d : Disk) (path : String)
    → non_empty (d path) ≡ true
    → prepare_geodata scheme_of assets_of dir attempts config d path ≡ d path
unfolding prepare_geodata
prepare_geodata_same scheme_of assets_of dir attempts config d path full =
    prepare_assets-same dir attempts 0
      (valid_assets scheme_of (listed scheme_of assets_of (section_of config))) path d full
