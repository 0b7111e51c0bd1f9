-- ===== src/Xray/Geodata/Settled.antt =====
-- What stands at the assets' paths after the preparation (internal/xray/geodata.go), and where it comes
-- from.
use rw_node_go.Common.{
  ℕ, ◌+◌, ◌≡◌, refl, sym, ap, ◌∙◌, Bool, true, false, Option, none, some, String, ◌==◌, List, [],
  ◌∷◌, Result, ok, err, Bool-cases, inl, inr, ◌⊎◌, All, nat_eq, arith,
}
use rw_node_go.Http.Body.{Bytes, Decoded, read_limited}
use rw_node_go.Golang.Paths.{join_path}
use rw_node_go.Xray.Geodata.{
  Disk, Entry, absent, regular, Attempt, GeodataAsset, Fields, write_at, is_absent, fill, into_temp,
  answered, or_stub, unless_exists, stub_under, first_free, download_geodata_asset,
  create_geodata_stub, prepare_geodata_asset, prepare_assets, prepare_geodata, valid_assets, listed,
  section_of, max_geodata_asset_size, file_exists_non_empty,
}
use rw_node_go.Xray.Geodata.Steps.{write_at-other, write_at-hit, unless-all, removed-same}
use rw_node_go.Xray.Geodata.Files.{Works, Apart, assets_there, first_free-Apart}
use mathlib.Core.Path.{subst}

-- The body of a response with the status 200, that was read as far as the limit.
abbrev pub IsBody : Result (ℕ × Decoded) → Bytes → Type 0
IsBody response content =
    (body : Decoded) × (response ≡ ok (200, body))
    × (read_limited max_geodata_asset_size body ≡ ok content)

-- What an attempt makes: a stub, or a file with the body that it downloaded.
abbrev pub IsMade : Attempt → Entry → Type 0
IsMade a e =
    (e ≡ regular []) ⊎ ((content : Bytes) × (e ≡ regular content) × IsBody a.response content)

-- The entry was made in the attempt for one of the assets whose path it is.
abbrev pub IsPrepared : String → (ℕ → Attempt) → ℕ → List GeodataAsset → String → Entry → Type 0
IsPrepared dir attempts k [] q e = ⊥
IsPrepared dir attempts k (asset ∷ assets) q e =
    ((join_path dir asset.file == q) ≡ true) × IsMade (attempts k) e
    ⊎ IsPrepared dir attempts (k + 1) assets q e

-- The entry was made for the asset, or it was there before.
abbrev pub Settled : String → (ℕ → Attempt) → List GeodataAsset → String → Entry → Entry → Type 0
Settled dir attempts assets q before after =
    IsPrepared dir attempts 0 assets q after ⊎ (is_absent before ≡ false) × (after ≡ before)

module _ (a : Attempt) where
  -- One attempt for a path leaves the entry, or makes it at that path.
  abbrev Step : String → String → Entry → Entry → Type 0
  Step path q e e' = (e' ≡ e) ⊎ ((path == q) ≡ true) × IsMade a e'

  fill-Step :
      (tmp path q : String) (r : Result Bytes) (d : Disk)
      → ((content : Bytes) → r ≡ ok content → IsBody a.response content)
      → (tmp == q) ≡ false
      → Step path q (d q) ((fill a tmp path r d).1 q)
  unfolding fill
  fill-Step tmp path q (err e) d read h = inl refl
  fill-Step tmp path q (ok content) d read h =
      let P = λ (d' : Disk). Step path q (d q) (d' q) in
      let written = write_at tmp (regular content) d in
      let kept = write_at-other tmp q (regular content) d h in
      unless-all P a.copy d _ (inl refl) (
        unless-all P a.close written _ (inl kept) (
          unless-all P a.rename written _ (inl kept) (elim (Bool-cases (path == q)) [
            | inl e ↦ inr (
              e,
              inr (
                content,
                write_at-hit path q (regular content) (write_at tmp absent written) e,
                read content refl,
              ),
            )
            | inr e ↦ inl (
                write_at-other path q (regular content) (write_at tmp absent written) e
                ∙ write_at-other tmp q absent written h
                ∙ kept)
          ])))

  into_temp-Step :
      (path q : String) (body : Decoded) (tmp : Option String) (d : Disk)
      → a.response ≡ ok (200, body)
      → ((name : String) → tmp ≡ some name → (name == q) ≡ false)
      → Step path q (d q) ((into_temp a path body tmp d).1 q)
  into_temp-Step path q body none d came h = inl refl
  into_temp-Step path q body (some tmp) d came h =
      let apart = h tmp refl in
      let made = write_at tmp (regular []) d in
      let read = read_limited max_geodata_asset_size body in
      rw (removed-same a.remove tmp q (fill a tmp path read made) apart) (
        subst (λ e. Step path q e ((fill a tmp path read made).1 q))
          (write_at-other tmp q (regular []) d apart)
          (fill-Step tmp path q read made (λ content whole. (body, came, whole)) apart))

  answered-Step :
      (path q : String) (response : Result (ℕ × Decoded)) (d : Disk)
      → a.response ≡ response
      → Apart q a.names
      → Step path q (d q) ((answered a path response d).1 q)
  answered-Step path q (err e) d came apart = inl refl
  answered-Step path q (ok (status, body)) d came apart = elim (Bool-cases (nat_eq status 200)) [
    | inr e ↦ rw e (inl refl)
    | inl e ↦
        let found : status ≡ 200 = ground arith in
        let into =
          into_temp-Step path q body (first_free d a.names) d
            (came ∙ ap (λ (n : ℕ). ok (n, body)) found)
            (λ name. first_free-Apart d q a.names name apart) in
        rw e (unless-all (λ d'. Step path q (d q) (d' q)) a.mkdir d _ (inl refl) into)
  ]

  -- A stub is made where nothing is, or the entry is left.
  stub_under-cases :
      (made opened : Option String) (path q : String) (d : Disk)
      → (stub_under made opened path d q ≡ d q)
        ⊎ ((path == q) ≡ true) × (stub_under made opened path d q ≡ regular [])
  stub_under-cases (some e) opened path q d = inl refl
  stub_under-cases none (some e) path q d = inl refl
  stub_under-cases none none path q d = elim (Bool-cases (is_absent (d path))) [
    | inr e ↦ rw e (inl refl)
    | inl e ↦ rw e (elim (Bool-cases (path == q)) [
      | inl hit ↦ inr (hit, write_at-hit path q (regular []) d hit)
      | inr other ↦ inl (write_at-other path q (regular []) d other)
    ])
  ]

  or_stub-Step :
      (path q : String) (e : Entry) (r : Option String × Disk)
      → Step path q e (r.1 q)
      → Step path q e (or_stub a path r q)
  unfolding create_geodata_stub
  or_stub-Step path q e (none, d) step = step
  or_stub-Step path q e (some error, d) step =
      elim (stub_under-cases a.stub_mkdir a.stub_open path q d) [
        | inl same ↦ subst (Step path q e) (sym same) step
        | inr (hit, stub) ↦ inr (hit, inl stub)
      ]

  unless_exists-Step :
      (path q : String) (exists : Result Bool) (d : Disk)
      → Apart q a.names
      → Step path q (d q) (unless_exists a path exists d q)
  unfolding download_geodata_asset
  unless_exists-Step path q (ok true) d apart = inl refl
  unless_exists-Step path q (ok false) d apart =
      or_stub-Step path q (d q) (download_geodata_asset a path d)
        (answered-Step path q a.response d refl apart)
  unless_exists-Step path q (err e) d apart =
      or_stub-Step path q (d q) (download_geodata_asset a path d)
        (answered-Step path q a.response d refl apart)

  prepare-Step :
      (dir : String) (asset : GeodataAsset) (q : String) (d : Disk)
      → Apart q a.names
      → Step (join_path dir asset.file) q (d q) (prepare_geodata_asset a dir asset d q)
  unfolding prepare_geodata_asset
  prepare-Step dir asset q d apart =
      let path = join_path dir asset.file in
      unless_exists-Step path q (file_exists_non_empty d path) d apart

prepare_assets-IsPrepared :
    (dir : String) (attempts : ℕ → Attempt) (k : ℕ) (assets : List GeodataAsset) (q : String)
    (d : Disk)
    → ((j : ℕ) → Apart q (attempts j).names)
    → IsPrepared dir attempts k assets q (prepare_assets dir attempts k assets d q)
      ⊎ (prepare_assets dir attempts k assets d q ≡ d q)
unfolding prepare_assets
prepare_assets-IsPrepared dir attempts k [] q d apart = inr refl
prepare_assets-IsPrepared dir attempts k (asset ∷ assets) q d apart =
    let next = prepare_geodata_asset (attempts k) dir asset d in
    let step = prepare-Step (attempts k) dir asset q d (apart k) in
    elim (prepare_assets-IsPrepared dir attempts (k + 1) assets q next apart) [
      | inl later ↦ inl (inr later)
      | inr same ↦ elim step [
        | inl kept ↦ inr (same ∙ kept)
        | inr (hit, made) ↦ inl (inl (hit, subst (IsMade (attempts k)) (sym same) made))
      ]
    ]

prepare_assets-Settled :
    (dir : String) (attempts : ℕ → Attempt) (assets : List GeodataAsset) (q : String) (d : Disk)
    → ((j : ℕ) → Apart q (attempts j).names)
    → is_absent (prepare_assets dir attempts 0 assets d q) ≡ false
    → Settled dir attempts assets q (d q) (prepare_assets dir attempts 0 assets d q)
prepare_assets-Settled dir attempts assets q d apart there =
    elim (prepare_assets-IsPrepared dir attempts 0 assets q d apart) [
      | inl made ↦ inl made
      | inr same ↦ inr (sym (ap is_absent same) ∙ there, same)
    ]

All-Settled :
    (dir : String) (attempts : ℕ → Attempt) (all assets : List GeodataAsset) (d : Disk)
    → Works dir assets attempts
    → All
        (λ (asset : GeodataAsset).
          is_absent (prepare_assets dir attempts 0 all d (join_path dir asset.file)) ≡ false)
        assets
    → All
        (λ (asset : GeodataAsset).
          Settled dir attempts all
            (join_path dir asset.file)
            (d (join_path dir asset.file))
            (prepare_assets dir attempts 0 all d (join_path dir asset.file)))
        assets
All-Settled dir attempts all [] d works there = tt
All-Settled dir attempts all (asset ∷ assets) d works (there, later) = (
  prepare_assets-Settled dir attempts all (join_path dir asset.file) d
      (λ j. let (made, opened, (apart, rest)) = works j in apart) there,
  All-Settled dir attempts all assets d
      (λ j. let (made, opened, (apart, rest)) = works j in (made, opened, rest)) later,
)

-- After the preparation something stands at the path of every valid asset of the configuration: an
-- empty stub or the body of a response with the status 200, as far as the limit, which an attempt for
-- that path has made, or what was there before, of any kind. So it is whatever the network answers,
-- provided that stubs can be made and no temporary file is named like an asset.
pub prepare_geodata-Settled :
    (scheme_of : String → Result String) (assets_of : Fields → Result (List GeodataAsset))
    (dir : String) (attempts : ℕ → Attempt) (config : Option Fields) (d : Disk)
    → Works dir (valid_assets scheme_of (listed scheme_of assets_of (section_of config))) attempts
    → All
        (λ (asset : GeodataAsset).
          Settled dir attempts
            (valid_assets scheme_of (listed scheme_of assets_of (section_of config)))
            (join_path dir asset.file)
            (d (join_path dir asset.file))
            (prepare_geodata scheme_of assets_of dir attempts config d (join_path dir asset.file)))
        (valid_assets scheme_of (listed scheme_of assets_of (section_of config)))
unfolding prepare_geodata
prepare_geodata-Settled scheme_of assets_of dir attempts config d works =
    let assets = valid_assets scheme_of (listed scheme_of assets_of (section_of config)) in
    All-Settled dir attempts assets assets d works (assets_there dir attempts 0 assets d works)
