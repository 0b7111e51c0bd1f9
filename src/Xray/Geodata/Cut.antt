-- ===== src/Xray/Geodata/Cut.antt =====
-- A download that reaches the limit on its size (internal/xray/geodata.go).
use rw_node_go.Common.{
  ℕ, ◌≤◌, ◌≡◌, refl, ap, ◌∙◌, false, true, Option, none, some, String, ◌==◌, eq_refl, [], ok,
  length, take, leb, arith,
}
use rw_node_go.Http.Body.{Bytes, Decoded, read_limited}
use rw_node_go.Xray.Geodata.{
  Disk, absent, regular, Attempt, write_at, first_free, unless, removed, renamed, fill, into_temp,
  answered, download_geodata_asset, max_geodata_asset_size,
}
use rw_node_go.Xray.Geodata.Steps.{write_at-hit, removed-same}
use rw_node_go.Xray.Geodata.Files.{removed-none}

le_test : (a b : ℕ) → a ≤ b → leb a b ≡ true
le_test a b h = ground arith

-- A body that reaches the limit is read as far as it, without an error.
read_long :
    (n : ℕ) (body : Decoded)
    → n ≤ length body.content
    → read_limited n body ≡ ok (take n body.content)
unfolding read_limited
read_long n body h = rw (le_test n (length body.content) h) refl

fill_whole :
    (a : Attempt) (tmp path : String) (content : Bytes) (d : Disk)
    → a.copy ≡ none
    → a.close ≡ none
    → a.rename ≡ none
    → fill a tmp path (ok content) d
      ≡ (none, renamed tmp path content (write_at tmp (regular content) d))
unfolding fill
fill_whole a tmp path content d copied closed moved = simp (copied, closed, moved) refl

-- A download whose body is longer than the limit, or as long, ends without an error and leaves only
-- the first bytes of the body as the asset, also where the response fails after them. The calls for
-- the temporary file have no error, and its name is not that of the asset.
pub download_cut :
    (a : Attempt) (path tmp : String) (body : Decoded) (d : Disk)
    → a.response ≡ ok (200, body)
    → a.mkdir ≡ none
    → first_free d a.names ≡ some tmp
    → (tmp == path) ≡ false
    → a.copy ≡ none
    → a.close ≡ none
    → a.rename ≡ none
    → max_geodata_asset_size ≤ length body.content
    → ((download_geodata_asset a path d).0 ≡ none)
      × ((download_geodata_asset a path d).1 path
          ≡ regular (take max_geodata_asset_size body.content))
unfolding download_geodata_asset
download_cut a path tmp body d response made free apart copied closed moved long =
    let read = read_limited max_geodata_asset_size body in
    let temp = write_at tmp (regular []) d in
    let cut = read_long max_geodata_asset_size body long in
    let filled =
      fill_whole a tmp path (take max_geodata_asset_size body.content) temp copied closed moved in
    let steps =
      ap (λ r. answered a path r d) response
      ∙ ap (λ e. unless e d (into_temp a path body (first_free d a.names) d)) made
      ∙ ap (λ o. into_temp a path body o d) free
      ∙ ap (λ r. removed a.remove tmp (fill a tmp path r temp)) cut
      ∙ ap (removed a.remove tmp) filled in
    let after =
      renamed tmp path (take max_geodata_asset_size body.content)
        (write_at tmp (regular (take max_geodata_asset_size body.content)) temp) in
    let kept = removed-same a.remove tmp path (none, after) apart in
    (
      ap (λ (r : Option String × Disk). r.0) steps ∙ removed-none a.remove tmp (none, after),
      ap (λ (r : Option String × Disk). r.1 path) steps
          ∙ kept
          ∙ write_at-hit path path (regular (take max_geodata_asset_size body.content))
              (write_at tmp absent
                (write_at tmp (regular (take max_geodata_asset_size body.content)) temp))
              (eq_refl path),
    )
