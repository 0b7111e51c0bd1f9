-- ===== src/Xray/Geodata/Inside.antt =====
-- The files of the geodata assets lie in the asset directory (internal/xray/geodata.go).
use Prim.Native.Char.{Char, code}
use rw_node_go.Common.{
  ◌≡◌, ◌≢◌, refl, ap, ◌∙◌, true, false, String, eq_iff, [], ◌∷◌, nat_eq, arith, Result,
}
use rw_node_go.Golang.Paths.{split_path, is_rooted, cleaned, path_text, join_path}
use rw_node_go.Golang.Paths.Under.{onto, join_path_under}
use rw_node_go.Xray.Geodata.{
  GeodataAsset, is_plain, all_plain, matches_pattern, valid_geodata_asset,
}

-- A word character, a dot or a dash is no slash.
plain_slash : (c : Char) → is_plain c ≡ true → nat_eq (code c) 47 ≡ false
unfolding is_plain
plain_slash c h = ground arith

split_plain : (s : String) → all_plain s ≡ true → split_path s ≡ s ∷ []
unfolding all_plain split_path
split_plain String.[] h = refl
split_plain (String.◌∷◌ c s) h =
    let first : is_plain c ≡ true = ground arith in
    let rest : all_plain s ≡ true = ground arith in
    simp (plain_slash c first, split_plain s rest) refl

-- The checks that a valid asset has passed.
valid_checks :
    (scheme_of : String → Result String) (asset : GeodataAsset)
    → valid_geodata_asset scheme_of asset ≡ true
    → (matches_pattern asset.file ≡ true) × (asset.file ≢ ".") × (asset.file ≢ "..")
unfolding valid_geodata_asset
valid_checks scheme_of asset h =
    (ground arith, ground (arith, eq_iff asset.file "."), ground (arith, eq_iff asset.file ".."))

plain_full : (s : String) → matches_pattern s ≡ true → (s ≢ "") × (all_plain s ≡ true)
unfolding matches_pattern
plain_full String.[] h = cc
plain_full (String.◌∷◌ c s) h = (λ e. cc, h)

-- The path that a valid asset is written to is its file name directly in the cleaned asset directory,
-- for a directory that is not the empty text.
pub asset_inside :
    (scheme_of : String → Result String) (dir : String) (asset : GeodataAsset)
    → dir ≢ ""
    → valid_geodata_asset scheme_of asset ≡ true
    → join_path dir asset.file ≡ path_text (is_rooted dir) (asset.file ∷ cleaned dir)
asset_inside scheme_of dir asset full valid =
    let (matched, dot, dots) = valid_checks scheme_of asset valid in
    let (named, plain) = plain_full asset.file matched in
    let parts = split_plain asset.file plain in
    join_path_under dir asset.file full (rw parts ((named, dot, dots), tt))
    ∙ ap (λ ps. path_text (is_rooted dir) (onto ps (cleaned dir))) parts
