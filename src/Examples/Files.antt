-- ===== src/Examples/Files.antt =====
-- The theorems on geocheck, the geodata files and the extraction of a tarball at concrete inputs.
use rw_node_go.Common.{
  ℕ, ◌≡◌, refl, ◌↔◌, ◌≤◌, zero, suc, false, String, ◌==◌, List, [], ◌∷◌, length, take, All, Option,
  none, some, Result, ok, err, arith,
}
use rw_node_go.Json.{Fields, end, field, obj}
use rw_node_go.Http.Body.{Bytes, Decoded}
use rw_node_go.Golang.Paths.{join_path, path_text, is_rooted, cleaned}
use rw_node_go.Contractdiff.Extract.{Header, folder, file, Written, extract}
use rw_node_go.Contractdiff.Inside.{AllNear, extract-AllNear}
use rw_node_go.Geocheck.{Process}
use rw_node_go.Geocheck.Runner.{Request, Report, Machine, new_runner, bind_to, run}
use rw_node_go.Geocheck.Runs.{Reports, run_iff}
use rw_node_go.Xray.Geodata.{
  GeodataAsset, Disk, Entry, absent, regular, Attempt, prepare_geodata, valid_assets,
  valid_geodata_asset, listed, section_of, is_absent, download_geodata_asset,
  max_geodata_asset_size,
}
use rw_node_go.Xray.Geodata.Settled.{Settled, prepare_geodata-Settled}
use rw_node_go.Xray.Geodata.Cut.{download_cut}
use rw_node_go.Xray.Geodata.Kept.{prepare_geodata_same}
use rw_node_go.Xray.Geodata.Inside.{asset_inside}

abbrev picture : Report
picture = record {
  image = some (record {
    format = "svg";
    media_type = "image/svg+xml";
    encoding = "base64";
    content = "PHN2Zz4=";
  });
}

abbrev report_process : Process
report_process = record { chunks = (123 ∷ []) ∷ (125 ∷ []) ∷ []; exit = none; expired = false }

abbrev machine : Machine
machine = record {
  getenv = λ name. "";
  parse_ip = λ ip. ip == "10.0.0.1";
  quote = λ s. s;
  digits_of = λ n. "32";
  duration_text = λ n. "45s";
  text_of = λ bytes. "{} ";
  unmarshal = λ s. ok picture;
  execute = λ timeout path arguments. report_process;
}

abbrev by_address : Request
by_address = record { ip = " 10.0.0.1"; interface = "eth0" }

run_iff_example : ((run machine by_address new_runner).0 ≡ ok "{}") ↔ (
    (bound : String) × (bind_to machine by_address ≡ ok bound)
    × (new_runner.is_running ≡ false)
    × Reports machine bound new_runner "{}")
run_iff_example = run_iff machine by_address new_runner "{}"

abbrev geosite : GeodataAsset
geosite = record { url = "https://example.org/geosite.dat"; file = "geosite.dat" }

abbrev https_only : String → Result String
https_only url = ok "https"

abbrev lists_geosite : Fields → Result (List GeodataAsset)
lists_geosite section = ok (geosite ∷ [])

abbrev with_geodata : Option Fields
with_geodata = some (field "geodata" (obj end) end)

-- The request fails, and then the stub is made.
abbrev offline : ℕ → Attempt
offline k = record {
  response = err "offline";
  mkdir = none;
  names = "/share/.geodata-1" ∷ [];
  copy = none;
  close = none;
  rename = none;
  remove = none;
  stub_mkdir = none;
  stub_open = none;
}

abbrev empty_disk : Disk
empty_disk path = absent

prepare_geodata-Settled_example :
    All
      (λ (asset : GeodataAsset).
        Settled "/share" offline
          (valid_assets https_only (listed https_only lists_geosite (section_of with_geodata)))
          (join_path "/share" asset.file)
          (empty_disk (join_path "/share" asset.file))
          (prepare_geodata https_only lists_geosite "/share" offline with_geodata empty_disk
            (join_path "/share" asset.file)))
      (valid_assets https_only (listed https_only lists_geosite (section_of with_geodata)))
unfolding valid_assets rw_node_go.Json.get join_path
prepare_geodata-Settled_example =
    prepare_geodata-Settled https_only lists_geosite "/share" offline with_geodata empty_disk
      (λ k. (refl, refl, ((refl, tt), tt)))

abbrev full_disk : Disk
full_disk path = regular (7 ∷ [])

prepare_geodata_same_example :
    prepare_geodata https_only lists_geosite "/share" offline with_geodata full_disk
      "/share/geosite.dat"
    ≡ full_disk "/share/geosite.dat"
prepare_geodata_same_example =
    prepare_geodata_same https_only lists_geosite "/share" offline with_geodata full_disk
      "/share/geosite.dat" refl

zeros : ℕ → Bytes
zeros zero = []
zeros (suc n) = 0 ∷ zeros n

zeros-length : (n : ℕ) → n ≤ length (zeros n)
unfolding zeros
zeros-length zero = omega arith
zeros-length (suc n) = omega (arith, zeros-length n)

abbrev large_body : Decoded
large_body = record { content = zeros 300000000; failed = some "reset" }

abbrev large_download : Attempt
large_download = record (offline 0) { response = ok (200, large_body) }

download_cut_example :
    ((download_geodata_asset large_download "/share/geosite.dat" empty_disk).0 ≡ none)
    × ((download_geodata_asset large_download "/share/geosite.dat" empty_disk).1
          "/share/geosite.dat"
        ≡ regular (take max_geodata_asset_size (zeros 300000000)))
unfolding rw_node_go.Xray.Geodata.first_free
download_cut_example =
    let large : 300000000 ≤ length (zeros 300000000) = zeros-length 300000000 in
    download_cut large_download "/share/geosite.dat" "/share/.geodata-1" large_body empty_disk refl
      refl refl refl refl refl refl (omega arith)

asset_inside_example :
    join_path "/share/" geosite.file
    ≡ path_text (is_rooted "/share/") (geosite.file ∷ cleaned "/share/")
unfolding valid_geodata_asset
asset_inside_example = asset_inside https_only "/share/" geosite (λ h. cc) refl

abbrev headers : List Header
headers =
    record { name = "repo/libs/../a.ts"; kind = file; mode = 0 }
    ∷ record { name = "repo/.."; kind = folder; mode = 0 }
    ∷ record { name = "../../etc/passwd"; kind = file; mode = 0 }
    ∷ []

abbrev writes : Written → Option String
writes w = none

extract-AllNear_example :
    AllNear machine.quote writes "/tmp/contract"
      (extract machine.quote writes "/tmp/contract" headers none)
extract-AllNear_example =
    extract-AllNear machine.quote writes "/tmp/contract" headers none (λ h. cc)
