-- ===== src/Geocheck/Runner.antt =====
-- internal/geocheck/geocheck.go: a run of the geocheck binary. The JSON decoder, net.ParseIP, %q and
-- the text of a duration are parameters; the bytes of the output are read as a text.
use Prim.Native.String.{◌++◌}
use rw_node_go.Common.{
  ℕ, zero, suc, ℤ, pos, negsuc, Bool, true, false, Option, none, some, String, ◌==◌, List, [], ◌∷◌,
  Result, ok, err, if◌then◌else◌,
}
use rw_node_go.Golang.Strings.{trim_space}
use rw_node_go.Geocheck.{
  Bytes, LimitedBuffer, ExecError, not_found, failed, Process, copy_chunks, run_error, Output,
  output, no_output,
}

abbrev pub default_binary_path : String
default_binary_path = "/usr/local/bin/geocheck"

-- 45 * time.Second, in nanoseconds
abbrev pub default_timeout : ℕ
default_timeout = 45000000000

-- 32 << 20
abbrev pub default_max_output : ℕ
default_max_output = 33554432

abbrev pub err_already_running : String
err_already_running = "geocheck: a run is already in progress"

abbrev pub err_no_image : String
err_no_image = "geocheck report carries no image"

pub record Request : Type 0 where
  pub ip : String
  pub interface : String

pub record Image : Type 0 where
  pub format : String
  pub media_type : String
  pub encoding : String
  pub content : String

pub record Report : Type 0 where
  pub image : Option Image

pub record ExecRunner : Type 0 where
  pub binary_path : String
  pub timeout : ℤ
  pub max_output : ℤ
  pub is_running : Bool

abbrev pub new_runner : ExecRunner
new_runner = record { binary_path = ""; timeout = pos 0; max_output = pos 0; is_running = false }

module _ (digits_of : ℕ → String) where
  abbrev pub output_of : ℕ → Option ExecError → LimitedBuffer → Output
  output_of max none b = output b.content
  output_of max (some e) b =
      if b.too_large
      then no_output (failed ("geocheck output exceeded " ++ digits_of max ++ " bytes"))
      else no_output e

  unfoldable pub exec_output : Process → ℕ → Output
  unfolding copy_chunks
  exec_output process max =
      let (copied, b) =
        copy_chunks process.chunks (record { content = []; max = max; too_large = false }) in
      output_of max (run_error process.exit copied) b

module _ (duration_text : ℕ → String) where
  unfoldable pub format_exec_error : Bool → String → ℕ → ExecError → String
  format_exec_error true target timeout e =
      "geocheck via " ++ target ++ " exceeded " ++ duration_text timeout ++ " and was killed"
  format_exec_error false target timeout not_found =
      "geocheck via " ++ target ++ " failed: binary not found"
  format_exec_error false target timeout (failed e) = "geocheck via " ++ target ++ " failed: " ++ e

unfoldable pub begin : ExecRunner → Bool × ExecRunner
begin r = if r.is_running then (false, r) else (true, record r { is_running = true })

unfoldable pub end : ExecRunner → ExecRunner
end r = record r { is_running = false }

-- if n <= 0 { n = fallback }
abbrev pub positive_or : ℕ → ℤ → ℕ
positive_or fallback (pos zero) = fallback
positive_or fallback (pos (suc n)) = suc n
positive_or fallback (negsuc n) = fallback

abbrev pub or_text : String → String → String
or_text fallback s = if s == "" then fallback else s

unfoldable pub env_binary_path : (String → String) → String
env_binary_path getenv = or_text default_binary_path (trim_space (getenv "GEOCHECK_BINARY_PATH"))

abbrev pub plain_arguments : List String
plain_arguments = "--json" ∷ "--svg-base64" ∷ "--quiet" ∷ []

unfoldable pub arguments : String → List String
arguments bind_to =
    if bind_to == "" then plain_arguments else "--interface" ∷ bind_to ∷ plain_arguments

-- What the run needs of the machine and of the libraries.
pub record Machine : Type 0 where
  pub getenv : String → String
  pub parse_ip : String → Bool
  pub quote : String → String
  pub digits_of : ℕ → String
  pub duration_text : ℕ → String
  pub text_of : Bytes → String
  pub unmarshal : String → Result Report
  pub execute : ℕ → String → List String → Process

module _ (m : Machine) where
  -- The address or interface that the run is bound to, empty for the default route.
  unfoldable pub bind_to : Request → Result String
  bind_to request =
      let ip = trim_space request.ip in
      let interface = trim_space request.interface in
      if ip == ""
      then ok interface
      else if m.parse_ip ip
      then ok ip
      else err ("geocheck: " ++ m.quote ip ++ " is not a valid IP address")

  abbrev pub with_image : String → Option Image → Result String
  with_image raw none = err err_no_image
  with_image raw (some image) = if image.content == "" then err err_no_image else ok raw

  abbrev pub checked_report : String → String → Result Report → Result String
  checked_report target raw (err e) = err ("geocheck via " ++ target ++ " failed: " ++ e)
  checked_report target raw (ok report) = with_image raw report.image

  abbrev pub finished : String → ℕ → Bool → Output → Result String
  finished target timeout expired (no_output e) =
      err (format_exec_error m.duration_text expired target timeout e)
  finished target timeout expired (output stdout) =
      let raw = trim_space (m.text_of stdout) in checked_report target raw (m.unmarshal raw)

  -- The part of Run that holds the guard.
  unfoldable pub run_bound : String → ExecRunner → Result String
  unfolding exec_output format_exec_error arguments env_binary_path
  run_bound bound r =
      let target = or_text "default route" bound in
      let path = or_text (env_binary_path m.getenv) r.binary_path in
      let timeout = positive_or default_timeout r.timeout in
      let max = positive_or default_max_output r.max_output in
      let process = m.execute timeout path (arguments bound) in
      finished target timeout process.expired (exec_output m.digits_of process max)

  abbrev pub guarded : String → Bool × ExecRunner → Result String × ExecRunner
  guarded bound (false, r) = (err err_already_running, r)
  guarded bound (true, r) = (run_bound bound r, end r)

  abbrev pub run_to : Result String → ExecRunner → Result String × ExecRunner
  run_to (err e) r = (err e, r)
  run_to (ok bound) r = guarded bound (begin r)

  unfoldable pub run : Request → ExecRunner → Result String × ExecRunner
  unfolding bind_to run_bound begin end
  run request r = run_to (bind_to request) r
