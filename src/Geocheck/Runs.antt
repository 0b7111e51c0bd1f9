-- ===== src/Geocheck/Runs.antt =====
-- What a run of geocheck answers, and the guard that keeps the runs apart
-- (ExecRunner.Run of internal/geocheck/geocheck.go).
use rw_node_go.Common.{
  ℕ, ◌<◌, ◌≤◌, length, zero, suc, pos, negsuc, eq_iff, ◌≡◌, ◌≢◌, refl, sym, ap, Bool, false, Option,
  none, some, String, ◌==◌, Result, ok, err, Bool-cases, inl, inr, ◌↔◌, ℤ, arith,
}
use mathlib.Core.Path.{subst}
use rw_node_go.Golang.Strings.{trim_space}
use rw_node_go.Geocheck.{Bytes, Process, Output, output, no_output}
use rw_node_go.Geocheck.Bounded.{joined, exec_output_iff}
use rw_node_go.Geocheck.Runner.{
  Request, Image, Report, ExecRunner, Machine, begin, end, bind_to, run, run_bound, run_to, guarded,
  with_image, checked_report, finished, positive_or, or_text, arguments, env_binary_path,
  exec_output, default_max_output, default_timeout,
}

module _ (m : Machine) where
  -- The report has an image, and the image has content.
  abbrev pub HasImage : Result Report → Type 0
  HasImage r = (image : Image) × (r ≡ ok (record { image = some image })) × (image.content ≢ "")

  with_image-ok :
      (raw : String) (image : Option Image) (text : String)
      → with_image m raw image ≡ ok text
      → (i : Image) × (image ≡ some i) × (i.content ≢ "") × (text ≡ raw)
  with_image-ok raw none text h = cc
  with_image-ok raw (some i) text h = elim (Bool-cases (i.content == "")) [
    | inl e ↦ cc (simp e at h)
    | inr e ↦
        let same : ok raw ≡ ok text = (simp e at h) in
        (i, refl, ground (arith, eq_iff i.content ""), cc)
  ]

  checked_report-ok :
      (target raw : String) (report : Result Report) (text : String)
      → checked_report m target raw report ≡ ok text
      → HasImage report × (text ≡ raw)
  checked_report-ok target raw (err e) text h = cc
  checked_report-ok target raw (ok report) text h =
      let (i, has, full, same) = with_image-ok raw report.image text h in
      ((i, ap (λ image. ok (record { image = image })) has, full), same)

  checked_report-HasImage :
      (target raw : String) (report : Result Report)
      → HasImage report
      → checked_report m target raw report ≡ ok raw
  checked_report-HasImage target raw report (i, same, full) =
      rw same (ground (arith, eq_iff i.content ""))

  finished_iff :
      (target : String) (timeout : ℕ) (expired : Bool) (o : Output) (text : String)
      → (finished m target timeout expired o ≡ ok text) ↔ (
          (stdout : Bytes) × (o ≡ output stdout)
          × (text ≡ trim_space (m.text_of stdout))
          × HasImage (m.unmarshal (trim_space (m.text_of stdout))))
  finished_iff target timeout expired (no_output e) text = (λ h. cc, λ (stdout, h, same, has). cc)
  finished_iff target timeout expired (output stdout) text = (
    λ h.
        let raw = trim_space (m.text_of stdout) in
        let (has, same) = checked_report-ok target raw (m.unmarshal raw) text h in
        (stdout, refl, same, has),
    λ (stdout', h, same, has).
        let bytes : stdout' ≡ stdout = cc in
        let raw = trim_space (m.text_of stdout') in
        rw same (rw (← bytes) (checked_report-HasImage target raw (m.unmarshal raw) has)),
  )

  -- The limit on the output is above 0 whatever the runner is made with.
  positive : (fallback : ℕ) (n : ℤ) → 0 < fallback → 0 < positive_or fallback n
  positive fallback (pos zero) h = h
  positive fallback (pos (suc n)) h = omega arith
  positive fallback (negsuc n) h = h

  -- The command that a run starts.
  abbrev pub started : String → ExecRunner → Process
  started bound r =
      m.execute (positive_or default_timeout r.timeout)
        (or_text (env_binary_path m.getenv) r.binary_path) (arguments bound)

  -- What the binary wrote, as the text that is sent to the panel.
  abbrev pub written : Process → String
  written process = trim_space (m.text_of (joined process.chunks))

  -- The command ended well within the limit, and its report has an image.
  abbrev pub Reports : String → ExecRunner → String → Type 0
  Reports bound r text =
      ((started bound r).exit ≡ none)
      × (length (joined (started bound r).chunks) ≤ positive_or default_max_output r.max_output)
      × (text ≡ written (started bound r))
      × HasImage (m.unmarshal (written (started bound r)))

  run_bound_iff :
      (bound : String) (r : ExecRunner) (text : String)
      → (run_bound m bound r ≡ ok text) ↔ Reports bound r text
  unfolding run_bound
  run_bound_iff bound r text =
      let max = positive_or default_max_output r.max_output in
      let target = or_text "default route" bound in
      let timeout = positive_or default_timeout r.timeout in
      let process = started bound r in
      let ends =
        finished_iff target timeout process.expired (exec_output m.digits_of process max) text in
      let exact = λ (content : Bytes).
        exec_output_iff m.digits_of process max content
          (positive default_max_output r.max_output (omega arith)) in
      (
        λ h.
            let (stdout, out, same, has) = ends.0 h in
            let (ended, whole, fits) = (exact stdout).0 out in
            (ended, fits, rw (← whole) same, rw (← whole) has),
        λ (ended, fits, same, has). ends.1 (
          joined process.chunks,
          (exact (joined process.chunks)).1 (ended, refl, fits),
          same,
          has,
        ),
      )

  guarded_iff :
      (bound : String) (r : ExecRunner) (text : String)
      → ((guarded m bound (begin r)).0 ≡ ok text) ↔ ((r.is_running ≡ false) × Reports bound r text)
  unfolding begin
  guarded_iff bound r text = elim (Bool-cases r.is_running) [
    | inl e ↦ simp e (λ h. cc, λ (free, reports). cc)
    | inr e ↦ simp e (
      λ h. (refl, (run_bound_iff bound _ text).0 h),
      λ (free, reports). (run_bound_iff bound _ text).1 reports,
    )
  ]

  run_to_iff :
      (to : Result String) (r : ExecRunner) (text : String)
      → ((run_to m to r).0 ≡ ok text)
        ↔ ((bound : String) × (to ≡ ok bound) × (r.is_running ≡ false) × Reports bound r text)
  run_to_iff (err e) r text = (λ h. cc, λ (bound, h, free, reports). cc)
  run_to_iff (ok to) r text =
      let (there, back) = guarded_iff to r text in
      (
        λ h. let (free, reports) = there h in (to, refl, free, reports),
        λ (bound, h, free, reports).
            let same : bound ≡ to = cc in back (free, subst (λ b. Reports b r text) same reports),
      )

  -- A run has a report exactly when no other run is in progress, the address is empty or valid, the
  -- command ends without an error and within the limit on its output, and the report that it wrote has
  -- an image with content; the report is then all that the command wrote, without the space around it.
  pub run_iff :
      (request : Request) (r : ExecRunner) (text : String)
      → ((run m request r).0 ≡ ok text) ↔ (
          (bound : String) × (bind_to m request ≡ ok bound)
          × (r.is_running ≡ false)
          × Reports bound r text)
  unfolding run
  run_iff request r text = run_to_iff (bind_to m request) r text

  released : (bound : String) (r : ExecRunner) → (guarded m bound (begin r)).1 ≡ r
  unfolding begin end
  released bound r = elim (Bool-cases r.is_running) [
    | inl e ↦ simp e refl
    | inr e ↦ simp e (λ i. record r { is_running = sym e i })
  ]

  run_to_keeps : (to : Result String) (r : ExecRunner) → (run_to m to r).1 ≡ r
  run_to_keeps (err e) r = refl
  run_to_keeps (ok bound) r = released bound r

  -- A run leaves the runner as it found it, on every path: the guard is free again after a run that
  -- took it, and is still held when another run holds it.
  pub run_keeps : (request : Request) (r : ExecRunner) → (run m request r).1 ≡ r
  unfolding run
  run_keeps request r = run_to_keeps (bind_to m request) r
