-- ===== src/System/Sampler/Bounded.antt =====
-- The rates of the sampler of internal/system/stats.go, over any sequence of ticks.
use rw_node_go.Common.{
  ℕ, ◌-◌, ◌≤◌, ◌<◌, true, ◌&&◌, ◌≡◌, refl, ◌≢◌, String, List, [], ◌∷◌, ltb, ◌==◌, eq_iff, eq_refl,
  Option, none, some, Result, ok, err, arith, Bool-cases, inl, inr,
}
use rw_node_go.System.Sampler.{
  Counter, CounterSample, NetworkInterface, NetworkSampler, Rate, not_positive, at_least_max,
  truncated, Reading, find_counter, clear, rate_value, per_second, measured, record_counter,
  with_counters, with_interface, sample, run, snapshot, max_uint64,
}

-- What is shown has a reading behind it, and rates that fit into 64 bits.
abbrev pub IsShown : Option CounterSample → Option NetworkInterface → Type 0
IsShown previous none = Unit
IsShown none (some shown) = ⊥
IsShown (some p) (some shown) =
    (shown.rx_bytes_per_sec ≤ max_uint64) × (shown.tx_bytes_per_sec ≤ max_uint64)

abbrev pub IsSampled : NetworkSampler → Type 0
IsSampled s = IsShown s.previous s.current

module _ (divide : ℕ → ℕ → Rate)
    (divide_below : (d t n : ℕ) → divide d t ≡ truncated n → n ≤ max_uint64) where
  rate_value_le :
      (r : Rate) → ((n : ℕ) → r ≡ truncated n → n ≤ max_uint64) → rate_value r ≤ max_uint64
  rate_value_le not_positive h = omega arith
  rate_value_le at_least_max h = omega arith
  rate_value_le (truncated n) h = h n refl

  -- A rate fits into 64 bits.
  per_second_le :
      (current previous elapsed : ℕ) → per_second divide current previous elapsed ≤ max_uint64
  unfolding per_second
  per_second_le current previous elapsed =
      let quotient = divide (current - previous) elapsed in
      ground (arith, rate_value_le quotient (divide_below (current - previous) elapsed))

  kept :
      (reading p : CounterSample) (current : Option NetworkInterface)
      → IsShown (some p) current
      → IsShown (some reading) current
  kept reading p none h = tt
  kept reading p (some c) h = h

  measured-IsShown :
      (reading : CounterSample) (previous : Option CounterSample)
      (current : Option NetworkInterface)
      → IsShown previous current
      → IsShown (some reading) (measured divide reading previous current)
  unfolding measured
  measured-IsShown reading none none h = tt
  measured-IsShown reading none (some c) h = elim h [ ]
  measured-IsShown reading (some p) current h =
      elim (Bool-cases (p.iface == reading.iface && ltb p.at reading.at)) [
        | inl e ↦ rw e (
          per_second_le reading.rx p.rx (reading.at - p.at),
          per_second_le reading.tx p.tx (reading.at - p.at),
        )
        | inr e ↦ rw e (kept reading p current h)
      ]

  record_counter-IsSampled :
      (iface : String) (now : ℕ) (found : Option Counter) (s : NetworkSampler)
      → IsSampled s
      → IsSampled (record_counter divide iface now found s)
  unfolding record_counter clear
  record_counter-IsSampled iface now none s h = tt
  record_counter-IsSampled iface now (some counter) s h =
      measured-IsShown
        (record { iface = iface; rx = counter.bytes_recv; tx = counter.bytes_sent; at = now })
        s.previous s.current h

  with_counters-IsSampled :
      (iface : String) (now : ℕ) (counters : Result (List Counter)) (s : NetworkSampler)
      → IsSampled s
      → IsSampled (with_counters divide iface now counters s)
  unfolding clear
  with_counters-IsSampled iface now (err e) s h = tt
  with_counters-IsSampled iface now (ok counters) s h =
      record_counter-IsSampled iface now (find_counter counters iface) s h

  with_interface-IsSampled :
      (found : Result String) (r : Reading) (s : NetworkSampler)
      → IsSampled s
      → IsSampled (with_interface divide found r s)
  unfolding clear
  with_interface-IsSampled (err e) r s h = tt
  with_interface-IsSampled (ok iface) r s h = elim (Bool-cases (iface == "")) [
    | inl e ↦ rw e tt
    | inr e ↦ rw e (with_counters-IsSampled iface r.now r.counters s h)
  ]

  -- After any ticks, what a snapshot shows has a reading behind it and rates that fit into 64 bits.
  pub run-IsSampled :
      (readings : List Reading) (s : NetworkSampler)
      → IsSampled s
      → IsSampled (run divide readings s)
  unfolding run sample
  run-IsSampled [] s h = h
  run-IsSampled (r ∷ readings) s h =
      run-IsSampled readings (sample divide r s)
        (with_interface-IsSampled r.default_interface r s h)

module _ (divide : ℕ → ℕ → Rate) where
  sample_found :
      (iface : String) (counters : List Counter) (now : ℕ) (counter : Counter) (s : NetworkSampler)
      → iface ≢ ""
      → find_counter counters iface ≡ some counter
      → sample divide (record { default_interface = ok iface; counters = ok counters; now = now }) s
        ≡ record_counter divide iface now (some counter) s
  unfolding sample
  sample_found iface counters now counter s h found = elim (Bool-cases (iface == "")) [
    | inl e ↦ elim (h (ground (arith, eq_iff iface ""))) [ ]
    | inr e ↦ simp (e, found) refl
  ]

  -- Two ticks with the same interface and a clock that advances show the totals of the second and
  -- the rates between the two, whatever was held before.
  pub sample_twice :
      (iface : String) (first second : List Counter) (start end : ℕ) (a b : Counter)
      (s : NetworkSampler)
      → iface ≢ ""
      → find_counter first iface ≡ some a
      → find_counter second iface ≡ some b
      → start < end
      → snapshot (
          sample divide
            (record { default_interface = ok iface; counters = ok second; now = end })
            (sample divide
              (record { default_interface = ok iface; counters = ok first; now = start })
              s))
        ≡ some record {
          interface = iface;
          rx_bytes_per_sec = per_second divide b.bytes_recv a.bytes_recv (end - start);
          tx_bytes_per_sec = per_second divide b.bytes_sent a.bytes_sent (end - start);
          rx_total = b.bytes_recv;
          tx_total = b.bytes_sent;
        }
  unfolding snapshot record_counter measured
  sample_twice iface first second start end a b s h fa fb later =
      rw (sample_found iface first start a s h fa) (
        rw (sample_found iface second end b (record_counter divide iface start (some a) s) h fb) (
          let advances : (iface == iface && ltb start end) ≡ true = ground (arith, eq_refl iface) in
          rw advances refl))
