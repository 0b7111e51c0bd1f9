-- ===== src/System/Sampler.antt =====
-- NetworkSampler of internal/system/stats.go: what one tick does to the two readings that the
-- sampler holds, and what Snapshot shows. Each tick and each snapshot is one step, under the lock.
pub mod Bounded
use rw_node_go.Common.{
  ℕ, ◌-◌, ◌&&◌, String, List, [], ◌∷◌, ltb, ◌==◌, if◌then◌else◌, Option, none, some, Result, ok,
  err,
}

-- math.MaxUint64
abbrev pub max_uint64 : ℕ
max_uint64 = 18446744073709551615

-- gopsutil's IOCountersStat, as far as it is read.
pub record Counter : Type 0 where
  pub name : String
  pub bytes_recv : ℕ
  pub bytes_sent : ℕ

pub record CounterSample : Type 0 where
  pub iface : String
  pub rx : ℕ
  pub tx : ℕ
  pub at : ℕ

-- contracts.NetworkInterface
pub record NetworkInterface : Type 0 where
  pub interface : String
  pub rx_bytes_per_sec : ℕ
  pub tx_bytes_per_sec : ℕ
  pub rx_total : ℕ
  pub tx_total : ℕ

pub record NetworkSampler : Type 0 where
  pub previous : Option CounterSample
  pub current : Option NetworkInterface

-- A float64 beside 0 and beside 2 ^ 64: between them it is truncated.
pub data Rate : Type 0 where
  not_positive : Rate
  at_least_max : Rate
  truncated : ℕ → Rate

-- What a tick reads: the default interface, the counters and the clock.
pub record Reading : Type 0 where
  pub default_interface : Result String
  pub counters : Result (List Counter)
  pub now : ℕ

unfoldable pub find_counter : List Counter → String → Option Counter
find_counter [] iface = none
find_counter (counter ∷ counters) iface =
    let later = find_counter counters iface in if counter.name == iface then some counter else later

unfoldable pub clear : NetworkSampler → NetworkSampler
clear s = record { previous = none; current = none }

abbrev pub rate_value : Rate → ℕ
rate_value not_positive = 0
rate_value at_least_max = max_uint64
rate_value (truncated n) = n

-- `divide d t` is the float64 of d bytes in t nanoseconds, per second.
module _ (divide : ℕ → ℕ → Rate) where
  unfoldable pub per_second : ℕ → ℕ → ℕ → ℕ
  per_second current previous elapsed =
      if ltb current previous then 0 else rate_value (divide (current - previous) elapsed)

  -- The reading beside the previous one.
  unfoldable pub measured :
      CounterSample → Option CounterSample → Option NetworkInterface → Option NetworkInterface
  unfolding per_second
  measured reading none current = current
  measured reading (some previous) current =
      let elapsed = reading.at - previous.at in
      if previous.iface == reading.iface && ltb previous.at reading.at
      then some record {
        interface = reading.iface;
        rx_bytes_per_sec = per_second reading.rx previous.rx elapsed;
        tx_bytes_per_sec = per_second reading.tx previous.tx elapsed;
        rx_total = reading.rx;
        tx_total = reading.tx;
      }
      else current

  unfoldable pub record_counter : String → ℕ → Option Counter → NetworkSampler → NetworkSampler
  unfolding clear measured
  record_counter iface now none s = clear s
  record_counter iface now (some counter) s =
      let reading : CounterSample = record {
        iface = iface;
        rx = counter.bytes_recv;
        tx = counter.bytes_sent;
        at = now;
      } in
      record { previous = some reading; current = measured reading s.previous s.current }

  abbrev pub with_counters : String → ℕ → Result (List Counter) → NetworkSampler → NetworkSampler
  with_counters iface now (err e) s = clear s
  with_counters iface now (ok counters) s = record_counter iface now (find_counter counters iface) s

  abbrev pub with_interface : Result String → Reading → NetworkSampler → NetworkSampler
  with_interface (err e) r s = clear s
  with_interface (ok iface) r s =
      if iface == "" then clear s else with_counters iface r.now r.counters s

  unfoldable pub sample : Reading → NetworkSampler → NetworkSampler
  unfolding find_counter record_counter
  sample r s = with_interface r.default_interface r s

  -- The ticks of the loop `run`, after the first sample that NewNetworkSampler takes.
  unfoldable pub run : List Reading → NetworkSampler → NetworkSampler
  unfolding sample
  run [] s = s
  run (r ∷ readings) s = run readings (sample r s)

unfoldable pub snapshot : NetworkSampler → Option NetworkInterface
snapshot s = s.current
