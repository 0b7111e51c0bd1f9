-- ===== src/Xray/Core/Embedded/Lifecycle.antt =====
-- Starting and stopping: when the core runs, and that no instance is left behind.
use rw_node_go.Common.{
  ◌≡◌, refl, true, false, ◌⊎◌, none, some, String, arith, ℕ, ◌+◌, List, [], ◌∷◌, if◌then◌else◌,
  ◌&&◌, nat_eq, ltb,
}
use rw_node_go.Xray.Core.Embedded
use rw_node_go.Xray.Core.Embedded.{
  Library, EmbeddedCore, Event, created, closed, close_after_start, StartOutcome, ready, failed,
  timed_out,
}

abbrev opened_by : ℕ → Event → ℕ
opened_by k (created j) = if nat_eq j k then 1 else 0
opened_by k _ = 0

abbrev closed_by : ℕ → Event → ℕ
closed_by k (created j) = 0
closed_by k (closed j) = if nat_eq j k then 1 else 0
closed_by k (close_after_start j) = if nat_eq j k then 1 else 0

-- How often the instance k was created, and how often it was closed or is closed after its start.
unfoldable pub created_count : ℕ → List Event → ℕ
created_count k [] = 0
created_count k (e ∷ es) = opened_by k e + created_count k es

unfoldable pub closed_count : ℕ → List Event → ℕ
closed_count k [] = 0
closed_count k (e ∷ es) = closed_by k e + closed_count k es

module _ (l : Library) where
  -- 1 for the instance that the core holds.
  abbrev pub held : ℕ → EmbeddedCore l → ℕ
  held k c = if Embedded.is_some l c.instance_of && nat_eq c.pointer k then 1 else 0

  -- Each instance that was made was made once, and either it has been closed, once, or it is the one
  -- that the core holds, and then it has not been closed; no other is closed or held.
  pub record IsAccounted (c : EmbeddedCore l) : Type 0 where
    pub made : (k : ℕ) → created_count k c.events ≡ (if ltb k c.next then 1 else 0)
    pub balance : (k : ℕ) → created_count k c.events ≡ closed_count k c.events + held k c

  new-IsAccounted : IsAccounted (Embedded.new_embedded_core l)
  unfolding Embedded.new_embedded_core created_count closed_count
  new-IsAccounted = record { made = λ k. ground arith; balance = λ k. refl }

  -- Start closes each instance exactly once or holds it, on any path: if each instance that was made
  -- before it was closed once, or is held by the core and not closed, and none twice, so it is after
  -- it, where one whose start is overdue counts as closed, since it is closed once that start returns.
  pub start-IsAccounted :
      (config : String) (now : ℕ) (c : EmbeddedCore l)
      → IsAccounted c
      → IsAccounted (Embedded.start l config now c).1
  unfolding Embedded.start Embedded.create created_count closed_count
  start-IsAccounted config now c h = record {
    made = λ k. ground (arith, h.made k);
    balance = λ k. ground (arith, h.made k, h.balance k, h.made c.next, h.balance c.next);
  }

  -- The same of Stop.
  pub stop-IsAccounted : (c : EmbeddedCore l) → IsAccounted c → IsAccounted (Embedded.stop l c).1
  unfolding Embedded.stop created_count closed_count
  stop-IsAccounted c h = record {
    made = λ k. ground (arith, h.made k);
    balance = λ k. ground (arith, h.balance k);
  }

  pub start_runs :
      (config : String) (now : ℕ) (c : EmbeddedCore l)
      → (Embedded.start l config now c).0 ≡ none
      → Embedded.is_running l (Embedded.start l config now c).1 ≡ true
  unfolding Embedded.start Embedded.is_running
  start_runs config now c h = ground arith

  -- A start that fails leaves the core either as it was or not running.
  pub start_fails :
      (config : String) (now : ℕ) (c : EmbeddedCore l) (e : String)
      → (Embedded.start l config now c).0 ≡ some e
      → ((Embedded.start l config now c).1 ≡ c)
        ⊎ (Embedded.is_running l (Embedded.start l config now c).1 ≡ false)
  unfolding Embedded.start Embedded.is_running
  start_fails config now c e h = ground arith

  pub stop_stops : (c : EmbeddedCore l) → Embedded.is_running l (Embedded.stop l c).1 ≡ false
  unfolding Embedded.stop Embedded.is_running
  stop_stops c = refl

  pub healthy_runs :
      (c : EmbeddedCore l) → Embedded.health l c ≡ none → Embedded.is_running l c ≡ true
  unfolding Embedded.health
  healthy_runs c h = ground arith
