-- ===== src/Panel/Ends.antt =====
-- The commands of cmd/panel-integration/main.go end, and what has become of the node when they do.
use mathlib.Core.Path.{sym, subst}
use rw_node_go.Golang.Strings.{trim_space}
use rw_node_go.Common.{
  nat_eq, not, ◌==◌, if_all, ℕ, zero, suc, ◌+◌, ◌≤◌, ◌<◌, ◌≡◌, refl, Bool, Option, none, some,
  String, ltb, arith, Bool-cases, inl, inr,
}
use rw_node_go.Panel.Client.{PanelClient}
use rw_node_go.Panel.Requests.{Tools}
use rw_node_go.Panel.Nodes.{
  is_trimmed_uuid, node_action, NodeStatusSummary, Decoders, get_node_status_summary_by_uuid,
}
use rw_node_go.Panel.Wait.{
  run_command, resolved, waited, acted, Command, Clock, Waited, after_wait, polled, looked_up,
  wait_for_node,
}

-- n polls apart
abbrev pub span : ℕ → ℕ → ℕ
span zero interval = 0
span (suc n) interval = span n interval + interval

module _ {World : Type 0} (t : Tools World) (d : Decoders) (clock : Clock World) where
  -- No lookup turns the clock back, and a wait that is not interrupted takes its time.
  abbrev pub IsSteady : Type 0
  IsSteady =
      ((client : PanelClient) (uuid : String) (w : World)
        → clock.now w ≤ clock.now (get_node_status_summary_by_uuid t d client uuid w).1)
      × ((interval : ℕ) (w : World)
          → (clock.wait interval w).0 ≡ none
          → clock.now w + interval ≤ clock.now (clock.wait interval w).1)

  -- There is a result.
  abbrev pub Ends : Option (Waited × World) → Type 0
  Ends r = (waited : Waited) × (w : World) × (r ≡ some (waited, w))

  after_wait-Ends :
      (again : Option NodeStatusSummary → World → Option (Waited × World))
      (last : Option NodeStatusSummary) (r : Option String × World)
      → (r.0 ≡ none → Ends (again last r.1))
      → Ends (after_wait t d clock again last r)
  after_wait-Ends again last (some e, w) h = (_, w, refl)
  after_wait-Ends again last (none, w) h = h refl

  polled-Ends :
      (interval deadline : ℕ) (matches : NodeStatusSummary → Bool)
      (again : Option NodeStatusSummary → World → Option (Waited × World))
      (current : NodeStatusSummary) (w : World)
      → (clock.now w ≤ deadline
          → (clock.wait interval w).0 ≡ none
          → Ends (again (some current) (clock.wait interval w).1))
      → Ends (polled t d clock interval deadline matches again current w)
  polled-Ends interval deadline matches again current w h = elim (Bool-cases (matches current)) [
    | inl e ↦ rw e (_, w, refl)
    | inr e ↦ elim (Bool-cases (ltb deadline (clock.now w))) [
      | inl k ↦ rw e (rw k (_, w, refl))
      | inr k ↦
          rw e
            (rw k (after_wait-Ends again (some current) (clock.wait interval w) (h (ground arith))))
    ]
  ]

  looked_up-Ends :
      (uuid : String) (interval deadline : ℕ) (matches : NodeStatusSummary → Bool)
      (again : Option NodeStatusSummary → World → Option (Waited × World))
      (last : Option NodeStatusSummary) (failure : Option String) (found : Option NodeStatusSummary)
      (w : World)
      → ((current : NodeStatusSummary)
          → clock.now w ≤ deadline
          → (clock.wait interval w).0 ≡ none
          → Ends (again (some current) (clock.wait interval w).1))
      → Ends (looked_up t d clock uuid interval deadline matches again last failure found w)
  looked_up-Ends uuid interval deadline matches again last (some e) found w h = (_, w, refl)
  looked_up-Ends uuid interval deadline matches again last none none w h = (_, w, refl)
  looked_up-Ends uuid interval deadline matches again last none (some current) w h =
      polled-Ends interval deadline matches again current w (h current)

  -- The wait for a node ends once the polls reach past the deadline: as many polls as intervals up to
  -- the deadline and one more are enough, where the clock runs and the wait between polls takes its
  -- time.
  pub wait_for_node-Ends :
      (n : ℕ) (client : PanelClient) (uuid : String) (interval deadline : ℕ)
      (matches : NodeStatusSummary → Bool) (last : Option NodeStatusSummary) (w : World)
      → IsSteady
      → deadline < clock.now w + span n interval
      → Ends (wait_for_node t d clock (suc n) client uuid interval deadline matches last w)
  unfolding wait_for_node
  wait_for_node-Ends zero client uuid interval deadline matches last w steady late =
      let looked = get_node_status_summary_by_uuid t d client uuid w in
      let forward = steady.0 client uuid w in
      looked_up-Ends uuid interval deadline matches
        (wait_for_node t d clock zero client uuid interval deadline matches) last looked.0.failure
        looked.0.found looked.1
        (λ current early waits. let never : ⊥ = omega arith in elim never [ ])
  wait_for_node-Ends (suc n) client uuid interval deadline matches last w steady late =
      let looked = get_node_status_summary_by_uuid t d client uuid w in
      let forward = steady.0 client uuid w in
      looked_up-Ends uuid interval deadline matches
        (wait_for_node t d clock (suc n) client uuid interval deadline matches) last
        looked.0.failure looked.0.found looked.1
        (λ current early waits.
          let passed = steady.1 interval looked.1 waits in
          wait_for_node-Ends n client uuid interval deadline matches (some current)
            (clock.wait interval looked.1).1 steady (omega arith))

module _ {World : Type 0} (t : Tools World) (d : Decoders) (clock : Clock World)
    (describe : NodeStatusSummary → String) (client : PanelClient) (command : Command) where
  -- The command has ended, with an error or without.
  abbrev pub HasEnded : Option (Option String × World) → Type 0
  HasEnded r = (e : Option String) × (w : World) × (r ≡ some (e, w))

  status-HasEnded :
      (failure : Option String) (current : Option NodeStatusSummary) (w : World)
      → HasEnded (
          waited t d clock describe command
            (some (record { current = current; failure = failure }, w)))
  status-HasEnded none current w = (_, w, refl)
  status-HasEnded (some e) current w = (_, w, refl)

  acted-HasEnded :
      (n : ℕ) (uuid : String) (timeout interval : ℕ) (failure : Option String) (w : World)
      → IsSteady t d clock
      → timeout < span n interval
      → HasEnded (acted t d clock describe (suc n) client command uuid timeout interval failure w)
  acted-HasEnded n uuid timeout interval (some e) w steady soon = (_, w, refl)
  acted-HasEnded n uuid timeout interval none w steady soon =
      let (r, w', same) =
        wait_for_node-Ends t d clock n client uuid interval (clock.now w + timeout) command.matches
          none w steady (omega arith) in
      subst (λ o. HasEnded (waited t d clock describe command o)) (sym same)
        (status-HasEnded r.failure r.current w')

  resolved-HasEnded :
      (n timeout interval : ℕ) (failure : Option String) (found : Option NodeStatusSummary)
      (w : World)
      → IsSteady t d clock
      → timeout < span n interval
      → HasEnded
          (resolved t d clock describe (suc n) client command timeout interval failure found w)
  resolved-HasEnded n timeout interval (some e) found w steady soon = (_, w, refl)
  resolved-HasEnded n timeout interval none none w steady soon = (_, w, refl)
  resolved-HasEnded n timeout interval none (some summary) w steady soon =
      let done = node_action t d client summary.uuid command.action w in
      acted-HasEnded n summary.uuid timeout interval done.0.failure done.1 steady soon

  -- The commands enable and disable end, whatever the panel answers: one poll more than the intervals
  -- that reach past the timeout is enough, where the clock runs and the wait between polls takes its
  -- time.
  pub run_command-HasEnded :
      (n : ℕ) (node : String) (timeout interval : ℕ) (w : World)
      → IsSteady t d clock
      → timeout < span n interval
      → HasEnded (run_command t d clock describe (suc n) client command node timeout interval w)
  unfolding run_command
  run_command-HasEnded n node timeout interval w steady soon =
      let uuid = trim_space node in
      let looked = get_node_status_summary_by_uuid t d client uuid w in
      if_all HasEnded (uuid == "") _ _ (_, w, refl)
        (if_all HasEnded (not (is_trimmed_uuid uuid)) _ _ (_, w, refl)
          (if_all HasEnded (nat_eq interval 0) _ _ (_, w, refl)
            (resolved-HasEnded n timeout interval looked.0.failure looked.0.found looked.1 steady
              soon)))
