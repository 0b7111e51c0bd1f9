-- ===== src/Panel/Reached.antt =====
-- What the panel says of a node when a command of cmd/panel-integration/main.go has gone well.
use rw_node_go.Common.{
  if_all, if_or, ◌||◌, ℕ, zero, suc, ◌≡◌, refl, Bool, true, not, Option, none, some, String, ◌==◌,
  nat_eq, ltb, Bool-cases, inl, inr,
}
use rw_node_go.Golang.Strings.{trim_space}
use rw_node_go.Panel.Client.{PanelClient}
use rw_node_go.Panel.Requests.{Tools}
use rw_node_go.Panel.Nodes.{
  NodeStatusSummary, Decoders, is_trimmed_uuid, get_node_status_summary_by_uuid, node_action,
}
use rw_node_go.Panel.Wait.{
  Clock, Waited, Command, after_wait, polled, looked_up, wait_for_node, waited, acted, resolved,
  run_command,
}

module _ {World : Type 0} (t : Tools World) (d : Decoders) (clock : Clock World) where
  -- The last answer of the panel was this status of the node.
  abbrev pub Seen : PanelClient → String → NodeStatusSummary → World → Type 0
  Seen client uuid current w =
      (before : World) × ((get_node_status_summary_by_uuid t d client uuid before).0.found
        ≡ some current)
      × ((get_node_status_summary_by_uuid t d client uuid before).1 ≡ w)

  module _ (client : PanelClient) (uuid : String) (matches : NodeStatusSummary → Bool) where
    abbrev pub FitsStatus : Option String → Option NodeStatusSummary → World → Type 0
    FitsStatus (some e) current w = Unit
    FitsStatus none none w = ⊥
    FitsStatus none (some current) w = (matches current ≡ true) × Seen client uuid current w

    -- A wait that ends without an error ends with the last answer of the panel, which is a status that
    -- was waited for.
    abbrev pub Fits : Option (Waited × World) → Type 0
    Fits none = Unit
    Fits (some (r, w)) = FitsStatus r.failure r.current w

    after_wait-Fits :
        (again : Option NodeStatusSummary → World → Option (Waited × World))
        (last : Option NodeStatusSummary) (r : Option String × World)
        → ((w : World) → Fits (again last w))
        → Fits (after_wait t d clock again last r)
    after_wait-Fits again last (some e, w) h = tt
    after_wait-Fits again last (none, w) h = h w

    polled-Fits :
        (interval deadline : ℕ) (again : Option NodeStatusSummary → World → Option (Waited × World))
        (current : NodeStatusSummary) (w : World)
        → Seen client uuid current w
        → ((last : Option NodeStatusSummary) (w : World) → Fits (again last w))
        → Fits (polled t d clock interval deadline matches again current w)
    polled-Fits interval deadline again current w seen h = elim (Bool-cases (matches current)) [
      | inl e ↦ rw e (e, seen)
      | inr e ↦ elim (Bool-cases (ltb deadline (clock.now w))) [
        | inl k ↦ rw e (rw k tt)
        | inr k ↦
            rw e (
              rw k
                (after_wait-Fits again (some current) (clock.wait interval w) (h (some current))))
      ]
    ]

    looked_up-Fits :
        (interval deadline : ℕ) (again : Option NodeStatusSummary → World → Option (Waited × World))
        (last : Option NodeStatusSummary) (failure : Option String)
        (found : Option NodeStatusSummary) (w : World)
        → ((current : NodeStatusSummary) → found ≡ some current → Seen client uuid current w)
        → ((last : Option NodeStatusSummary) (w : World) → Fits (again last w))
        → Fits (looked_up t d clock uuid interval deadline matches again last failure found w)
    looked_up-Fits interval deadline again last (some e) found w seen h = tt
    looked_up-Fits interval deadline again last none none w seen h = tt
    looked_up-Fits interval deadline again last none (some current) w seen h =
        polled-Fits interval deadline again current w (seen current refl) h

    pub wait_for_node-Fits :
        (n interval deadline : ℕ) (last : Option NodeStatusSummary) (w : World)
        → Fits (wait_for_node t d clock n client uuid interval deadline matches last w)
    unfolding wait_for_node
    wait_for_node-Fits zero interval deadline last w = tt
    wait_for_node-Fits (suc n) interval deadline last w =
        let looked = get_node_status_summary_by_uuid t d client uuid w in
        looked_up-Fits interval deadline
          (wait_for_node t d clock n client uuid interval deadline matches) last looked.0.failure
          looked.0.found looked.1 (λ current found. (w, found, refl))
          (λ last' w'. wait_for_node-Fits n interval deadline last' w')

module _ {World : Type 0} (t : Tools World) (d : Decoders) (clock : Clock World)
    (describe : NodeStatusSummary → String) (client : PanelClient) (command : Command) where
  -- The command went well on a node: the last answer of the panel about it is a status that the
  -- command waits for.
  abbrev pub Reached : String → Option (Option String × World) → Type 0
  Reached uuid none = Unit
  Reached uuid (some (some e, w)) = Unit
  Reached uuid (some (none, w)) =
      (current : NodeStatusSummary) × (command.matches current ≡ true)
      × Seen t d clock client uuid current w

  -- The command went well on the node that the panel resolved at first, and the panel took the action
  -- on it.
  abbrev pub Aimed : String → World → Option (Option String × World) → Type 0
  Aimed node w none = Unit
  Aimed node w (some (some e, w')) = Unit
  Aimed node w (some (none, w')) =
      (summary : NodeStatusSummary) × ((get_node_status_summary_by_uuid t d client (trim_space node)
          w).0.found
        ≡ some summary)
      × ((node_action t d client summary.uuid command.action
            (get_node_status_summary_by_uuid t d client (trim_space node) w).1).0.failure
          ≡ none)
      × (current : NodeStatusSummary) × (command.matches current ≡ true)
      × Seen t d clock client summary.uuid current w'

  ended-Reached :
      (uuid : String) (failure : Option String) (current : Option NodeStatusSummary) (w : World)
      → FitsStatus t d clock client uuid command.matches failure current w
      → Reached uuid (
          waited t d clock describe command
            (some (record { current = current; failure = failure }, w)))
  ended-Reached uuid (some e) current w h = tt
  ended-Reached uuid none none w h = elim h [ ]
  ended-Reached uuid none (some current) w (same, seen) = (current, same, seen)

  waited-Reached :
      (uuid : String) (r : Option (Waited × World))
      → Fits t d clock client uuid command.matches r
      → Reached uuid (waited t d clock describe command r)
  waited-Reached uuid none h = tt
  waited-Reached uuid (some (r, w)) h = ended-Reached uuid r.failure r.current w h

  module _ (node : String) (w : World) (summary : NodeStatusSummary)
      (found : (get_node_status_summary_by_uuid t d client (trim_space node) w).0.found
        ≡ some summary) where
    Reached-Aimed :
        (r : Option (Option String × World))
        → (node_action t d client summary.uuid command.action
            (get_node_status_summary_by_uuid t d client (trim_space node) w).1).0.failure
          ≡ none
        → Reached summary.uuid r
        → Aimed node w r
    Reached-Aimed none took h = tt
    Reached-Aimed (some (some e, w')) took h = tt
    Reached-Aimed (some (none, w')) took (current, same, seen) =
        (summary, found, took, current, same, seen)

    acted-Aimed :
        (fuel timeout interval : ℕ) (failure : Option String) (w' : World)
        → (node_action t d client summary.uuid command.action
            (get_node_status_summary_by_uuid t d client (trim_space node) w).1).0.failure
          ≡ failure
        → Aimed node w
            (acted t d clock describe fuel client command summary.uuid timeout interval failure w')
    acted-Aimed fuel timeout interval (some e) w' took = tt
    acted-Aimed fuel timeout interval none w' took = Reached-Aimed _ took (
        waited-Reached summary.uuid _ (
          wait_for_node-Fits t d clock client summary.uuid command.matches fuel interval _ none w'))

  resolved-Aimed :
      (fuel timeout interval : ℕ) (node : String) (w : World) (failure : Option String)
      (found : Option NodeStatusSummary)
      → (get_node_status_summary_by_uuid t d client (trim_space node) w).0.found ≡ found
      → Aimed node w (
          resolved t d clock describe fuel client command timeout interval failure found
            (get_node_status_summary_by_uuid t d client (trim_space node) w).1)
  resolved-Aimed fuel timeout interval node w (some e) found h = tt
  resolved-Aimed fuel timeout interval node w none none h = tt
  resolved-Aimed fuel timeout interval node w none (some summary) h =
      let looked = get_node_status_summary_by_uuid t d client (trim_space node) w in
      let done = node_action t d client summary.uuid command.action looked.1 in
      acted-Aimed node w summary h fuel timeout interval done.0.failure done.1 refl

  -- A command that ends without an error has seen its aim: the panel resolved the node of the trimmed
  -- name, it took the action on the UUID of that node without an error, and its last answer about
  -- that same UUID is a status that the command waits for, so the command does not go by the answer
  -- to the action itself.
  pub run_command-Aimed :
      (fuel : ℕ) (node : String) (timeout interval : ℕ) (w : World)
      → Aimed node w (run_command t d clock describe fuel client command node timeout interval w)
  unfolding run_command
  run_command-Aimed fuel node timeout interval w =
      let uuid = trim_space node in
      let looked = get_node_status_summary_by_uuid t d client uuid w in
      let P = Aimed node w in
      if_all P (uuid == "") _ _ tt (
        if_all P (not (is_trimmed_uuid uuid)) _ _ tt (
          if_all P (nat_eq interval 0) _ _ tt
            (resolved-Aimed fuel timeout interval node w looked.0.failure looked.0.found refl)))

  -- Without a full UUID, or with no interval between the polls, a command sends nothing and ends with
  -- an error.
  pub run_command_refuses :
      (fuel : ℕ) (node : String) (timeout interval : ℕ) (w : World)
      → (not (is_trimmed_uuid (trim_space node)) || nat_eq interval 0) ≡ true
      → (e : String) × (run_command t d clock describe fuel client command node timeout interval w
          ≡ some (some e, w))
  unfolding run_command
  run_command_refuses fuel node timeout interval w h =
      let uuid = trim_space node in
      let P = λ (r : Option (Option String × World)). (e : String) × (r ≡ some (some e, w)) in
      if_all P (uuid == "") _ _ (_, refl)
        (if_or P (not (is_trimmed_uuid uuid)) (nat_eq interval 0) _ _ _ h (_, refl) (_, refl))
