-- ===== src/Controller/Stats/Reset.antt =====
-- Reading the users' statistics of the embedded core twice.
use rw_node_go.Common.{
  ◌≡◌, refl, Bool, true, none, some, String, List, [], ok, Option-cases, inl, inr,
}
use rw_node_go.Xray.Stats
use rw_node_go.Xray.Stats.{Counters, Traffic}
use rw_node_go.Xray.Stats.Reset.{users_stats_after_reset}
use rw_node_go.Xray.Core.Types.{DropOutcome}
use rw_node_go.Xray.Core.Embedded
use rw_node_go.Xray.Core.Embedded.{Library, EmbeddedCore}
use rw_node_go.Xray.Core.Embedded.Queries.{StatsLibrary, embedded_stats}
use rw_node_go.Xray.Core.Filled.{EmbeddedWorld, embedded}
use rw_node_go.Controller.Handler.{stats_client}
use rw_node_go.Controller.Stats.{answered, contract_user_traffic_stats, get_users_stats}

-- What is relied on of the manager: counters that were set read what they were set to, and setting
-- them leaves the manager in place.
pub record IsStatsLibrary (l : Library) (s : StatsLibrary l) : Type 0 where
  pub counters-put_counters : (c : Counters) (i : l.Instance) → s.counters (s.put_counters c i) ≡ c
  pub manager_kept :
      (c : Counters) (i : l.Instance)
      → l.has_stats_manager (s.put_counters c i) ≡ l.has_stats_manager i

module _ (l : Library) (s : StatsLibrary l) (drop : String → DropOutcome) where
  -- The second query, on the instance that the first one left.
  query_again :
      (again : Bool) (i : l.Instance) (w : EmbeddedWorld l)
      → IsStatsLibrary l s
      → l.has_stats_manager i ≡ none
      → w.core.instance_of ≡ some (s.put_counters (Stats.users_stats true (s.counters i)).1 i)
      → (get_users_stats (embedded l drop) (embedded_stats l s drop) (ok again) w).0 ≡ answered []
  unfolding get_users_stats stats_client Embedded.is_running contract_user_traffic_stats
  query_again again i w h m e =
      let c = (Stats.users_stats true (s.counters i)).1 in
      simp
        (
          e,
          h.manager_kept c i,
          m,
          h.counters-put_counters c i,
          users_stats_after_reset again (s.counters i),
        )
        refl

  -- If the counters of the manager keep what they are set to, then once GetUsersStats has answered
  -- a request to reset, and as long as nothing comes between, it answers the next one with an empty
  -- list.
  pub users_stats_twice :
      (again : Bool) (w : EmbeddedWorld l) (users : List Traffic)
      → IsStatsLibrary l s
      → (get_users_stats (embedded l drop) (embedded_stats l s drop) (ok true) w).0 ≡ answered users
      → (get_users_stats
          (embedded l drop)
          (embedded_stats l s drop)
          (ok again)
          (get_users_stats (embedded l drop) (embedded_stats l s drop) (ok true) w).1).0
        ≡ answered []
  unfolding get_users_stats stats_client Embedded.is_running
  users_stats_twice again w users h a = elim (Option-cases w.core.instance_of) [
    | inl e ↦ cc (simp e at a)
    | inr (i, e) ↦ elim (Option-cases (l.has_stats_manager i)) [
      | inl m ↦
          query_again again i
            (get_users_stats (embedded l drop) (embedded_stats l s drop) (ok true) w).1 h m
            (simp (e, m) refl)
      | inr (x, m) ↦ cc (simp (e, m) at a)
    ]
  ]
