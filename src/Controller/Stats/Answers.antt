-- ===== src/Controller/Stats/Answers.antt =====
-- What the answers of the statistics handlers contain.
use rw_node_go.Common.{
  ℕ, ◌≡◌, refl, ap, Bool, true, false, ◌&&◌, Option, none, some, String, List, [], ◌∷◌, map, Result,
  ok, err, nat_eq, All, IsSorted, sort-IsSorted, text_le_total, text_le_trans, Bool-cases, inl, inr,
}
use rw_node_go.Xray.Core.{Core}
use rw_node_go.Xray.Core.Stats.{StatsClient, UserIpList}
use rw_node_go.Xray.Stats.{Traffic}
use rw_node_go.Controller.Handler.{stats_client}
use rw_node_go.Controller.Stats.{
  Answer, answered, refused, CombinedStatsResponse, contract_user_traffic_stats, contract_user_ips,
  contract_users_ip_list, user_le, official, or_empty, asked, combined, get_users_stats,
  get_users_ip_list, get_all_inbounds_stats, get_all_outbounds_stats, get_combined_stats,
}

-- The user has traffic in a direction.
abbrev pub HasTraffic : Traffic → Type 0
HasTraffic t = (nat_eq t.uplink 0 && nat_eq t.downlink 0) ≡ false

-- An official error, or an answer of which the predicate holds.
abbrev pub Answers : {A : Type 0} → (A → Type 0) → Answer A → Type 0
Answers P (answered a) = P a
Answers P (refused message code) = Unit

users_HasTraffic : (users : List Traffic) → All HasTraffic (contract_user_traffic_stats users)
unfolding contract_user_traffic_stats
users_HasTraffic [] = tt
users_HasTraffic (user ∷ users) =
    elim (Bool-cases (nat_eq user.uplink 0 && nat_eq user.downlink 0)) [
      | inl e ↦ rw e (users_HasTraffic users)
      | inr e ↦ rw e (e, users_HasTraffic users)
    ]

official-Answers :
    {A B : Type 0} (P : B → Type 0) (message code : String) (view : A → B) (r : Result A)
    → ((a : A) → P (view a))
    → Answers P (official message code view r)
official-Answers P message code view (err e) h = tt
official-Answers P message code view (ok a) h = h a

module _ (core : Core) (stats : StatsClient core) where
  asked-Answers :
      {A B : Type 0} (P : B → Type 0) (client : Option String) (message code : String)
      (view : A → B) (query : core.World → Result A × core.World) (w : core.World)
      → ((a : A) → P (view a))
      → Answers P
          (asked core stats client (refused message code) (official message code view) query w).0
  asked-Answers P (some e) message code view query w h = tt
  asked-Answers P none message code view query w h =
      official-Answers P message code view (query w).0 h

  -- Every user that GetUsersStats lists has traffic, whatever the client found.
  pub users_stats-HasTraffic :
      (r : Result Bool) (w : core.World)
      → Answers (All HasTraffic) (get_users_stats core stats r w).0
  unfolding get_users_stats
  users_stats-HasTraffic (err e) w = tt
  users_stats-HasTraffic (ok reset) w =
      asked-Answers (All HasTraffic) (stats_client core w) "Failed to get users stats" "A011"
        contract_user_traffic_stats (stats.users_stats reset) w users_HasTraffic

  asked-IsSorted :
      (format_time : ℕ → String) (client : Option String) (w : core.World)
      → IsSorted user_le
          (asked core stats client []
            (or_empty [] (contract_users_ip_list format_time))
            (stats.users_ip_list true)
            w).0
  unfolding contract_users_ip_list
  asked-IsSorted format_time (some e) w = tt
  asked-IsSorted format_time none w = of_result (stats.users_ip_list true w).0
    where
      of_result :
          (r : Result (List UserIpList))
          → IsSorted user_le (or_empty [] (contract_users_ip_list format_time) r)
      of_result (err e) = tt
      of_result (ok users) =
          sort-IsSorted user_le (λ a b. text_le_total a.user_id b.user_id)
            (λ a b c. text_le_trans a.user_id b.user_id c.user_id)
            (map (contract_user_ips format_time) users)

  -- GetUsersIPList lists its users in the order of their ids, whatever the order of the client.
  pub users_ip_list-IsSorted :
      (format_time : ℕ → String) (w : core.World)
      → IsSorted user_le (get_users_ip_list core stats format_time w).0
  unfolding get_users_ip_list
  users_ip_list-IsSorted format_time w = asked-IsSorted format_time (stats_client core w) w

  -- The answer that the two separate queries make together.
  abbrev pub both : Answer (List Traffic) → Answer (List Traffic) → Answer CombinedStatsResponse
  both (answered inbounds) (answered outbounds) =
      answered (record { inbounds = inbounds; outbounds = outbounds })
  both _ _ = refused "Failed to get combined stats" "A017"

  combined-both :
      (i o : Result (List Traffic))
      → combined core stats i o
        ≡ both
            (official "Failed to get inbounds stats" "A015" (λ t. t) i)
            (official "Failed to get outbounds stats" "A016" (λ t. t) o)
  combined-both (ok i) (ok o) = refl
  combined-both (ok i) (err e) = refl
  combined-both (err e) (ok o) = refl
  combined-both (err e) (err f) = refl

  -- As long as there is a client, GetCombinedStats is GetAllInboundsStats followed by
  -- GetAllOutboundsStats: the same changes to the counters, and both lists if both are answered,
  -- else an error, also where the counters of one were reset.
  pub combined_stats_lem :
      (reset : Bool) (w : core.World)
      → stats_client core w ≡ none
      → stats_client core (get_all_inbounds_stats core stats (ok reset) w).1 ≡ none
      → let (inbounds, w1) = get_all_inbounds_stats core stats (ok reset) w in
        let (outbounds, w2) = get_all_outbounds_stats core stats (ok reset) w1 in
        get_combined_stats core stats (ok reset) w ≡ (both inbounds outbounds, w2)
  unfolding get_combined_stats get_all_inbounds_stats get_all_outbounds_stats
  combined_stats_lem reset w c d =
      simp (c, (simp c at d))
        (ap (λ a. (a, (stats.all_outbound_stats reset (stats.all_inbound_stats reset w).1).1))
          (combined-both (stats.all_inbound_stats reset w).0
            (stats.all_outbound_stats reset (stats.all_inbound_stats reset w).1).0))
