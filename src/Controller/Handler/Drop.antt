-- ===== src/Controller/Handler/Drop.antt =====
-- DropUsersConnections, DropIPs and the lookup of a user's addresses, of
-- internal/controller/handler_controller.go.
use rw_node_go.Common.{
  Bool, true, false, ◌&&◌, Option, none, some, String, List, [], ◌∷◌, map, Result, ok, err,
  is_empty, if◌then◌else◌,
}
use rw_node_go.Xray.Core.{Core}
use rw_node_go.Xray.Core.Types.{IpLastSeen, DropOutcome, dropped, unavailable, failed}
use rw_node_go.Controller.Handler.{succeeded, stats_client}

module _ (core : Core) where
  open core use {World, user_ip_list, drop_ip}

  -- dropConnectionIP: an unavailable conntrack is no error. The dropper is never nil here.
  abbrev pub drop_error : DropOutcome → Option String
  drop_error dropped = none
  drop_error unavailable = none
  drop_error (failed e) = some e

  unfoldable pub drop_connection_ip : String → World → Option String × World
  drop_connection_ip ip w = let (o, w') = drop_ip ip w in (drop_error o, w')

  -- The loops over addresses. The Boolean is `success`; AddUser only logs it.
  unfoldable pub drop_all : List String → Bool → World → Bool × World
  unfolding drop_connection_ip
  drop_all [] success w = (success, w)
  drop_all (ip ∷ ips) success w =
      let (e, w') = drop_connection_ip ip w in drop_all ips (succeeded e && success) w'

  abbrev pub ips_of : Result (List IpLastSeen) → List String
  ips_of (err e) = []
  ips_of (ok ips) = map (λ i. i.ip) ips

  abbrev pub ips_with : Option String → String → World → List String × World
  ips_with (some e) username w = ([], w)
  ips_with none username w = let (r, w') = user_ip_list username true w in (ips_of r, w')

  unfoldable pub current_user_ips : String → World → List String × World
  unfolding stats_client
  current_user_ips username w = ips_with (stats_client core w) username w

  -- A user whose addresses cannot be read is passed over.
  unfoldable pub drop_users : List String → Bool → World → Bool × World
  unfolding drop_all
  drop_users [] success w = (success, w)
  drop_users (u ∷ us) success w =
      let (r, w') = user_ip_list u true w in
      let (success', w'') = drop_all (ips_of r) success w' in drop_users us success' w''

  abbrev pub drop_users_with : Option String → List String → World → Bool × World
  drop_users_with (some e) us w = (true, w)
  drop_users_with none us w = drop_users us true w

  unfoldable pub drop_users_connections : Result (List String) → World → Bool × World
  unfolding drop_users stats_client
  drop_users_connections (err e) w = (false, w)
  drop_users_connections (ok us) w =
      if is_empty us then (false, w) else drop_users_with (stats_client core w) us w

  unfoldable pub drop_ips : Result (List String) → World → Bool × World
  unfolding drop_all
  drop_ips (err e) w = (false, w)
  drop_ips (ok ips) w = if is_empty ips then (false, w) else drop_all ips true w
