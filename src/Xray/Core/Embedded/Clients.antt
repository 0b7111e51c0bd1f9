-- ===== src/Xray/Core/Embedded/Clients.antt =====
-- The handler client of `EmbeddedCore` and its query of online addresses.
use Prim.Native.String.{◌++◌}
use rw_node_go.Common.{Bool, Option, none, some, String, List, [], Result, ok, err, sort, text_le}
use rw_node_go.Xray.Core.Types.{IpLastSeen}
use rw_node_go.Xray.StatNames.{stats_user_online}
use rw_node_go.Xray.Users.{UserSpec, ProtocolUser, build_protocol_user}
use rw_node_go.Xray.Core.Embedded.{
  Library, Managed, no_feature, wrong_feature, no_users, no_dynamic_users, no_inbound, managed,
  EmbeddedCore,
}

-- `%q` puts a tag in quotes.
abbrev quoted : String → String
quoted tag = "\"" ++ (tag ++ "\"")

module _ (l : Library) where
  open l use {
    Instance, Manager, MemoryUser, manager_of, to_memory_user, manager_add_user,
    manager_remove_user, has_stats_manager, online_map,
  }

  abbrev checked : String → Managed Manager → Result Manager
  checked tag no_feature = err "xray inbound manager is unavailable"
  checked tag wrong_feature = err "xray inbound manager has unexpected type"
  checked tag (no_inbound e) = err ("xray inbound " ++ (quoted tag ++ (" is unavailable: " ++ e)))
  checked tag no_users = err ("xray inbound " ++ (quoted tag ++ " does not expose users"))
  checked tag no_dynamic_users =
      err ("xray inbound " ++ (quoted tag ++ " does not support dynamic users"))
  checked tag (managed m) = ok m

  -- The call of the library on the instance, which it may change.
  abbrev added : String → Option String × Instance → EmbeddedCore l → Option String × EmbeddedCore l
  added tag (none, i) c = (none, record c { instance_of = some i })
  added tag (some e, i) c = (
    some ("xray handler add user to inbound " ++ (quoted tag ++ (": " ++ e))),
    record c { instance_of = some i },
  )

  abbrev removed :
      String → Option String × Instance → EmbeddedCore l → Option String × EmbeddedCore l
  removed tag (none, i) c = (none, record c { instance_of = some i })
  removed tag (some e, i) c = (
    some ("xray handler remove user from inbound " ++ (quoted tag ++ (": " ++ e))),
    record c { instance_of = some i },
  )

  unfoldable pub add_converted :
      UserSpec
      → Result MemoryUser
      → Manager
      → Instance
      → EmbeddedCore l
      → Option String × EmbeddedCore l
  add_converted spec (err e) m i c =
      (some ("convert xray user " ++ (quoted spec.username ++ (": " ++ e))), c)
  add_converted spec (ok user) m i c = added spec.tag (manager_add_user m user i) c

  unfoldable pub add_built :
      UserSpec
      → Result ProtocolUser
      → Manager
      → Instance
      → EmbeddedCore l
      → Option String × EmbeddedCore l
  unfolding add_converted
  add_built spec (err e) m i c = (some e, c)
  add_built spec (ok user) m i c = add_converted spec (to_memory_user user) m i c

  unfoldable pub add_managed :
      UserSpec → Result Manager → Instance → EmbeddedCore l → Option String × EmbeddedCore l
  unfolding add_built build_protocol_user
  add_managed spec (err e) i c = (some e, c)
  add_managed spec (ok m) i c = add_built spec (build_protocol_user spec) m i c

  abbrev add_at : UserSpec → Option Instance → EmbeddedCore l → Option String × EmbeddedCore l
  add_at spec none c = (some "xray is not running", c)
  add_at spec (some i) c = add_managed spec (checked spec.tag (manager_of spec.tag i)) i c

  unfoldable pub add_user : UserSpec → EmbeddedCore l → Option String × EmbeddedCore l
  unfolding add_managed
  add_user spec c = add_at spec c.instance_of c

  abbrev remove_managed :
      String → String → Result Manager → Instance → EmbeddedCore l → Option String × EmbeddedCore l
  remove_managed tag username (err e) i c = (some e, c)
  remove_managed tag username (ok m) i c = removed tag (manager_remove_user m username i) c

  abbrev remove_at :
      String → String → Option Instance → EmbeddedCore l → Option String × EmbeddedCore l
  remove_at tag username none c = (some "xray is not running", c)
  remove_at tag username (some i) c =
      remove_managed tag username (checked tag (manager_of tag i)) i c

  unfoldable pub remove_user : String → String → EmbeddedCore l → Option String × EmbeddedCore l
  remove_user tag username c = remove_at tag username c.instance_of c

  -- onlineIPLastSeen: a nil map has no addresses; the others are listed by address.
  abbrev ip_le : IpLastSeen → IpLastSeen → Bool
  ip_le a b = text_le a.ip b.ip

  abbrev pub online_ips : Option (List IpLastSeen) → List IpLastSeen
  online_ips none = []
  online_ips (some ips) = sort ip_le ips

  abbrev online_managed : String → Option String → Instance → Result (List IpLastSeen)
  online_managed username (some e) i = err e
  online_managed username none i = ok (online_ips (online_map (stats_user_online username) i))

  abbrev online_at : String → Option Instance → Result (List IpLastSeen)
  online_at username none = err "xray is not running"
  online_at username (some i) = online_managed username (has_stats_manager i) i

  -- The `reset` of UserIPList is not used.
  unfoldable pub user_ip_list : String → Bool → EmbeddedCore l → Result (List IpLastSeen)
  user_ip_list username reset c = online_at username c.instance_of
