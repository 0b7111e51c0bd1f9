-- ===== src/Xray/Users.antt =====
-- internal/xray/users.go and internal/xray/handler.go: protocol accounts from user specifications.
-- The Go switch is on a string, so any text may stand as a protocol.
use rw_node_go.Common.{String, List, [], ◌∷◌, ◌==◌, if◌then◌else◌, Result, ok, err, ◌>>=◌}
use rw_node_go.Common.{ℤ}
use Prim.Native.String.{◌++◌}

abbrev pub protocol_vless : String
protocol_vless = "vless"

abbrev pub protocol_trojan : String
protocol_trojan = "trojan"

abbrev pub protocol_shadowsocks : String
protocol_shadowsocks = "shadowsocks"

abbrev pub protocol_shadowsocks22 : String
protocol_shadowsocks22 = "shadowsocks22"

abbrev pub protocol_hysteria : String
protocol_hysteria = "hysteria"

pub record UserSpec : Type 0 where
  pub protocol : String
  pub tag : String
  pub username : String
  pub password : String
  pub uuid : String
  pub flow : String
  pub cipher_type : ℤ
  pub key : String

-- The account messages of xray-core that the switch fills, with the fields that it sets.
pub data Account : Type 0 where
  vless : String → String → Account
  trojan : String → Account
  shadowsocks : String → ℤ → Account
  shadowsocks2022 : String → Account
  hysteria : String → Account

-- protocol.User; `Level` is always 0.
pub record ProtocolUser : Type 0 where
  pub email : String
  pub account : Account

unfoldable pub first_non_empty : List String → String
first_non_empty [] = ""
first_non_empty (value ∷ values) =
    let rest = first_non_empty values in if value == "" then rest else value

-- The switch. The assertion to proto.Message after it holds of every account.
unfoldable pub account_of : UserSpec → Result Account
unfolding first_non_empty
account_of spec =
    if spec.protocol == protocol_vless
    then ok (Account.vless spec.uuid spec.flow)
    else if spec.protocol == protocol_trojan
    then ok (Account.trojan spec.password)
    else if spec.protocol == protocol_shadowsocks
    then ok (Account.shadowsocks spec.password spec.cipher_type)
    else if spec.protocol == protocol_shadowsocks22
    then ok (Account.shadowsocks2022 (first_non_empty (spec.key ∷ spec.password ∷ [])))
    else if spec.protocol == protocol_hysteria
    then ok (Account.hysteria (first_non_empty (spec.password ∷ spec.uuid ∷ [])))
    else err ("unsupported xray user protocol " ++ spec.protocol)

unfoldable pub build_protocol_user : UserSpec → Result ProtocolUser
unfolding account_of
build_protocol_user spec =
    if spec.username == ""
    then err "xray user username is empty"
    else account_of spec >>= λ account. ok (record { email = spec.username; account = account })
