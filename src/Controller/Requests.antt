-- ===== src/Controller/Requests.antt =====
-- internal/contracts/handler.go and the generic response of internal/contracts/errors.go.
use rw_node_go.Common.{Bool, Option, String, List}
use rw_node_go.Common.{ℤ}

pub record UserInboundData : Type 0 where
  pub type : String
  pub tag : String
  pub username : String
  pub password : String
  pub uuid : String
  pub flow : String
  pub cipher_type : ℤ
  pub iv_check : Bool

pub record UserHashData : Type 0 where
  pub vless_uuid : String
  pub prev_vless_uuid : Option String

pub record AddUserRequest : Type 0 where
  pub items : List UserInboundData
  pub hash_data : UserHashData

pub record BulkUserInboundData : Type 0 where
  pub type : String
  pub tag : String
  pub flow : String

pub record BulkUserData : Type 0 where
  pub user_id : String
  pub hash_uuid : String
  pub vless_uuid : String
  pub trojan_password : String
  pub ss_password : String

pub record BulkUserRequest : Type 0 where
  pub inbound_data : List BulkUserInboundData
  pub user_data : BulkUserData

pub record AddUsersRequest : Type 0 where
  pub affected_inbound_tags : List String
  pub users : List BulkUserRequest

pub record RemoveUserRequest : Type 0 where
  pub username : String
  pub hash_data : UserHashData

pub record RemoveUsersItem : Type 0 where
  pub user_id : String
  pub hash_uuid : String

pub record GenericResponse : Type 0 where
  pub success : Bool
  pub error : Option String
