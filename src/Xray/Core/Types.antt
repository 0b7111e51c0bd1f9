-- ===== src/Xray/Core/Types.antt =====
-- What the stats client and the connection dropper answer.
use rw_node_go.Common.{ℕ, String}

pub record IpLastSeen : Type 0 where
  pub ip : String
  pub last_seen : ℕ

-- DropIP: done, `ErrConntrackUnavailable`, or another error.
pub data DropOutcome : Type 0 where
  dropped unavailable : DropOutcome
  failed : String → DropOutcome
