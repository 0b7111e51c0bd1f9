-- ===== src/Controller/Lifecycle/Exclusive.antt =====
-- Requests that run at the same time: startMu of internal/controller/xray_controller.go makes
-- tryBeginStart and endStart one step each; between them any other request may take its steps.
use rw_node_go.Common.{ℕ, suc, ◌≤◌, ◌≡◌, true, false, arith, if◌then◌else◌}
use rw_node_go.Xray.Core.{Core}
use rw_node_go.Controller.Node.{Node}
use rw_node_go.Controller.Lifecycle.{XrayNode, try_begin_start, end_start}

module _ (core : Core) where
  -- The node, and how many Start handlers have passed the guard and not yet ended.
  pub record System : Type 0 where
    pub xray : XrayNode core
    pub starting : ℕ

  -- A handler passes the guard or is turned away; one that passed ends; or any handler, whatever it
  -- is in the middle of, changes the state and the core.
  pub data Step : System → System → Type 0 where
    begin :
        (s : System)
        → (try_begin_start core s.xray).0 ≡ true
        → Step s (record { xray = (try_begin_start core s.xray).1; starting = suc s.starting })
    turn_away :
        (s : System)
        → (try_begin_start core s.xray).0 ≡ false
        → Step s (record { xray = (try_begin_start core s.xray).1; starting = s.starting })
    work : (s : System) (n : Node core) → Step s (record s { xray = record s.xray { node = n } })
    finish :
        (s : System) (others : ℕ)
        → s.starting ≡ suc others
        → Step s (record { xray = end_start core s.xray; starting = others })

  pub data Reaches : System → System → Type 0 where
    here : (s : System) → Reaches s s
    next : (s t u : System) → Step s t → Reaches t u → Reaches s u

  -- The flag is set just while one handler is starting.
  pub record IsGuarded (s : System) : Type 0 where
    pub flag : s.starting ≡ (if s.xray.start_processing then 1 else 0)

  Step-IsGuarded : (s t : System) → Step s t → IsGuarded s → IsGuarded t
  unfolding try_begin_start end_start
  Step-IsGuarded s t (begin _ e) g = record { flag = ground (arith, g.flag) }
  Step-IsGuarded s t (turn_away _ e) g = record { flag = ground (arith, g.flag) }
  Step-IsGuarded s t (work _ n) g = record { flag = g.flag }
  Step-IsGuarded s t (finish _ others e) g = record { flag = ground (arith, g.flag) }

  Reaches-IsGuarded : (s t : System) → Reaches s t → IsGuarded s → IsGuarded t
  Reaches-IsGuarded s t (here _) g = g
  Reaches-IsGuarded s u (next _ t _ step rest) g =
      Reaches-IsGuarded t u rest (Step-IsGuarded s t step g)

  -- However the steps of requests interleave, from a node where no start is under way there is
  -- never more than one Start handler past the guard.
  pub one_start :
      (s t : System)
      → s.xray.start_processing ≡ false
      → s.starting ≡ 0
      → Reaches s t
      → t.starting ≤ 1
  one_start s t p z r =
      let g = Reaches-IsGuarded s t r (record { flag = ground (arith, p, z) }) in
      ground (arith, g.flag)
