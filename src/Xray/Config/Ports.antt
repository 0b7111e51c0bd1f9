-- ===== src/Xray/Config/Ports.antt =====
-- The listening ports of the hysteria inbounds.
use rw_node_go.Common.{
  arith, ℕ, suc, nat_eq, ◌∙◌, ◌≡◌, refl, true, false, Option, none, some, String, ok, ◌==◌, ◌&&◌,
  Bool, if◌then◌else◌,
}
use rw_node_go.Json.{
  Value, Items, nil, cons, arr, obj, int, Fields, get, put, get-put, as_array, is_text,
}
use rw_node_go.Xray.Config.{
  ConfigBuilder, ensure_array, set_ports, apply_hysteria_listen_port, write_inbounds, instrument,
  build,
}
use rw_node_go.Xray.Config.Tags.{build-ok}

-- How an inbound of the panel and the inbound at its place in the result compare, key by key.
abbrev SameButPort : ℕ → Value → Value → Type 0
SameButPort port (obj given) (obj kept) =
    (k : String)
    → get k kept ≡ (
        if is_text (get "protocol" given) "hysteria" && "port" == k
        then some (int port)
        else get k given)
SameButPort port v w = w ≡ v

abbrev pub Ported : ℕ → Items → Items → Type 0
Ported port nil nil = Unit
Ported port (cons v xs) (cons w ys) = SameButPort port v w × Ported port xs ys
Ported port _ _ = ⊥

get-ported :
    (port : ℕ) (given : Fields) (hysteria : Bool) (k : String)
    → get k (if hysteria then put "port" (int port) given else given)
      ≡ (if hysteria && "port" == k then some (int port) else get k given)
get-ported port given true k = get-put "port" k (int port) given
get-ported port given false k = refl

set_ports-Ported : (port : ℕ) (xs : Items) → Ported port xs (set_ports port xs)
unfolding set_ports
set_ports-Ported port nil = tt
set_ports-Ported port (cons (obj given) xs) =
    (get-ported port given (is_text (get "protocol" given) "hysteria"), set_ports-Ported port xs)
set_ports-Ported port (cons _ xs) = (refl, set_ports-Ported port xs)

inbounds-instrument :
    (b : ConfigBuilder) (config : Fields)
    → get "inbounds" (instrument b config)
      ≡ get "inbounds" (apply_hysteria_listen_port config b.hysteria_listen_port)
unfolding instrument
inbounds-instrument b config = simp get-put

written-Ported_of :
    (port : ℕ) (config : Fields) (o : Option Value)
    → get "inbounds" config ≡ o
    → Ported port
        (ensure_array o)
        (ensure_array (get "inbounds" (write_inbounds port (as_array o) config)))
written-Ported_of port config (some (arr xs)) e = simp get-put (set_ports-Ported port xs)
written-Ported_of port config none e = rw e tt
written-Ported_of port config (some _) e = rw e tt

written-Ported :
    (port : ℕ) (config : Fields)
    → nat_eq port 0 ≡ false
    → Ported port
        (ensure_array (get "inbounds" config))
        (ensure_array (get "inbounds" (apply_hysteria_listen_port config port)))
unfolding apply_hysteria_listen_port
written-Ported port config h = simp h (written-Ported_of port config (get "inbounds" config) refl)

-- With a listening port set, the accepted configuration has the panel's inbounds in their order,
-- each hysteria inbound with that port and its other keys kept, every other inbound unchanged.
pub build_sets_ports :
    (b : ConfigBuilder) (config d : Fields) (n : ℕ)
    → b.hysteria_listen_port ≡ suc n
    → build b config ≡ ok d
    → Ported (suc n) (ensure_array (get "inbounds" config)) (ensure_array (get "inbounds" d))
build_sets_ports b config d n e h =
    rw (← build-ok b config d h)
      (rw (inbounds-instrument b config, e) (written-Ported (suc n) config (ground arith)))

-- With no listening port set, the inbounds are the panel's.
pub build_keeps_ports :
    (b : ConfigBuilder) (config d : Fields)
    → b.hysteria_listen_port ≡ 0
    → build b config ≡ ok d
    → get "inbounds" d ≡ get "inbounds" config
unfolding apply_hysteria_listen_port
build_keeps_ports b config d e h =
    rw (← build-ok b config d h) (inbounds-instrument b config ∙ rw e refl)
