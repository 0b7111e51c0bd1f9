-- ===== src/Xray/Config/Policy.antt =====
-- What the builder changes in a configuration, and what it keeps.
use rw_node_go.Common.{
  ap, sym, ℕ, ◌≡◌, refl, true, false, Option, none, some, String, eq_iff, eq_refl, arith,
  Bool-cases, inl, inr, ok, ◌==◌, ◌||◌, if◌then◌else◌,
}
use rw_node_go.Json.{bool, obj, Items, Fields, get, get-put, as_array, clone_map_lem}
use rw_node_go.Xray.Config.{
  ConfigBuilder, ensure_map, write_inbounds, with_level0, with_system, instrument,
  apply_hysteria_listen_port, build,
}
use rw_node_go.Xray.Config.Tags.{build-ok}

-- config[k] as a map, an empty one where it is none.
abbrev pub section : String → Fields → Fields
section k m = ensure_map (get k m)

-- policy.levels[n], policy.levels["0"] and policy.system of a configuration.
abbrev pub level_of : String → Fields → Fields
level_of n config = section n (section "levels" (section "policy" config))

abbrev pub level0_of : Fields → Fields
level0_of = level_of "0"

abbrev pub system_of : Fields → Fields
system_of config = section "system" (section "policy" config)

ensure_map-obj : (m : Fields) → ensure_map (some (obj m)) ≡ m
unfolding ensure_map
ensure_map-obj m = clone_map_lem m

get-write_inbounds :
    (k : String) (config : Fields) (port : ℕ) (o : Option Items)
    → ("inbounds" == k) ≡ false
    → get k (write_inbounds port o config) ≡ get k config
get-write_inbounds k config port none h = refl
get-write_inbounds k config port (some xs) h = simp (get-put, h)

pub get-apply_hysteria :
    (k : String) (config : Fields) (port : ℕ)
    → ("inbounds" == k) ≡ false
    → get k (apply_hysteria_listen_port config port) ≡ get k config
unfolding apply_hysteria_listen_port
get-apply_hysteria k config port h =
    ground (arith, get-write_inbounds k config port (as_array (get "inbounds" config)) h)

ruleset reads = (get-put, ensure_map-obj, eq_refl)

module _ (b : ConfigBuilder) (config : Fields) where
  policy_kept :
      get "policy" (apply_hysteria_listen_port config b.hysteria_listen_port) ≡ get "policy" config
  policy_kept = get-apply_hysteria "policy" config b.hysteria_listen_port refl

  level0-instrument :
      level0_of (instrument b config) ≡ with_level0 b.stats_user_online (level0_of config)
  unfolding instrument
  level0-instrument = simp (reads, policy_kept)

  system-instrument : system_of (instrument b config) ≡ with_system (system_of config)
  unfolding instrument
  system-instrument = simp (reads, policy_kept)

  level-instrument :
      (n : String)
      → ("0" == n) ≡ false
      → section n (section "levels" (section "policy" (instrument b config)))
        ≡ section n (section "levels" (section "policy" config))
  unfolding instrument
  level-instrument n h = simp (reads, policy_kept, h)

  level_lem :
      (n : String)
      → level_of n (instrument b config)
        ≡ (if "0" == n then level0_of (instrument b config) else level_of n config)
  level_lem n = elim (Bool-cases ("0" == n)) [
    | inl e ↦ simp e (ap (λ m. level_of m (instrument b config)) (sym ((eq_iff "0" n).0 e)))
    | inr e ↦ simp e (level-instrument n e)
  ]

  policy-instrument :
      (k : String)
      → ("levels" == k) ≡ false
      → ("system" == k) ≡ false
      → get k (section "policy" (instrument b config)) ≡ get k (section "policy" config)
  unfolding instrument
  policy-instrument k h j = simp (reads, policy_kept, h, j)

  get-instrument :
      (k : String)
      → ("inbounds" == k) ≡ false
      → ("stats" == k) ≡ false
      → ("policy" == k) ≡ false
      → get k (instrument b config) ≡ get k config
  unfolding instrument
  get-instrument k h i j = simp (reads, i, j, get-apply_hysteria k config b.hysteria_listen_port h)

-- Each key of level 0, each other level and each key of the system policy of an accepted
-- configuration: the counters are switched on, the online map is as the builder is told, and every
-- other setting is the panel's.
pub build_policy :
    (b : ConfigBuilder) (config d : Fields) (k : String)
    → build b config ≡ ok d
    → (get k (level0_of d) ≡ (
        if "statsUserOnline" == k
        then some (bool b.stats_user_online)
        else if "statsUserDownlink" == k || "statsUserUplink" == k
        then some (bool true)
        else get k (level0_of config)))
      × (level_of k d ≡ (if "0" == k then level0_of d else level_of k config))
      × (get k (system_of d) ≡ (
          if "statsOutboundUplink" == k
            || "statsOutboundDownlink" == k
            || "statsInboundUplink" == k
            || "statsInboundDownlink" == k
          then some (bool true)
          else get k (system_of config)))
unfolding with_level0 with_system
build_policy b config d k h = rw (← build-ok b config d h) (
  rw (level0-instrument b config) (simp get-put (ground arith)),
  level_lem b config k,
  rw (system-instrument b config) (simp get-put (ground arith)),
)

-- Every section of an accepted configuration but the inbounds, the statistics and the policy is
-- the panel's.
pub build_keeps_section :
    (b : ConfigBuilder) (config d : Fields) (k : String)
    → build b config ≡ ok d
    → ("inbounds" == k || "stats" == k || "policy" == k) ≡ false
    → get k d ≡ get k config
build_keeps_section b config d k h e =
    rw (← build-ok b config d h)
      (get-instrument b config k (ground arith) (ground arith) (ground arith))
