-- ===== src/Sessions/Steps/Calls.antt =====
-- Every call and every callback of `TaskSessionManager` of src/companion/task-sessions.ts that changes it.
use agent_tab_bridge.Base.{ℕ, List, [], ◌∷◌}
use agent_tab_bridge.Base.Text.{Str}
use agent_tab_bridge.Access.Defs.{Platform, Access, Delta}
use agent_tab_bridge.Sessions.Types.{Relay, Manager}
use agent_tab_bridge.Sessions.Manager.{revoke, revoke_all, sweep_expired, relay_closed}
use agent_tab_bridge.Sessions.Operations.{Options, OpenInput, open_session}
use agent_tab_bridge.Sessions.Life.{
  approve, relay_started, relay_start_failed, relay_ready, relay_failed, suspend, fire_timer,
  fire_recovery_timer, revoke_named, apply_access_upgrade,
}

pub data Call : Type 0 where
  opens : Options → Str → OpenInput → Call
  approves : Str → Call
  relay_starts : Str → Relay → Call
  relay_start_fails : Str → Call
  relay_readies : Str → Call
  relay_fails : Str → Str → Call
  suspends : Call
  timer_fires : Str → Call
  recovery_timer_fires : Str → Call
  revokes : Str → Str → Call
  revokes_named : Str → Str → Str → Call
  revokes_all : Str → Call
  sweeps_expired : Call
  relay_closes : Call
  upgrades : Str → Delta → Access → Call

unfoldable pub step : Platform → Manager → ℕ × Call → Manager
step pf m (now, opens options id input) = (open_session pf options now id input m).0
step pf m (now, approves id) = (approve id m).0
step pf m (now, relay_starts id r) = relay_started id r m
step pf m (now, relay_start_fails id) = relay_start_failed id m
step pf m (now, relay_readies id) = (relay_ready id m).0
step pf m (now, relay_fails id reason) = (relay_failed now id reason m).0
step pf m (now, suspends) = (suspend now m).0
step pf m (now, timer_fires id) = fire_timer now id m
step pf m (now, recovery_timer_fires id) = fire_recovery_timer now id m
step pf m (now, revokes id reason) = (revoke id reason m).0
step pf m (now, revokes_named principal name reason) = (revoke_named principal name reason m).0
step pf m (now, revokes_all reason) = revoke_all reason m
step pf m (now, sweeps_expired) = sweep_expired now m
step pf m (now, relay_closes) = relay_closed m
step pf m (now, upgrades id delta expected) = (apply_access_upgrade pf id delta expected m).0

unfoldable pub run : Platform → Manager → List (ℕ × Call) → Manager
run pf m [] = m
run pf m (c ∷ cs) = run pf (step pf m c) cs

abbrev pub new_manager : Manager
new_manager = record { stored = []; reusable_session_ids = []; log = [] }
