-- ===== src/Service/Heartbeat/Writes.antt =====
-- What a heartbeat writes.
use ecs_dev_desktop.Common.{
  ℕ, zero, suc, Bool, true, false, Option, none, some, List, ◌∷◌, ◌≡◌, refl, arith, inl, inr,
  Bool-cases,
}
use ecs_dev_desktop.Result.{Result, ok, err}
use ecs_dev_desktop.Errors.{DomainError}
use ecs_dev_desktop.States.{WorkspaceId, IsoTimestamp, state_eq}
use ecs_dev_desktop.Lifecycle.{transition}
use ecs_dev_desktop.Workspace.{Workspace}
use ecs_dev_desktop.Workspace.Reports.{mark_activity, record_functional, record_sessions}
use ecs_dev_desktop.Service.World.{
  Database, Environment, World, M, Loaded, Effect, committed, Outcome, returned, thrown, unfinished,
}
use ecs_dev_desktop.Service.Rules.{Log, Triple, bind-Triple, pure-Triple, persist-Triple}
use ecs_dev_desktop.Service.Stop.{Reply}
use ecs_dev_desktop.Service.Wake.Steps.{find-After, clock-After, bind-After}
use ecs_dev_desktop.Service.Heartbeat.{
  HeartbeatReport, beat_activity, folded, may_beat, write_beat, beat_on, beat_attempt, heartbeat,
}

-- One write, of the workspace that is returned; none if there is an error.
abbrev pub IsBeatReply : List Effect → Outcome Reply → Log
IsBeatReply before (returned (ok ws)) t =
    ((version : ℕ) × (t ≡ committed ws version none ∷ before)) × (may_beat ws.state ≡ true)
IsBeatReply before (returned (err x)) t = t ≡ before
IsBeatReply before (thrown m) t = t ≡ before
IsBeatReply before unfinished t = ⊥

abbrev Wrote : List Effect → Workspace → Outcome Bool → Log
Wrote before next (returned true) t = (version : ℕ) × (t ≡ committed next version none ∷ before)
Wrote before next (returned false) t = t ≡ before
Wrote before next (thrown m) t = t ≡ before
Wrote before next unfinished t = ⊥

beat_activity-live :
    (ws : Workspace) (report : Option HeartbeatReport) (at : IsoTimestamp) (next : Workspace)
    → may_beat ws.state ≡ true
    → beat_activity ws report at ≡ ok next
    → may_beat next.state ≡ true
unfolding beat_activity mark_activity transition
beat_activity-live ws report at next u h = ground arith

folded-state :
    (ws : Workspace) (report : Option HeartbeatReport) (at : IsoTimestamp)
    → (folded ws report at).state ≡ ws.state
unfolding folded record_functional record_sessions
folded-state ws report at = ground arith

module _ {d : Database} (e : Environment d) (before : List Effect) where
  write_beat-Reply :
      (id : WorkspaceId) (report : Option HeartbeatReport) (version : ℕ) (at : IsoTimestamp)
      (again : M d Reply) (r : Result Workspace DomainError)
      → ((next : Workspace) → r ≡ ok next → may_beat next.state ≡ true)
      → Triple (λ t. t ≡ before) again (IsBeatReply before)
      → Triple (λ t. t ≡ before) (write_beat e id report version at again r) (IsBeatReply before)
  write_beat-Reply id report version at again (err x) live h = pure-Triple λ t p. p
  write_beat-Reply id report version at again (ok ws) live h =
      bind-Triple {Q = Wrote before (folded ws report at)}
        (persist-Triple e (folded ws report at) version none (λ t p. (version, rw p refl))
          (λ t p. p) (λ m t p. p))
        (elim [
          | true ↦ pure-Triple λ t p. (p, rw (folded-state ws report at) (live ws refl))
          | false ↦ h
        ])
        (λ x t p. p) (λ t p. p)

  beat_on-Reply :
      (id : WorkspaceId) (report : Option HeartbeatReport) (again : M d Reply) (o : Option Loaded)
      → Triple (λ t. t ≡ before) again (IsBeatReply before)
      → Triple (λ t. t ≡ before) (beat_on e id report again o) (IsBeatReply before)
  beat_on-Reply id report again none h = pure-Triple λ t p. p
  beat_on-Reply id report again (some l) h =
      bind-After (clock-After e)
        (λ at. elim (Bool-cases (may_beat l.ws.state)) [
          | inr u ↦ rw u (pure-Triple λ t p. p)
          | inl u ↦ rw u (
              write_beat-Reply id report l.version at again (beat_activity l.ws report at)
                (λ next. beat_activity-live l.ws report at next u) h)
        ])
        (λ x t p. p)

  attempt-Reply :
      (retries : ℕ) (id : WorkspaceId) (report : Option HeartbeatReport)
      → Triple (λ t. t ≡ before) (beat_attempt e retries id report) (IsBeatReply before)
  unfolding beat_attempt
  attempt-Reply zero id report =
      bind-After (find-After e id) (λ o. beat_on-Reply id report _ o (pure-Triple λ t p. p))
        (λ x t p. p)
  attempt-Reply (suc retries) id report =
      bind-After (find-After e id)
        (λ o. beat_on-Reply id report _ o (attempt-Reply retries id report)) (λ x t p. p)

module _ {d : Database} (e : Environment d) where
  -- A heartbeat ends, and has at most one effect: when it returns a workspace, this is the write of that
  -- workspace, which is still provisioning, running or idle; when it returns an error or throws, there
  -- is none, also after a write that was refused and tried again.
  pub heartbeat_writes_once :
      (id : WorkspaceId) (report : Option HeartbeatReport) (w : World d)
      → IsBeatReply w.trace (heartbeat e id report w).0 (heartbeat e id report w).1.trace
  unfolding heartbeat
  heartbeat_writes_once id report w = (attempt-Reply e w.trace 1 id report).holds w refl
