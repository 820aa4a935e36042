-- ===== src/Service/Wake/Start.antt =====
-- `start` as a whole: the claim, the launch by the one caller that commits it, and the wait of the
-- others.
use ecs_dev_desktop.Common.{
  ℕ, zero, suc, ◌+◌, leb, String, Bool, true, false, Option, none, some, List, ◌≡◌, refl, inl, inr,
  Bool-cases, is_some, ◌==◌, string_eq,
}
use ecs_dev_desktop.Result.{Result, ok, err}
use ecs_dev_desktop.Errors.{DomainError}
use ecs_dev_desktop.States.{WorkspaceId, provisioning, state_eq}
use ecs_dev_desktop.Workspace.{Workspace}
use ecs_dev_desktop.Workspace.Launch.{mark_waking}
use ecs_dev_desktop.Service.World.{
  Database, Environment, World, M, Loaded, Effect, Outcome, returned, thrown, unfinished, ◌>>=◌,
  find,
}
use ecs_dev_desktop.Service.Rules.{
  Log, Triple, bind-Triple, pure-Triple, date_now-Keeps, sleep-Keeps, find-Keeps, persist-Triple,
}
use ecs_dev_desktop.Service.Stop.{Reply}
use ecs_dev_desktop.Service.Wake.{
  is_up, poll_woken, poll_until, await_woken, claim_wake, start, wake_poll_interval_ms, wake_fuel,
  wake_wait_timeout_ms,
}
use ecs_dev_desktop.Service.Wake.Waiting.{Ends, await_woken-Ends}
use ecs_dev_desktop.Service.Wake.Steps.{
  IsClaimed, IsSettled, IsWakeReply, settle-none, mark_waking-claims, find-After, clock-After,
  bind-After,
}
use ecs_dev_desktop.Service.Wake.Launches.{up_reply, launch-Triple, Claimed}

abbrev Contested : Outcome Bool → Log
Contested (returned true) t = Claimed t
Contested (returned false) t = IsSettled t
Contested (thrown m) t = IsClaimed t
Contested unfinished t = ⊥

-- What a wait for another caller's wake leaves, however it ends.
abbrev pub Waited : Outcome Reply → Log
Waited (returned (ok ws)) t = (is_up ws.state ≡ true) × IsSettled t
Waited _ t = IsSettled t

ended : (o : Outcome Reply) (t : List Effect) → Ends o → Waited o t → IsWakeReply o t
ended (returned (ok ws)) t h p = (up_reply ws p.0, p.1)
ended (returned (err x)) t h p = p
ended (thrown m) t h p = p.0
ended unfinished t h p = absurd h

module _ {d : Database} (e : Environment d) where
  poll_woken-Waited :
      (id : WorkspaceId) (deadline : ℕ) (again : M d Reply) (o : Option Loaded)
      → Triple IsSettled again Waited
      → Triple IsSettled (poll_woken e id deadline again o) Waited
  poll_woken-Waited id deadline again none h = pure-Triple λ t p. p
  poll_woken-Waited id deadline again (some l) h = elim (Bool-cases (is_up l.ws.state)) [
    | inl u ↦ rw u (pure-Triple λ t p. (u, p))
    | inr u ↦ rw u (elim (Bool-cases (l.ws.state == provisioning)) [
      | inr q ↦ rw q (pure-Triple λ t p. p)
      | inl q ↦ rw q (
          bind-Triple (date_now-Keeps e)
            (λ now. elim (Bool-cases (leb deadline now)) [
              | inl late ↦ rw late (pure-Triple λ t p. p)
              | inr early ↦ rw early (
                  bind-Triple (sleep-Keeps e wake_poll_interval_ms) (λ _. h) (λ x t p. p)
                    (λ t p. p))
            ])
            (λ x t p. p) (λ t p. p))
    ])
  ]

  poll_until-Waited :
      (n : ℕ) (id : WorkspaceId) (deadline : ℕ)
      → Triple IsSettled (poll_until e n id deadline) Waited
  unfolding poll_until
  poll_until-Waited zero id deadline = record { holds = λ w p. p }
  poll_until-Waited (suc n) id deadline =
      let next : Triple IsSettled
          (find e id >>= poll_woken e id deadline (poll_until e n id deadline)) Waited =
        bind-Triple (find-Keeps e id)
          (λ o. poll_woken-Waited id deadline _ o (poll_until-Waited n id deadline)) (λ x t p. p)
          (λ t p. p) in
      record { holds = next.holds }

  pub await-Waited : (id : WorkspaceId) → Triple IsSettled (await_woken e id) Waited
  unfolding await_woken
  await-Waited id =
      bind-Triple (date_now-Keeps e)
        (λ now. poll_until-Waited wake_fuel id (now + wake_wait_timeout_ms)) (λ x t p. p) (λ t p. p)

  await-Triple : (id : WorkspaceId) → Triple IsSettled (await_woken e id) IsWakeReply
  await-Triple id = record {
    holds = λ w p.
        ended (await_woken e id w).0 (await_woken e id w).1.trace (await_woken-Ends e id w)
          ((await-Waited id).holds w p);
  }

  claim_wake-Triple :
      (id : WorkspaceId) (l : Loaded) (actor : String) (r : Result Workspace DomainError)
      → ((next : Workspace) → r ≡ ok next → next.state ≡ provisioning)
      → Triple IsSettled (claim_wake e id l actor r) IsWakeReply
  claim_wake-Triple id l actor (err x) h = pure-Triple λ t p. p
  claim_wake-Triple id l actor (ok claim) h = elim (Bool-cases (is_some l.ws.latest_snapshot_id)) [
    | inr s ↦ rw s (pure-Triple λ t p. p)
    | inl s ↦ rw s (
        bind-Triple {Q = Contested}
          (persist-Triple e claim l.version none
            (λ t p. (h claim refl, (p.0, rw p.1 (settle-none claim.task_id)))) (λ t p. p)
            (λ m t p. p.0))
          (elim [
            | true ↦
                bind-After (clock-After e) (λ at. launch-Triple e id l.ws at actor) (λ x t p. p.1.0)
            | false ↦ await-Triple id
          ])
          (λ x t p. p) (λ t p. absurd p))
  ]

  -- If every launch so far came right after the commit of its claim and no launched task is left open,
  -- a start ends, whatever the others do and the backends answer: it returns or throws, and has then
  -- launched only what it has claimed. When it returns, no task is left open, which means that the
  -- last task it launched is named by a committed record or was asked to stop; and a workspace that
  -- it returns is running, idle, or waiting for capacity.
  pub start_binds_or_stops :
      (id : WorkspaceId) (actor : String) (w : World d)
      → IsSettled w.trace
      → IsWakeReply (start e id actor w).0 (start e id actor w).1.trace
  unfolding start
  start_binds_or_stops id actor w p = starting.holds w p
    where
      starting : Triple IsSettled (start e id actor) IsWakeReply
      starting =
          bind-After (find-After e id)
            (elim [
              | none ↦ pure-Triple λ t q. q
              | some l ↦
                  bind-After (clock-After e)
                    (λ at.
                      claim_wake-Triple id l actor (mark_waking l.ws at)
                        (mark_waking-claims l.ws at))
                    (λ x t q. q.0)
            ])
            (λ x t q. q.0)
