-- ===== src/Service/Connect/Ready.antt =====
-- What a connect hands back.
use ecs_dev_desktop.Common.{
  String, true, false, ◌||◌, Option, none, some, List, ◌≡◌, refl, arith, inl, inr, Bool-cases, ◌==◌,
}
use ecs_dev_desktop.Result.{ok, err}
use ecs_dev_desktop.Errors.{DomainError}
use ecs_dev_desktop.States.{WorkspaceId, WorkspaceState, provisioning, state_eq}
use ecs_dev_desktop.Connect.{ConnectAction, plan_connect}
use ecs_dev_desktop.Workspace.Changes.Binding.{is_live}
use ecs_dev_desktop.Service.World.{
  Database, Environment, World, Loaded, Effect, Outcome, returned, thrown, unfinished,
}
use ecs_dev_desktop.Service.Rules.{Log, Triple, bind-Triple, pure-Triple}
use ecs_dev_desktop.Service.Stop.{Reply}
use ecs_dev_desktop.Service.Wake.{is_up, await_woken}
use ecs_dev_desktop.Service.Wake.Steps.{IsClaimed, IsSettled, IsWakeReply, find-After, bind-After}
use ecs_dev_desktop.Service.Wake.Waiting.{Ends, await_woken-Ends}
use ecs_dev_desktop.Service.Wake.Start.{Waited, await-Waited, start_binds_or_stops}
use ecs_dev_desktop.Service.Connect.{reconsider, after_start, connect_as, connect}

-- A workspace that is handed back has a task; the effects are as after a start.
abbrev pub IsConnectReply : Outcome Reply → Log
IsConnectReply (returned (ok ws)) t = (is_live ws.state ≡ true) × IsSettled t
IsConnectReply (returned (err x)) t = IsSettled t
IsConnectReply (thrown m) t = IsClaimed t
IsConnectReply unfinished t = ⊥

up-live : (s : WorkspaceState) → is_up s ≡ true → is_live s ≡ true
up-live s h = ground arith

started-live :
    (s : WorkspaceState)
    → (is_up s || (s == provisioning)) ≡ true
    → (s == provisioning) ≡ false
    → is_live s ≡ true
started-live s h q = ground arith

ready-live : (s : WorkspaceState) → plan_connect s ≡ ConnectAction.ready → is_live s ≡ true
unfolding plan_connect
ready-live s h = ground arith

connected : (o : Outcome Reply) (t : List Effect) → Ends o → Waited o t → IsConnectReply o t
connected (returned (ok ws)) t h p = (up-live ws.state p.0, p.1)
connected (returned (err x)) t h p = p
connected (thrown m) t h p = p.0
connected unfinished t h p = absurd h

module _ {d : Database} (e : Environment d) where
  await-Ready : (id : WorkspaceId) → Triple IsSettled (await_woken e id) IsConnectReply
  await-Ready id = record {
    holds = λ w p.
        connected (await_woken e id w).0 (await_woken e id w).1.trace (await_woken-Ends e id w)
          ((await-Waited e id).holds w p);
  }

  reconsider-Ready :
      (id : WorkspaceId) (x : DomainError) (o : Option Loaded)
      → Triple IsSettled (reconsider e id x o) IsConnectReply
  reconsider-Ready id x none = pure-Triple λ t p. p
  reconsider-Ready id x (some l) = elim (Bool-cases (is_up l.ws.state)) [
    | inl u ↦ rw u (pure-Triple λ t p. (up-live l.ws.state u, p))
    | inr u ↦ rw u (elim (Bool-cases (l.ws.state == provisioning)) [
      | inl q ↦ rw q (await-Ready id)
      | inr q ↦ rw q (pure-Triple λ t p. p)
    ])
  ]

  after_start-Ready :
      (id : WorkspaceId) (r : Reply)
      → Triple (IsWakeReply (returned r)) (after_start e id r) IsConnectReply
  after_start-Ready id (ok ws) = elim (Bool-cases (ws.state == provisioning)) [
    | inl q ↦ rw q (record { holds = λ w p. (await-Ready id).holds w p.1 })
    | inr q ↦ rw q (pure-Triple λ t p. (started-live ws.state p.0 q, p.1))
  ]
  after_start-Ready id (err x) = bind-After (find-After e id) (reconsider-Ready id x) (λ m t p. p.0)

  connect_as-Ready :
      (id : WorkspaceId) (l : Loaded) (actor : String) (a : ConnectAction)
      → plan_connect l.ws.state ≡ a
      → Triple IsSettled (connect_as e id l actor a) IsConnectReply
  connect_as-Ready id l actor ConnectAction.ready h =
      pure-Triple λ t p. (ready-live l.ws.state h, p)
  connect_as-Ready id l actor ConnectAction.pending h = await-Ready id
  connect_as-Ready id l actor ConnectAction.wake h =
      bind-Triple {Q = IsWakeReply} (record { holds = λ w p. start_binds_or_stops e id actor w p })
        (after_start-Ready id) (λ x t p. p) (λ t p. p)
  connect_as-Ready id l actor ConnectAction.unavailable h = pure-Triple λ t p. p

  -- If every launch so far came right after the commit of its claim and no launched task is left open,
  -- a connect ends, and a workspace that it hands back is running, idle or stopping: never one whose
  -- wake is still under way. When it returns, no task is left open.
  pub connect_hands_back_live :
      (id : WorkspaceId) (actor : String) (w : World d)
      → IsSettled w.trace
      → IsConnectReply (connect e id actor w).0 (connect e id actor w).1.trace
  unfolding connect
  connect_hands_back_live id actor w p = connecting.holds w p
    where
      connecting : Triple IsSettled (connect e id actor) IsConnectReply
      connecting =
          bind-After (find-After e id)
            (elim [
              | none ↦ pure-Triple λ t q. q
              | some l ↦ connect_as-Ready id l actor (plan_connect l.ws.state) refl
            ])
            (λ x t q. q.0)
