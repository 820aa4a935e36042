-- ===== src/Service/Wake/Waiting.antt =====
-- How long the wait of `awaitWoken` for another caller's wake lasts.
use ecs_dev_desktop.Common.{
  ℕ, zero, suc, ◌+◌, ◌*◌, ◌≤◌, true, false, Option, none, some, ◌≡◌, arith, inl, inr, Bool-cases,
  leb, le→leb, ◌==◌,
}
use ecs_dev_desktop.Result.{Result-cases}
use ecs_dev_desktop.States.{WorkspaceId, provisioning, state_eq}
use ecs_dev_desktop.Resources.{assert_valid_workspace_resources}
use ecs_dev_desktop.Service.World.{
  Database, Environment, World, M, Loaded, Outcome, returned, thrown, unfinished, continue, ◌>>=◌,
  branded, find, date_now, sleep, wall, resume,
}
use ecs_dev_desktop.Service.Stop.{Reply}
use ecs_dev_desktop.Service.Wake.{poll_woken, poll_until, await_woken, wake_poll_interval_ms, is_up}

abbrev pub Ends : {A : Type 0} → Outcome A → Type 0
Ends unfinished = ⊥
Ends _ = Unit

module _ {d : Database} {A B : Type 0} where
  continue-Ends :
      (f : A → M d B) (r : Outcome A) (w : World d)
      → Ends r
      → ((a : A) → Ends (f a w).0)
      → Ends (continue r f w).0
  continue-Ends f (returned a) w h k = k a
  continue-Ends f (thrown m) w h k = tt
  continue-Ends f unfinished w h k = h

branded-Ends : (o : Option Loaded) → Ends (branded o)
branded-Ends none = tt
branded-Ends (some l) = elim (Result-cases (assert_valid_workspace_resources l.ws.resources)) [
  | inl (r, h) ↦ rw (h, Ends) tt
  | inr (m, h) ↦ rw (h, Ends) tt
]

module _ {d : Database} (e : Environment d) where
  poll_woken-Ends :
      (id : WorkspaceId) (deadline : ℕ) (again : M d Reply) (o : Option Loaded) (w : World d)
      → (leb deadline (wall e w) ≡ false
          → Ends (again (record (resume e w) { slept_ms = w.slept_ms + wake_poll_interval_ms })).0)
      → Ends (poll_woken e id deadline again o w).0
  unfolding date_now sleep ◌>>=◌
  poll_woken-Ends id deadline again none w h = tt
  poll_woken-Ends id deadline again (some l) w h = elim (Bool-cases (is_up l.ws.state)) [
    | inl u ↦ rw u tt
    | inr u ↦ rw u (elim (Bool-cases (l.ws.state == provisioning)) [
      | inr p ↦ rw p tt
      | inl p ↦
          rw p
            (elim (Bool-cases (leb deadline (wall e w))) [ inl t ↦ rw t tt | inr t ↦ rw t (h t) ])
    ])
  ]

  -- A wait that polls once more than the deadline is away ends.
  poll_until-Ends :
      (n : ℕ) (id : WorkspaceId) (deadline : ℕ) (w : World d)
      → deadline ≤ wall e w + 250 * n
      → Ends (poll_until e (suc n) id deadline w).0
  unfolding poll_until find ◌>>=◌
  poll_until-Ends zero id deadline w h =
      continue-Ends (poll_woken e id deadline (poll_until e zero id deadline))
        (branded (d.get (resume e w).table id)) (resume e w)
        (branded-Ends (d.get (resume e w).table id))
        (λ o. poll_woken-Ends id deadline (poll_until e zero id deadline) o (resume e w) λ t.
          let late : leb deadline (wall e (resume e w)) ≡ true =
            le→leb deadline (wall e (resume e w)) (omega (arith, e.lag_mono w.step)) in
          cc)
  poll_until-Ends (suc n) id deadline w h =
      continue-Ends (poll_woken e id deadline (poll_until e (suc n) id deadline))
        (branded (d.get (resume e w).table id)) (resume e w)
        (branded-Ends (d.get (resume e w).table id))
        (λ o. poll_woken-Ends id deadline (poll_until e (suc n) id deadline) o (resume e w) λ t.
          poll_until-Ends n id deadline
            (record (resume e (resume e w)) {
              slept_ms = (resume e w).slept_ms + wake_poll_interval_ms;
            })
            (omega (arith, e.lag_mono w.step, e.lag_mono (suc w.step))))

  -- A wait for another caller's wake ends, whatever others do: by the time-out at the latest.
  pub await_woken-Ends : (id : WorkspaceId) (w : World d) → Ends (await_woken e id w).0
  unfolding await_woken date_now ◌>>=◌
  await_woken-Ends id w = poll_until-Ends 720 id (wall e w + 180000) w (omega arith)
