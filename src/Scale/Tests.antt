-- ===== src/Scale/Tests.antt =====
-- The scale decisions at concrete counts and times.
use ecs_dev_desktop.Common.{◌≡◌, refl, some}
use ecs_dev_desktop.Scale.{decide_control_plane_idle}
use ecs_dev_desktop.Scale.Loop.{after_idle}

idle_test : after_idle 2 (some (some 100)) (some 1000) 900 ≡ 0
unfolding decide_control_plane_idle
idle_test = refl
