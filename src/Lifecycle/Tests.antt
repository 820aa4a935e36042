-- ===== src/Lifecycle/Tests.antt =====
-- The laws of the state machine at concrete states, and runs of it.
use ecs_dev_desktop.Common.{◌≡◌, refl}
use ecs_dev_desktop.Result.{ok, err}
use ecs_dev_desktop.Errors.{conflict, invalid_transition}
use ecs_dev_desktop.States.{running, stopped, error, wake, fail, action_eq}
use ecs_dev_desktop.Lifecycle.{transition}

refused_event : transition stopped fail ≡ ok error
unfolding transition
refused_event = refl

wake_of_running : transition running wake ≡ err (conflict (invalid_transition wake running))
unfolding transition
wake_of_running = refl
