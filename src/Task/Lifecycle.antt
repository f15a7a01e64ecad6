-- ===== src/Task/Lifecycle.antt =====
-- `derive_task_status` (adl_lite/agents/task.py) under an append.
use adl_lite.Prelude.{◌≡◌, refl, List, [], ◌∷◌, ◌++◌}
use adl_lite.Event.{Event}
use adl_lite.Task.{TaskStatus, opened, status_step, fold_status, derive_task_status}

fold_status-append :
    (s : TaskStatus) (es : List Event) (e : Event)
    → fold_status s (es ++ e ∷ []) ≡ status_step (fold_status s es) e
unfolding fold_status
fold_status-append s [] e = refl
fold_status-append s (d ∷ es) e = fold_status-append (status_step s d) es e

-- The status after one event more.
pub derive-append :
    (es : List Event) (e : Event)
    → derive_task_status (es ++ e ∷ []) ≡ status_step (derive_task_status es) e
unfolding derive_task_status
derive-append es e = fold_status-append opened es e
