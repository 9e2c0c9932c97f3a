-- ===== src/Controller/Reached.antt =====
-- internal/controller/smarthorizontalpodautoscaler_controller.go and internal/scheduler/scheduler.go: no
-- context without an object with the finalizer.
use smart_hpa.Scheduler.Context.{Context}
use smart_hpa.Scheduler.Context
