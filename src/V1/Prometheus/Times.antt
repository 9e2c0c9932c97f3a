-- ===== src/V1/Prometheus/Times.antt =====
-- `fetch_all_metrics` of ml/prometheus_client.py: the three frames and their common times.
use smart_hpa.Prelude.{ℕ, ◌≡◌, ◌↔◌, List, some, Any}
use smart_hpa.Float.{Float}
use smart_hpa.Host.{Host}
use smart_hpa.V1.Prometheus.{time, Frame, get_cell}

-- A row of the frame has that time.
abbrev pub HasTime : {F : Type 0} → ℕ → Frame F → Type 0
HasTime t frame = Any (λ row. get_cell "timestamp" row ≡ some (time t)) frame

abbrev Times : {F : Type 0} → Frame F → List ℕ → Type 0
Times frame ts = (t : ℕ) → Any (λ u. u ≡ t) ts ↔ HasTime t frame
