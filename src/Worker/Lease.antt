-- ===== src/Worker/Lease.antt =====
-- apps/worker-control/src/service.ts: the interval of the heartbeat against the lease.
use touchmyapi.Common.{ℕ, ◌*◌, ◌≤◌, ◌<◌, ◌↔◌, arith}
use touchmyapi.Worker.Execution.{heartbeat_interval}

-- The first heartbeat comes before the lease has ended exactly if the lease lasts two seconds or more.
pub heartbeat_interval-lt :
    (lease_seconds : ℕ)
    → (heartbeat_interval lease_seconds < lease_seconds * 1000) ↔ (2 ≤ lease_seconds)
unfolding heartbeat_interval
heartbeat_interval-lt lease_seconds = ground arith
