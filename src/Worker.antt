-- ===== src/Worker.antt =====
-- apps/worker-control/src: the control worker.
pub mod Fair
pub mod Execution
pub mod Lease
pub mod Delivery
