-- ===== src/Worker.antt =====
-- packages/worker/src: the job handlers, the deposit watcher and the confirmation tracker, over the
-- intent service and the job queue. The constants are those of job-types.ts.
pub mod Handlers
pub mod Watcher
pub mod Tracker
pub mod Replays
pub mod Subscriptions
pub mod Delivery
pub mod Sweeps
use nexora_gateway.Intent.Data.{Name}

-- Texts that the code compares, as numbers.
abbrev pub queue_deposits : Name
queue_deposits = 1

abbrev pub job_deposit_record : Name
job_deposit_record = 1

abbrev pub job_deposit_confirm : Name
job_deposit_confirm = 2

abbrev pub job_deposit_unattributed : Name
job_deposit_unattributed = 3
