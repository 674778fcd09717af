-- ===== src/Tests.antt =====
-- Tests of the model at concrete inputs.
mod Samples
mod Deliveries
mod Callbacks
mod Queues
mod Records
mod Locks
mod Webhooks
mod Replies
mod Picks
mod Worker
mod Hooks
mod Requests
mod Composing
mod Routes
mod Processes
mod Apps
