-- ===== src/Commands.antt =====
-- CommandPump, CommandQueueClient, CommandSender, GrpcClient and GrpcPoller: the commands pulled from the ground.
pub mod Client
pub mod Authorization
pub mod Refusals
pub mod Responses
pub mod Failures
pub mod Replay
pub mod Sender
pub mod Sending
pub mod GrpcClient
pub mod PollerTypes
pub mod Poller
pub mod Backoff
pub mod Outstanding
pub mod Stuck
pub mod Polling
pub mod Timing
pub mod Pump
mod Tests
mod PollerTests
