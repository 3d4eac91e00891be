-- ===== src/Launch.antt =====
-- tools/launch.py: the launcher of a distributed training run. The children model its parts in the
-- order in which a launch goes through them.
pub mod Env
pub mod Torch
pub mod Ports
pub mod Servers
pub mod Hosts
pub mod Remote
pub mod Submit
pub mod Cleanup
pub mod Options
mod Tests
