-- ===== src/Smc.antt =====
-- core/smc_smp.c: the command queue shared with the TEE, and the loop that sends a command.
pub mod Cmd
pub mod Pending
pub mod Send
pub mod Slots
pub mod Timeout
mod Tests
