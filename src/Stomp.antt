-- ===== src/Stomp.antt =====
-- src/core/stomp.c and src/core/stomp.h: the STOMP message transfer protocol of the agent.
pub mod RxBuf
pub mod Types
pub mod Frame
pub mod Connection
pub mod Receive
pub mod Transmit
pub mod Table
pub mod Calls
pub mod Invariant
pub mod Retry
pub mod Delivery
pub mod Progress
pub mod Handshake
pub mod Upkeep
