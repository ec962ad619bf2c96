-- ===== src/WeightTransfer.antt =====
-- lumenrl/engine/inference/bucketed_weight_transfer.py: the sender and the receiver of model weights
-- over one shared buffer, as two threads that take turns in any order.
--
-- A step is what a thread does up to the point where the other can see it. A message that the
-- sender posts and the acknowledgement for it are in the socket until the other side takes them. A
-- copy into the buffer is done where it is issued, since the sender synchronizes before each
-- message. The receiver reads a tensor of the buffer when the callback loads it, one at a time,
-- while the sender may fill the other slot. The state starts after the handshake of `_init_buffer`.
-- Logging, timing, counters, closing the socket and time limits on it are left out.
pub mod State
pub mod Sender
pub mod Receiver
pub mod Threads
pub mod Contents
pub mod Writes
pub mod Stages
pub mod Sending
pub mod Acks
pub mod Turns
pub mod Loading
pub mod Receiving
pub mod Costs
pub mod Progress
pub mod Delivery
pub mod Versions
