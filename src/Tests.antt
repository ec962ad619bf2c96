-- ===== src/Tests.antt =====
-- Small inputs: the main theorems at concrete batches, and runs of the model.
mod Samples
mod Batches
mod Workers
mod Masks
mod Queue
mod Packed
mod Pools
mod Partitions
mod Transfers
mod Replays
mod Groups
mod Snapshots
mod Streams
mod MiniBatches
mod Shards
mod Repeats
mod Responses
mod Rollouts
