-- ===== src/Lib.antt =====
-- Verification library of LumenRL, a reinforcement-learning trainer for large language models.
--
-- A controller hands batches (DataProto, lumenrl/core/protocol.py) to workers and collects their
-- results (lumenrl/controller/dispatch.py). The library models these batches and their routes, and
-- helpers of the data path that are programs in their own right.
--
-- Files and what they model:
--   Base/*          shared types and lemmas: exceptions as values (Results), Python dictionaries as
--                   association lists in insertion order (Dict), slices, ranges and negative
--                   indices (Slices, Gathers), masks, tests, lists, integers.
--   Torch/*         the tensor library, which is not part of the repository: the operations that the
--                   code calls and the documented laws they obey (Ops), and an instance (Listed)
--                   that satisfies the laws and on which the model runs.
--   Proto.antt      class DataProto: the record, __len__ (batch_size), check_consistency, select,
--                   update. Proto/Select: _normalize_indices, select_idxs, reorder, _ragged_at.
--                   Proto/Split: split, mini_batches. Proto/Merge: merge, concat, _ragged_concat.
--                   Proto/Repeat: repeat, sample_level_repeat. Proto/Pad: pad_to_divisor, unpad.
--                   The other modules under Proto hold the view by which batches are compared and
--                   the proofs.
--   Dispatch/*      dispatch.py: the modes, the dispatch functions with the mapping cache as explicit
--                   state (Modes), the collect functions and the dispatch by ranks (Collect), and
--                   the proofs (Laws, Ranks).
--   LossMask/*      lumenrl/data/kimi_k25_parser.py: pack_loss_mask and unpack_loss_mask.
--   MessageQueue/*  lumenrl/trainer/message_queue.py: the sample queue between the rollout thread and the
--                   trainer, its threads as interleaved steps; Counts and Freshness are proofs.
--   Balance/*       lumenrl/utils/seqlen_balancing.py: sets of sequences, states of the differencing
--                   method and the heap (Balance), with proofs on states (States), the loop over
--                   the heap (Heap), its result (Partition) and the checks of it (Checked).
--   WeightTransfer/*  lumenrl/engine/inference/bucketed_weight_transfer.py: what the sender and the
--                   receiver keep (State), BucketedWeightSender (Sender), BucketedWeightReceiver
--                   (Receiver), and the two threads as interleaved steps (Threads). The others are
--                   proofs: Contents and Writes on the buffer, Stages with the invariant, Sending,
--                   Acks, Loading, Receiving and Turns that the steps keep it, Costs, Progress,
--                   Delivery and Versions.
--   Packing/*       lumenrl/engine/training/packing.py: the packing context, pack_sequences,
--                   pack_from_nested, unpack_log_probs (Packing); the others are proofs.
--   Routing/*       lumenrl/moe/rollout_routing.py: pack_rollout_routing, apply_replay and the
--                   context (Routing); Blocks, Choices and Replay are
--                   proofs.
--   MegatronReplay/*  lumenrl/engine/training/megatron_r3_replay.py: extract_row_routes,
--                   _cp_local_indices, _gather_token_routes, pack_microbatch_routes,
--                   install_replay; the others are proofs.
--   Cluster/*       lumenrl/controller/ray_cluster.py: ResourcePool and RayCluster (Cluster); Pools
--                   and Topology are proofs.
--   Dapo/*          lumenrl/algorithms/dapo_sampling.py: filter_groups_keep_mask (Dapo); Groups is the proof.
--   WeightSync/*    lumenrl/trainer/weight_sync.py: FilesystemWeightSync (WeightSync); Kept is the proof.
--   Rdma/*          lumenrl/engine/inference/rdma_weight_transfer.py: the broadcasts (Rdma),
--                   send_weight_stream (Sender), receive_weight_stream (Receiver); the others are
--                   proofs: Buckets on one bucket, Flushes and Sending on the stream, Delivered on
--                   its reception.
--   RlTrainer/*     lumenrl/trainer/rl_trainer.py. MiniBatches: _dynamic_mini_batches, with proofs in
--                   Segments, Sorted and Rows. Response: _response_token_ids and
--                   _build_response_mask, with proofs in Cleared and Picked. Shards:
--                   _balance_rows_across_workers, with proofs on the bins (Bins, Lightest, Placed),
--                   their loads (Loads, Evenly, Balanced), the reordering (Reordered) and the split
--                   (Blocks, Sharded). Rollout:
--                   _get_prompts_range and the path of _collect_rollout_batch without dynamic
--                   sampling; Rollout/Sampling: the path with it; the others under Rollout are
--                   proofs, from the groups of a round (Groups, Filtered) over its columns
--                   (Columns, Selected, Kept, Added, Rounds) to the rounds (Prompts, Played) and
--                   the batch (Collection).
--   Tests/*         concrete inputs and runs.
--
-- How the parts meet. Rollout routing is packed in the order of pack_sequences, and Routing uses
-- the totals of Packing; unpack_log_probs puts the values of the packed row back in place. Batches
-- are split by Proto for the dispatch functions, and merged by it for the collect functions. The
-- trainer reorders a batch before Proto splits it for the workers. The collection of a rollout
-- batch calls the filter of Dapo in every round; what generates sequences and computes rewards is a
-- parameter of it, and `Generates` says what is relied on.
--
-- Conventions. An exception is an error value, and a method that changes its object returns the new
-- object. A tensor is seen through its rows along dim 0, or as a list of numbers where the code
-- reads it as such. Python's Any, the type of meta values and of ragged entries, is a type
-- parameter. The order in which Python goes through a set of keys is a parameter, `order`, which
-- `IsOrder` asks to have the same keys. Numbers that the code only uses as counts are natural
-- numbers; indices that may be negative are integers. Torch's sharing of tensors between processes
-- is a parameter of WeightTransfer, `Ipc`, with the documented law of the handles.
--
-- Where torch raises, so does the model: the view of a range of bytes in another type asks for an
-- offset that is a multiple of the element size (WeightTransfer, Rdma), the byte view of a tensor
-- without dimensions for elements of one byte (Rdma), `where` for sizes that can be broadcast and
-- `gather` for ids that there are (Routing), a reshape for dimensions that are not 0 (Proto). The
-- sequence bounds of Packing are int32 and wrap.
--
-- Loops are recursions on a list or on a count. The differencing loop pops two states and pushes
-- one, so it is given the heap's length as fuel: each round leaves one state fewer. The loop over
-- mini-batches has the number of rows as fuel: each round takes a row. The rounds of a collection
-- are counted down from max_rounds, as in the code. A run of threads takes the list of turns as an
-- argument.
--
-- Not modelled: the values inside tensors and all floating-point computation, devices, processes and
-- sockets, model code, and the training engines; the manifest lists the parts one by one.
pub mod Base
pub mod Torch
pub mod Proto
pub mod Dispatch
pub mod LossMask
pub mod Balance
pub mod MessageQueue
pub mod WeightTransfer
pub mod Packing
pub mod Routing
pub mod Cluster
pub mod MegatronReplay
pub mod Dapo
pub mod WeightSync
pub mod Rdma
pub mod RlTrainer
pub mod Tests
