-- ===== src/RlTrainer.antt =====
-- lumenrl/trainer/rl_trainer.py: the parts of the trainer that arrange rows.
pub mod MiniBatches
pub mod Response
pub mod Rollout
pub mod Shards
