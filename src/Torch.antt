-- ===== src/Torch.antt =====
-- The tensor library as an interface (`Ops`), and an instance of it that runs (`Listed`).
mod Ops
pub mod Listed
pub use Ops.{Torch, Laws}
