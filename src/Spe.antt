-- ===== src/Spe.antt =====
-- ARM SPE packets: the constants of include/monitor.hh and the decoders of src/monitor.cc.
-- Memory is a function from addresses to bytes; words are numbers with their wrap written out.
pub mod Header
pub mod Address
pub mod Event
pub mod Laws
pub mod Payload
pub mod Names
unfoldable pub use Header.*
unfoldable pub use Address.*
unfoldable pub use Event.*
