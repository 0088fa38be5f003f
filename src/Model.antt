-- ===== src/Model.antt =====
-- internal/model: the domain types and their methods, passed on from the children. The children
-- named for a verdict or a rule hold its proofs.
mod Ops
mod Routes
mod LiveStates
mod Changes
mod AckMarker
pub mod AuthRule
pub mod DenyVerdict
pub mod AckRoundTrip
unfoldable pub use Ops.*
unfoldable pub use Routes.*
unfoldable pub use LiveStates.*
unfoldable pub use Changes.*
unfoldable pub use AckMarker.*
