-- ===== src/Domain.antt =====
-- internal/domain: the entities that the services and the adapters share.
mod Lifecycle
mod Meeting
mod Segment
mod Roles
unfoldable pub use Lifecycle.*
pub use Meeting.*
pub use Segment.*
unfoldable pub use Roles.*
