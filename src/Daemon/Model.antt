-- ===== src/Daemon/Model.antt =====
-- internal/model/model.go and the helpers on its records: the names of the children, passed on.
mod Enums
mod Records
mod Tests
pub use Enums.*
pub use Records.*
unfoldable pub use Tests.*
