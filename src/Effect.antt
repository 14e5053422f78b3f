-- ===== src/Effect.antt =====
-- What a service call does beside returning: it reads the clock, mints identifiers, and runs SQL
-- statements that may fail. gorm's `Transaction` gives the database back as it was when its body,
-- its BEGIN or its COMMIT fails.
mod Monad
pub mod Ensures
pub mod Keeps
pub mod Succeeds
unfoldable pub use Monad.*
