-- ===== src/Http.antt =====
-- The HTTP vocabulary that the adapters share.
mod Response
mod Errors
unfoldable pub use Response.*
unfoldable pub use Errors.*
