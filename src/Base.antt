-- ===== src/Base.antt =====
-- The names that the other modules share: the libraries', passed on, and those of the children.
mod Tests
mod Lists
mod Words
mod Text
mod Float64
mod Sort
mod Results
mod Picked
mod Dicts
unfoldable pub use Tests.*
unfoldable pub use Lists.*
unfoldable pub use Words.*
unfoldable pub use Results.*
unfoldable pub use Sort.*
unfoldable pub use Picked.*
unfoldable pub use Dicts.*
unfoldable pub use Float64.*
unfoldable pub use Text.*
