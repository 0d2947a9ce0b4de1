-- ===== src/Server/Wire.antt =====
-- internal/server/wire/wire.go: between the service's protocol and the domain model.
--
-- The messages are the generated types of spectrepb/spectre.pb.go. An enumeration of the protocol is
-- its number, since a peer may send one that has no name. A pointer is an option, a duration or a
-- time a number of nanoseconds. A map of a message has distinct keys, so the copy of a map has the
-- same entries.
mod Enums
mod Reasons
mod Messages
pub mod RoundTrip
pub mod Lists
pub mod Accepted
pub mod Tests
unfoldable pub use Enums.*
unfoldable pub use Reasons.*
unfoldable pub use Messages.*
