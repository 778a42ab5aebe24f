-- ===== src/Filter.antt =====
-- frontend/src/lib/ldapFilter.ts: building, reading and checking RFC 4515 search filters.
pub mod Escape
pub mod Assertion
pub mod Builder
pub mod Validate
pub mod Accept
pub mod Group
pub mod Guid
pub mod Sound
pub mod Tree
pub mod Equality
pub mod Rounds
pub mod Query
pub mod Keyword
pub mod Views
pub mod Structure
pub mod Clause
pub mod Item
pub mod Nodes
pub mod Rebuilt
pub mod NodeTests
pub mod Tests
pub mod ViewTests
