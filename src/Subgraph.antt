-- ===== src/Subgraph.antt =====
-- nouns-subgraph: the event handlers that index auctions, tokens and governance
-- (packages/nouns-subgraph/src).
pub mod Graph
pub mod Entities
pub mod Helpers
pub mod Auctions
pub mod Tokens
pub mod Governance
mod Memory
mod Tests
