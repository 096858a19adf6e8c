-- ===== src/Webapp.antt =====
-- nouns-webapp: the state that the pages share (packages/nouns-webapp/src/state/slices).
pub mod Auction
pub mod Display
pub mod Logs
pub mod Founders
pub mod Proposals
pub mod Titles
pub mod Shown
pub mod Bidding
pub mod Functions
pub mod Shuffle
mod Tests
