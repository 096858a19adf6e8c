-- ===== src/Sdk/Roundtrip.antt =====
-- An encoded image, decoded and drawn (packages/nouns-sdk/src/image): the drawing is the image.
pub mod Rows
pub mod Cuts
pub mod Encoded
pub mod Finished
pub mod Drawn
pub mod Image
