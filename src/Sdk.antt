-- ===== src/Sdk.antt =====
-- nouns-sdk: the image encoder and the SVG builder (packages/nouns-sdk/src/image).
pub mod Hex
pub mod Palette
pub mod Image
pub mod Encode
pub mod Svg
pub mod Roundtrip
pub mod Glasses
pub mod Collection
mod Tests
