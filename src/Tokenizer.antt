-- ===== src/Tokenizer.antt =====
-- src/tokenizer: UTF-8 and the classes of code points.
pub mod Utf8
pub mod Classes
pub mod Pieces
pub mod Bpe
pub mod Bytes
pub mod Segments
pub mod Codec
mod Tests
