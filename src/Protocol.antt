-- ===== src/Protocol.antt =====
-- The reply protocols by which a ChatGPT answer counts as a result: the block markers
-- (Protocol/Block), the review block of src/review.ts and the result block of
-- shared/structuredResult.ts. `JSON.parse` is a parameter of both parsers: it takes a text to a value,
-- or throws (`none`), and nothing else is assumed of it.
pub mod Block
pub mod Keys
pub mod Review
pub mod Structured
