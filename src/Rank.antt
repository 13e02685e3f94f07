-- ===== src/Rank.antt =====
-- The ranking of search results: server/src/shopify/rank.ts, with the types of a product of
-- server/src/shopify/types.ts. Floating-point numbers, the normal form of a text and the parsing of
-- a price are parameters.
pub mod Products
pub mod Distance
pub mod Search
pub mod Edits
pub mod Best
mod Examples
