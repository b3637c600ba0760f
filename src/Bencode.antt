-- ===== src/Bencode.antt =====
-- torrent_scrape.py: `bdecode` and `bencode`, over byte strings as lists of numbers.
pub mod Decimal
pub mod Value
pub mod Decode
pub mod Encode
pub mod Order
pub mod Short
pub mod Canonical
pub mod RoundTrip
pub mod Total
pub mod Encodable
pub mod InfoHash
