-- ===== src/Scrape.antt =====
-- torrent_scrape.py: the trackers of a torrent, and what one of them says of its swarm.
pub mod Url
pub mod Quote
pub mod Announce
pub mod Response
pub mod Safe
pub mod Trackers
pub mod Contacts
pub mod First
