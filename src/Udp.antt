-- ===== src/Udp.antt =====
-- torrent_scrape.py: the UDP tracker protocol (BEP 15), its messages and the exchange of one scrape.
pub mod Words
pub mod Messages
pub mod Exchange
pub mod Replies
pub mod Tracker
pub mod Closing
