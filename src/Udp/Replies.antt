-- ===== src/Udp/Replies.antt =====
-- What the two response parsers accept, and what they raise.
use linux_iso_seeder.Base.{
  ℕ, ◌≤◌, ◌<◌, ◌≡◌, ◌↔◌, ◌⊎◌, arith, Error, ok, raised, udp_tracker_error, length,
}
use linux_iso_seeder.Udp.Words.{Bytes, AreBytes, u32_at, u64_at, u32_at-lt}
use linux_iso_seeder.Udp.Messages.{Stats, parse_udp_connect_response, parse_udp_scrape_response}

-- A connect response is accepted with the connection id `cid` exactly when it has 16 bytes or more,
-- the action is 0, the transaction id is the request's, and the 64 bits at offset 8 are `cid`.
pub parse_udp_connect_response_iff :
    (data_ : Bytes) (tid cid : ℕ)
    → (parse_udp_connect_response data_ tid ≡ ok cid) ↔ (
        (16 ≤ length data_)
        × (u32_at 0 data_ ≡ 0)
        × (u32_at 4 data_ ≡ tid)
        × (u64_at 8 data_ ≡ cid))
parse_udp_connect_response_iff data_ tid cid = unfold parse_udp_connect_response in ground arith

-- A scrape response of bytes is accepted only with 20 bytes or more, action 2 and the request's
-- transaction id, and each count is then below 2 ^ 32.
pub parse_udp_scrape_response_bounds :
    (data_ : Bytes) (tid : ℕ) (stats : Stats)
    → AreBytes data_
    → parse_udp_scrape_response data_ tid ≡ ok stats
    → (20 ≤ length data_)
      × (u32_at 0 data_ ≡ 2)
      × (u32_at 4 data_ ≡ tid)
      × (stats.seeders < 4294967296)
      × (stats.leechers < 4294967296)
      × (stats.completed < 4294967296)
parse_udp_scrape_response_bounds data_ tid stats bs h =
    let a = u32_at-lt 8 data_ bs in
    let b = u32_at-lt 16 data_ bs in
    let c = u32_at-lt 12 data_ bs in unfold parse_udp_scrape_response in ground arith

pub parse_udp_scrape_response_accepts :
    (data_ : Bytes) (tid : ℕ) (stats : Stats)
    → 20 ≤ length data_
    → u32_at 0 data_ ≡ 2
    → u32_at 4 data_ ≡ tid
    → u32_at 8 data_ ≡ stats.seeders
    → u32_at 12 data_ ≡ stats.completed
    → u32_at 16 data_ ≡ stats.leechers
    → parse_udp_scrape_response data_ tid ≡ ok stats
parse_udp_scrape_response_accepts data_ tid stats l a t s c e =
    unfold parse_udp_scrape_response in ground arith

-- Whatever comes back, the parsers raise nothing but `UdpTrackerError`.
pub parsers_raise :
    (data_ : Bytes) (tid : ℕ) (e : Error)
    → ((parse_udp_connect_response data_ tid ≡ raised e)
        ⊎ (parse_udp_scrape_response data_ tid ≡ raised e))
    → e ≡ udp_tracker_error
parsers_raise data_ tid e h =
    unfold parse_udp_connect_response parse_udp_scrape_response in ground arith
