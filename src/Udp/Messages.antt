-- ===== src/Udp/Messages.antt =====
-- The requests and the parsers of the responses.
use linux_iso_seeder.Base.{
  ℕ, ◌&&◌, ◌++◌, Result, ok, raise_if, udp_tracker_error, struct_error, ◌>>=◌, ◌>>◌, length, ltb,
  ◌==◌, not, if◌then◌else◌,
}
use linux_iso_seeder.Udp.Words.{Bytes, pack_u32, pack_u64, u32_at, u64_at}

abbrev pub udp_tracker_protocol_id : ℕ
udp_tracker_protocol_id = 0x41727101980

abbrev pub udp_action_connect : ℕ
udp_action_connect = 0

abbrev pub udp_action_scrape : ℕ
udp_action_scrape = 2

abbrev pub udp_action_error : ℕ
udp_action_error = 3

-- `struct.pack(">QII", ...)`
unfoldable pub pack_qii : ℕ → ℕ → ℕ → Result Bytes
unfolding pack_u32 pack_u64
pack_qii q a b = do x ← pack_u64 q; y ← pack_u32 a; z ← pack_u32 b; ok (x ++ (y ++ z))

unfoldable pub build_udp_connect_request : ℕ → Result Bytes
unfolding pack_qii
build_udp_connect_request transaction_id =
    pack_qii udp_tracker_protocol_id udp_action_connect transaction_id

unfoldable pub build_udp_scrape_request : ℕ → ℕ → Bytes → Result Bytes
unfolding pack_qii
build_udp_scrape_request connection_id transaction_id info_hash = do
  raise_if (not (length info_hash == 20)) udp_tracker_error
  header ← pack_qii connection_id udp_action_scrape transaction_id
  ok (header ++ info_hash)

-- `struct.unpack` of a slice of `data` that ends at `size` raises if the slice is shorter than its
-- format.
abbrev pub unpack_raises : Bytes → ℕ → Result (Unit {0})
unpack_raises data_ size = raise_if (ltb (length data_) size) struct_error

-- `_check_for_udp_error_action`
unfoldable pub check_for_udp_error_action : Bytes → ℕ → Result (Unit {0})
unfolding u32_at
check_for_udp_error_action data_ transaction_id =
    if ltb (length data_) 8
    then ok tt
    else unpack_raises data_ 8
      >> raise_if (u32_at 0 data_ == udp_action_error && u32_at 4 data_ == transaction_id)
          udp_tracker_error

unfoldable pub parse_udp_connect_response : Bytes → ℕ → Result ℕ
unfolding check_for_udp_error_action u64_at
parse_udp_connect_response data_ transaction_id = do
  check_for_udp_error_action data_ transaction_id
  raise_if (ltb (length data_) 16) udp_tracker_error
  unpack_raises data_ 16
  raise_if (not (u32_at 0 data_ == udp_action_connect)) udp_tracker_error
  raise_if (not (u32_at 4 data_ == transaction_id)) udp_tracker_error
  ok (u64_at 8 data_)

-- A tracker's counts for one torrent.
pub record Stats : Type 0 where
  pub seeders : ℕ
  pub leechers : ℕ
  pub completed : ℕ

unfoldable pub parse_udp_scrape_response : Bytes → ℕ → Result Stats
unfolding check_for_udp_error_action
parse_udp_scrape_response data_ transaction_id = do
  check_for_udp_error_action data_ transaction_id
  raise_if (ltb (length data_) 20) udp_tracker_error
  unpack_raises data_ 8
  raise_if (not (u32_at 0 data_ == udp_action_scrape)) udp_tracker_error
  raise_if (not (u32_at 4 data_ == transaction_id)) udp_tracker_error
  unpack_raises data_ 20
  ok (record { seeders = u32_at 8 data_; leechers = u32_at 16 data_; completed = u32_at 12 data_ })
