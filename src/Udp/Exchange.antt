-- ===== src/Udp/Exchange.antt =====
-- `scrape_udp_tracker`: the two round trips over one socket. The network is a parameter: what comes
-- back, or is raised, for the n-th datagram sent. So are the transaction ids.
use linux_iso_seeder.Base.{ℕ, List, [], ◌∷◌, ◌++◌, Result, ok, raised}
use linux_iso_seeder.Base.Text.{Text}
use linux_iso_seeder.Udp.Words.{Bytes}
use linux_iso_seeder.Udp.Messages.{
  Stats, build_udp_connect_request, parse_udp_connect_response, build_udp_scrape_request,
  parse_udp_scrape_response,
}

-- What is done to the socket.
pub data Event : Type 0 where
  sent : Text → ℕ → Bytes → Event
  closed : Event

-- A part of the exchange: its result, and what it did to the socket.
abbrev pub Session : Type 0 → Type 0
Session A = Result A × List Event

infixl 5 ◌>>=◌
abbrev pub ◌>>=◌ : {A B : Type 0} → Session A → (A → Session B) → Session B
◌>>=◌ m f = elim m.0 [
  | ok a ↦ (let (r, events) = f a in (r, m.1 ++ events))
  | raised e ↦ (raised e, m.1)
]

abbrev pub lift : {A : Type 0} → Result A → Session A
lift r = (r, [])

-- `try: ... finally: sock.close()`
abbrev finally_close : {A : Type 0} → Session A → Session A
finally_close (r, events) = (r, events ++ closed ∷ [])

module _ (answer : ℕ → Bytes → Result Bytes) (new_transaction_id : ℕ → ℕ) where
  -- `sock.sendto(request, addr)`, then `sock.recvfrom(...)`.
  unfoldable pub send_receive : Text → ℕ → ℕ → Bytes → Session Bytes
  send_receive host port round request = (answer round request, sent host port request ∷ [])

  unfoldable pub scrape_udp_tracker : Text → ℕ → Bytes → Session Stats
  unfolding send_receive
  scrape_udp_tracker host port info_hash = finally_close do
    connect_request ← lift (build_udp_connect_request (new_transaction_id 0))
    connect_response ← send_receive host port 0 connect_request
    connection_id ← lift (parse_udp_connect_response connect_response (new_transaction_id 0))
    request ← lift (build_udp_scrape_request connection_id (new_transaction_id 1) info_hash)
    response ← send_receive host port 1 request
    lift (parse_udp_scrape_response response (new_transaction_id 1))
