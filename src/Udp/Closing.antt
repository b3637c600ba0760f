-- ===== src/Udp/Closing.antt =====
-- Whatever the network does: who is talked to, how often, and that the socket is closed.
use linux_iso_seeder.Base.{
  ℕ, ◌+◌, ◌≤◌, ◌≡◌, refl, List, [], ◌∷◌, ◌++◌, arith, Result, ok, raised, length, length-append,
  All, All-append,
}
use linux_iso_seeder.Base.Text.{Text}
use linux_iso_seeder.Udp.Words.{Bytes}
use linux_iso_seeder.Udp.Messages.{
  build_udp_connect_request, parse_udp_connect_response, build_udp_scrape_request,
  parse_udp_scrape_response,
}
use linux_iso_seeder.Udp.Exchange.{
  Event, sent, closed, Session, ◌>>=◌, lift, send_receive, scrape_udp_tracker,
}

-- A datagram to this address.
abbrev pub IsSentTo : Text → ℕ → Event → Type 0
IsSentTo host port (sent h p b) = (h ≡ host) × (p ≡ port)
IsSentTo host port closed = ⊥

module _ (host : Text) (port : ℕ) where
  -- At most `n` datagrams, all to the address, and nothing else.
  abbrev Sends : {A : Type 0} → ℕ → Session A → Type 0
  Sends n m = All (IsSentTo host port) m.1 × (length m.1 ≤ n)

  Sends-bind :
      {A B : Type 0} (i j : ℕ) (m : Session A) (f : A → Session B)
      → Sends i m
      → ((a : A) → Sends j (f a))
      → Sends (i + j) (m >>= f)
  Sends-bind i j (ok a, events) f h k = (
    All-append (IsSentTo host port) events (f a).1 h.0 (k a).0,
    omega (arith, length-append events (f a).1, h.1, (k a).1),
  )
  Sends-bind i j (raised e, events) f h k = (h.0, omega (arith, h.1))

  Sends-lift : {A : Type 0} (r : Result A) → Sends 0 (lift r)
  Sends-lift r = (tt, omega arith)

-- Whatever the network answers and raises, the scrape sends at most two datagrams, both to the
-- tracker's address, and the last thing that it does is to close the socket, once.
pub scrape_udp_tracker_closes :
    (answer : ℕ → Bytes → Result Bytes) (ids : ℕ → ℕ) (host : Text) (port : ℕ) (hash : Bytes)
    → (events : List Event) × ((scrape_udp_tracker answer ids host port hash).1
        ≡ events ++ closed ∷ [])
      × All (IsSentTo host port) events
      × (length events ≤ 2)
unfolding scrape_udp_tracker
scrape_udp_tracker_closes answer ids host port hash =
    let sends =
      Sends-bind host port 0 2 (lift (build_udp_connect_request (ids 0))) _
        (Sends-lift host port (build_udp_connect_request (ids 0)))
        λ first.
          Sends-bind host port 1 1 (send_receive answer ids host port 0 first) _
            (((refl, refl), tt), omega arith)
            λ reply.
              Sends-bind host port 0 1 (lift (parse_udp_connect_response reply (ids 0))) _
                (Sends-lift host port (parse_udp_connect_response reply (ids 0)))
                λ cid.
                  Sends-bind host port 0 1 (lift (build_udp_scrape_request cid (ids 1) hash)) _
                    (Sends-lift host port (build_udp_scrape_request cid (ids 1) hash))
                    λ second.
                      Sends-bind host port 1 0 (send_receive answer ids host port 1 second)
                        (λ response. lift (parse_udp_scrape_response response (ids 1)))
                        (((refl, refl), tt), omega arith)
                        λ response.
                          Sends-lift host port (parse_udp_scrape_response response (ids 1)) in
    (_, refl, sends.0, sends.1)
