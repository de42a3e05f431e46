-- ===== src/Server/Ports.antt =====
-- The ports of a UDP test: what `run_udp_test_server` and `run_udp_test_inner` of src/server.rs take
-- and announce, and what `run_udp_test_client` of src/client.rs makes of it. The sums wrap at 16 bits,
-- as they do in a release build.
use btest_rs.Base.{
  ℕ, ◌+◌, ◌*◌, ◌/◌, ◌%◌, ◌<◌, ◌≡◌, ◌↔◌, refl, ◌++◌, Bytes, get_or, u16_be, u16_mod, arith,
}
use btest_rs.Protocol.{btest_udp_port_start, btest_port_client_offset}
use btest_rs.Stream.{Exchange, ok, ◌>>=◌, pure, read_exact, write_all}
use btest_rs.Stream.Laws.{open_stream, read_exact_prefix}

-- The port of the next test, and the counter after it, which `fetch_add` wraps.
unfoldable pub take_port : ℕ → ℕ × ℕ
take_port offset = ((btest_udp_port_start + offset) % u16_mod, (offset + 1) % u16_mod)

unfoldable pub client_udp_port : ℕ → ℕ
client_udp_port server_udp_port = (server_udp_port + btest_port_client_offset) % u16_mod

-- The server's port, most significant byte first.
unfoldable pub announce_port : ℕ → Exchange {0} Unit
announce_port server_udp_port = write_all (u16_be server_udp_port)

-- The two ports on the client: the server's, and its own.
unfoldable pub read_ports : Exchange (ℕ × ℕ)
unfolding client_udp_port
read_ports = do
  port_buf ← read_exact 2
  let server_udp_port = get_or port_buf 0 0 * 256 + get_or port_buf 1 0
  pure (server_udp_port, client_udp_port server_udp_port)

be_of : (n : ℕ) → n < u16_mod → n / 256 % 256 * 256 + n % 256 ≡ n
be_of n h = omega arith

-- What the server announces for a test is what the client reads, with the same port of its own; and
-- of any 65536 tests in a row no two are given the same port: two
-- counts of the tests before give one port exactly when they agree modulo 65536.
pub ports_agree :
    (offset other : ℕ) (rest w : Bytes)
    → let port = (take_port offset).0 in
      (read_ports (open_stream (u16_be port ++ rest) w)
        ≡ ok (port, client_udp_port port) (open_stream rest w))
      × (announce_port port (open_stream rest w) ≡ ok tt (open_stream rest (w ++ u16_be port)))
      × ((port ≡ (take_port other).0) ↔ (offset % u16_mod ≡ other % u16_mod))
unfolding read_ports announce_port write_all take_port
ports_agree offset other rest w =
    let port = (take_port offset).0 in
    let exact = be_of port (omega arith) in
    (
      rw (read_exact_prefix 2 (u16_be port) rest w refl, exact) refl,
      refl,
      (λ h. omega arith, λ h. omega arith),
    )
