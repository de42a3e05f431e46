-- ===== src/Protocol/Token.antt =====
-- The session token of a TCP test with several connections, as src/server.rs and
-- src/server_pro/server_loop.rs put it into the reply that accepts a command.
use btest_rs.Base.{
  ℕ, ◌+◌, ◌*◌, ◌/◌, ◌%◌, Bool, not, ◌&&◌, [], ◌∷◌, Bytes, ltb, get_or, if◌then◌else◌,
}
use btest_rs.Protocol.{auth_ok}
use btest_rs.Protocol.Command
use btest_rs.Protocol.Command.{Command}

unfoldable pub is_tcp_multi : Command → Bool
is_tcp_multi c = not (Command.is_udp c) && ltb 0 c.tcp_conn_count

unfoldable pub ok_response : Command → ℕ → Bytes
unfolding is_tcp_multi
ok_response c token = if is_tcp_multi c then 1 ∷ token / 256 ∷ token % 256 ∷ 0 ∷ [] else auth_ok

-- The first two bytes of what a client sends, most significant first.
unfoldable pub token_of : Bytes → ℕ
token_of cmd_buf = get_or cmd_buf 0 0 * 256 + get_or cmd_buf 1 0

-- The reply to a connection that joins.
unfoldable pub joined_reply : Bytes → Bytes
joined_reply cmd_buf = 1 ∷ get_or cmd_buf 0 0 ∷ get_or cmd_buf 1 0 ∷ 0 ∷ []
