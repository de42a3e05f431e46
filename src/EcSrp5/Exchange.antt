-- ===== src/EcSrp5/Exchange.antt =====
-- The two ends of the exchange of src/ecsrp5.rs, each with its random key as an argument. The digest
-- of the last byte string of a search that finds no point is not defined: `redp1` runs on fuel.
use btest_rs.Base.{
  ℕ, suc, ◌+◌, ◌*◌, ◌%◌, Bool, true, false, not, Option, none, some, [], ◌∷◌, ◌++◌, Bytes, length,
  take, drop, get_or, bytes_eq, find_zero, is_utf8, ltb, ◌==◌, if◌then◌else◌,
}
use btest_rs.Stream
use btest_rs.Stream.{Exchange, ◌>>=◌, ◌>>◌, pure, raise, read_exact, write_all}
use btest_rs.EcSrp5.Field.{Modpow, curve_order}
use btest_rs.EcSrp5.Octets.{from_bytes_be}
use btest_rs.EcSrp5.Point
use btest_rs.EcSrp5.Point.{Point}
use btest_rs.EcSrp5.Curve
use btest_rs.EcSrp5.Curve.{
  WCurve, lift_x, to_montgomery, gen_public_key, redp1, gen_password_validator_priv,
}

-- The code of packages, and the fuel of the search for a point.
pub record Crypto : Type 0 where
  pub modpow : Modpow
  pub sha256 : Bytes → Bytes
  pub fuel : ℕ

pub record EcSrp5Credentials : Type 0 where
  pub salt : Bytes
  pub x_gamma : Bytes
  pub gamma_parity : Bool

-- One byte of length, and the message.
abbrev pub framed : Bytes → Bytes
framed payload = length payload % 256 ∷ payload

unfoldable pub read_framed : Exchange Bytes
read_framed = do header ← read_exact 1; read_exact (get_or header 0 0)

-- A search that has not ended says nothing of the peer.
abbrev pub found : Option Point → (Point → Exchange {0} Unit) → Exchange {0} Unit
found none f = raise Stream.io
found (some v) f = f v

module _ (c : Crypto) where
  unfoldable pub curve : WCurve
  curve = Curve.new c.modpow

  unfoldable pub derive : Bytes → Bytes → Bytes → EcSrp5Credentials
  derive salt username password =
      let i = gen_password_validator_priv c.sha256 username password salt in
      let key = gen_public_key c.modpow curve i in
      record { salt = salt; x_gamma = key.0; gamma_parity = not (key.1 == 0) }

  unfoldable pub client_cc : Bytes → Bytes → Bytes
  client_cc j z = c.sha256 (j ++ z)

  unfoldable pub server_cc : Bytes → Bytes → Bytes → Bytes
  server_cc j cc z = c.sha256 (j ++ (cc ++ z))

  unfoldable pub client_message : Bytes → Bytes × ℕ → Bytes
  client_message username key = framed (username ++ 0 ∷ (key.0 ++ key.1 ∷ []))

  -- The client's secret, where `v` is the point that takes the password off the server's key.
  unfoldable pub client_secret : Bytes → Bytes → Bytes → Bytes → Bool → Point → Bytes
  client_secret i j s_a x_w_b parity v =
      let w_b_unblinded =
        Point.add c.modpow (lift_x c.modpow curve (from_bytes_be x_w_b) parity) v in
      let scalar = (from_bytes_be i * from_bytes_be j + from_bytes_be s_a) % curve_order in
      (to_montgomery curve (Point.scalar_mul c.modpow w_b_unblinded scalar)).0

  -- The last message is compared; another that is text is taken for an error of the server.
  unfoldable pub confirm : Bytes → Bytes → Exchange {0} Unit
  confirm received expected =
      if bytes_eq received expected
      then pure tt
      else if is_utf8 received
      then raise Stream.protocol
      else raise Stream.auth_failed

  unfoldable pub client_proof : Bytes → Bytes → Exchange {0} Unit
  client_proof j z = do
    write_all (framed (client_cc j z))
    received ← read_framed
    confirm received (server_cc j (client_cc j z) z)

  unfoldable pub client_challenged : Bytes → Bytes → Bytes → Bytes → Bytes → Exchange {0} Unit
  client_challenged username password s_a x_w_a resp_data =
      let x_w_b = take 32 resp_data in
      let x_w_b_parity = not (get_or resp_data 32 0 == 0) in
      let salt = take 16 (drop 33 resp_data) in
      let i = gen_password_validator_priv c.sha256 username password salt in
      let x_gamma = (gen_public_key c.modpow curve i).0 in
      let j = c.sha256 (x_w_a ++ x_w_b) in
      found (redp1 c.fuel c.modpow c.sha256 curve x_gamma true)
        (λ v. client_proof j (client_secret i j s_a x_w_b x_w_b_parity v))

  unfoldable pub client_authenticate : Bytes → Bytes → Bytes → Exchange {0} Unit
  client_authenticate s_a username password = do
    let key = gen_public_key c.modpow curve s_a
    write_all (client_message username key)
    resp_data ← read_framed
    if ltb (length resp_data) 49
        then raise Stream.protocol
        else client_challenged username password s_a (key.0) resp_data

  -- Z = s_b * (W_a + j * gamma)
  unfoldable pub server_secret : EcSrp5Credentials → Bytes → Bytes → Bytes → Bool → Bytes
  server_secret creds j s_b x_w_a parity =
      let w_a = lift_x c.modpow curve (from_bytes_be x_w_a) parity in
      let gamma = lift_x c.modpow curve (from_bytes_be creds.x_gamma) creds.gamma_parity in
      let j_gamma = Point.scalar_mul c.modpow gamma (from_bytes_be j) in
      let sum = Point.add c.modpow w_a j_gamma in
      (to_montgomery curve (Point.scalar_mul c.modpow sum (from_bytes_be s_b))).0

  -- W_b = s_b * G + redp1(x_gamma, 0), where `gamma` is the point found.
  unfoldable pub server_key : Bytes → Point → Bytes × ℕ
  server_key s_b gamma =
      to_montgomery curve
        (Point.add c.modpow (Point.scalar_mul c.modpow (curve.g) (from_bytes_be s_b)) gamma)

  unfoldable pub server_message : Bytes × ℕ → Bytes → Bytes
  server_message key salt = framed (key.0 ++ (key.1 ∷ salt))

  unfoldable pub server_verify : Bytes → Bytes → Exchange {0} Unit
  server_verify j z = do
    cc ← read_framed
    if bytes_eq cc (client_cc j z)
        then write_all (framed (server_cc j cc z))
        else raise Stream.auth_failed

  unfoldable pub server_challenge :
      EcSrp5Credentials → Bytes → Bytes → Bool → Point → Exchange {0} Unit
  server_challenge creds s_b x_w_a x_w_a_parity gamma = do
    let key = server_key s_b gamma
    write_all (server_message key creds.salt)
    let j = c.sha256 (x_w_a ++ key.0)
    server_verify j (server_secret creds j s_b x_w_a x_w_a_parity)

  -- What the server makes of the first message, with the place of its first zero.
  unfoldable pub answer_at :
      Bytes → EcSrp5Credentials → Bytes → Bytes → Option ℕ → Exchange {0} Unit
  answer_at s_b creds username msg1_data none = raise Stream.protocol
  answer_at s_b creds username msg1_data (some null_pos) =
      let client_username = take null_pos msg1_data in
      let key_start = suc null_pos in
      let key = drop key_start msg1_data in
      if not (is_utf8 client_username)
      then raise Stream.protocol
      else if not (bytes_eq client_username username)
      then raise Stream.auth_failed
      else if ltb (length msg1_data) (key_start + 33)
      then raise Stream.protocol
      else found (redp1 c.fuel c.modpow c.sha256 curve creds.x_gamma false)
          (server_challenge creds s_b (take 32 key) (not (get_or key 32 0 == 0)))

  unfoldable pub server_answer : Bytes → EcSrp5Credentials → Bytes → Bytes → Exchange {0} Unit
  server_answer s_b creds username msg1_data =
      answer_at s_b creds username msg1_data (find_zero msg1_data)

  unfoldable pub server_authenticate : Bytes → Bytes → EcSrp5Credentials → Exchange {0} Unit
  server_authenticate s_b username creds = do
    msg1_data ← read_framed
    server_answer s_b creds username msg1_data
