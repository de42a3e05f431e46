-- ===== src/EcSrp5/Agreement.antt =====
-- The two ends of src/ecsrp5.rs against each other: each reads what the other wrote.
use btest_rs.Base.{
  ℕ, ◌≡◌, ◌<◌, ◌+◌, ◌%◌, refl, sym, ap, ◌∙◌, Bool, true, false, not, ◌==◌, ◌++◌, Bytes, length,
  some, arith, if◌then◌else◌, bytes_eq, bytes_eq_refl,
}
use native.Mathlib.Nat.{mod-lt}
use btest_rs.Stream
use btest_rs.Stream.{Outcome, ok, err, Exchange, write_all}
use btest_rs.Stream.Laws.{open_stream}
use btest_rs.EcSrp5.Point.{Point, scalar_mul}
use btest_rs.EcSrp5.Octets.{from_bytes_be}
use btest_rs.EcSrp5.Curve.{
  redp1, gen_public_key, gen_password_validator_priv, to_montgomery, WCurve,
}
use btest_rs.EcSrp5.Exchange.{
  Crypto, framed, curve, client_cc, server_cc, client_message, server_message, client_secret,
  client_authenticate, confirm, derive, server_authenticate, server_key, server_secret,
}
use btest_rs.EcSrp5.Padding.{padded_alike}
use btest_rs.EcSrp5.Field.{field_p}
use btest_rs.EcSrp5.ServerEnd.{IsUsername, server_authenticate_decides}
use btest_rs.EcSrp5.ClientEnd.{client_authenticate_lem}

length-to_montgomery : (w : WCurve) (pt : Point) → length ((to_montgomery w pt).0) ≡ 32
unfolding to_montgomery
length-to_montgomery w pt =
    (padded_alike ((pt.x + w.conversion_to_m) % field_p)
      (omega (arith, mod-lt (pt.x + w.conversion_to_m) {m = field_p} (omega arith)))).1.1

accepted :
    (b : Bool)
    → b ≡ true
    → (s s' : Stream.Stream)
    → Path (Outcome (Unit {0})) (if b then ok tt s else err Stream.auth_failed s') (ok tt s)
accepted true h s s' = refl
accepted false h s s' = absurd (ground arith)

confirmed :
    (c : Crypto) (received expected : Bytes) (s : Stream.Stream)
    → received ≡ expected
    → confirm c received expected s ≡ ok tt s
unfolding confirm
confirmed c received expected s h =
    rw (ap (bytes_eq received) (sym h) ∙ bytes_eq_refl received) refl

-- A client and a server of one name and password, with the salt and the random keys of a session.
module _ (c : Crypto) (username password salt s_a s_b : Bytes) where
  abbrev pub own : Bytes × ℕ
  own = gen_public_key c.modpow (curve c) s_a

  abbrev pub validator : Bytes
  validator = gen_password_validator_priv c.sha256 username password salt

  abbrev pub x_gamma : Bytes
  x_gamma = (gen_public_key c.modpow (curve c) validator).0

  abbrev pub Searched : Bool → Point → Type 0
  Searched parity v = redp1 c.fuel c.modpow c.sha256 (curve c) x_gamma parity ≡ some v

  -- The hash of the session, and the secrets of the two ends, where the searches found `gamma`, `v`.
  abbrev pub session_hash : Point → Bytes
  session_hash gamma = c.sha256 (own.0 ++ (server_key c s_b gamma).0)

  abbrev pub z_client : Point → Point → Bytes
  z_client gamma v =
      let key = server_key c s_b gamma in
      client_secret c validator (session_hash gamma) s_a (key.0) (not (key.1 == 0)) v

  abbrev pub z_server : Point → Bytes
  z_server gamma =
      server_secret c (derive c salt username password) (session_hash gamma) s_b (own.0)
        (not (own.1 == 0))

  -- The last message of the client, and that of the server.
  abbrev pub proof : Point → Point → Bytes
  proof gamma v = client_cc c (session_hash gamma) (z_client gamma v)

  abbrev pub reply : Point → Point → Bytes
  reply gamma v = server_cc c (session_hash gamma) (proof gamma v) (z_server gamma)

  module _ (digest : (x : Bytes) → length (c.sha256 x) ≡ 32) (gamma v : Point)
      (same : z_client gamma v ≡ z_server gamma) where
    pub short_proof : length (proof gamma v) < 256
    unfolding client_cc
    short_proof = omega (arith, digest (session_hash gamma ++ z_client gamma v))

    short_reply : length (reply gamma v) < 256
    unfolding server_cc
    short_reply = omega (arith, digest (session_hash gamma ++ (proof gamma v ++ z_server gamma)))

    pub length-own : length (own.0) ≡ 32
    unfolding gen_public_key
    length-own =
        length-to_montgomery (curve c) (scalar_mul c.modpow (curve c).g (from_bytes_be s_a))

    length-server_key : length ((server_key c s_b gamma).0) ≡ 32
    unfolding server_key
    length-server_key = length-to_montgomery (curve c) _

    pub proof_accepted :
        bytes_eq (proof gamma v) (client_cc c (session_hash gamma) (z_server gamma)) ≡ true
    proof_accepted =
        ap (λ z. bytes_eq (proof gamma v) (client_cc c (session_hash gamma) z)) (sym same)
        ∙ bytes_eq_refl (proof gamma v)

    reply_expected :
        reply gamma v ≡ server_cc c (session_hash gamma) (proof gamma v) (z_client gamma v)
    reply_expected = ap (server_cc c (session_hash gamma) (proof gamma v)) (sym same)

    server_ends :
        IsUsername username
        → Searched false gamma
        → (rest w : Bytes)
        → server_authenticate c s_b username
            (derive c salt username password)
            (open_stream (client_message c username own ++ (framed (proof gamma v) ++ rest)) w)
          ≡ ok tt (
              open_stream rest
                ((w ++ server_message c (server_key c s_b gamma) salt) ++ framed (reply gamma v)))
    unfolding derive
    server_ends name found_gamma rest w =
        server_authenticate_decides c s_b (derive c salt username password) username (own.0)
          (proof gamma v) rest w (own.1) gamma name length-own short_proof found_gamma
        ∙ accepted _ proof_accepted _ _

    client_ends :
        length salt ≡ 16
        → Searched true v
        → (rest w : Bytes)
        → client_authenticate c s_a username password (
            open_stream
              (server_message c (server_key c s_b gamma) salt ++ (framed (reply gamma v) ++ rest))
              w)
          ≡ ok tt
              (open_stream rest ((w ++ client_message c username own) ++ framed (proof gamma v)))
    client_ends h found_v rest w =
        client_authenticate_lem c s_a username password ((server_key c s_b gamma).0) salt
          (reply gamma v) rest w ((server_key c s_b gamma).1) v length-server_key h short_reply
          found_v
        ∙ confirmed c _ _ _ reply_expected

    -- A client and a server of one name and password, whose searches of `redp1` end within the fuel
    -- and who reach the same secret, let each other in when each reads what the other wrote: the
    -- server grants the test and the client takes it.
    pub ends_agree :
        IsUsername username
        → length salt ≡ 16
        → Searched false gamma
        → Searched true v
        → (rest rest' w w' : Bytes)
        → (server_authenticate c s_b username
              (derive c salt username password)
              (open_stream (client_message c username own ++ (framed (proof gamma v) ++ rest)) w)
            ≡ ok tt (
                open_stream rest (
                  (w ++ server_message c (server_key c s_b gamma) salt) ++ framed (reply gamma v))))
          × (client_authenticate c s_a username password (
                open_stream
                  (server_message c (server_key c s_b gamma) salt
                    ++ (framed (reply gamma v) ++ rest'))
                  w')
              ≡ ok tt (
                  open_stream rest'
                    ((w' ++ client_message c username own) ++ framed (proof gamma v))))
    ends_agree name h found_gamma found_v rest rest' w w' =
        (server_ends name found_gamma rest w, client_ends h found_v rest' w')
