-- ===== src/EcSrp5/ClientEnd.antt =====
-- `client_authenticate` of src/ecsrp5.rs on what a server sends.
use btest_rs.Base.{
  ℕ, ◌≡◌, ◌<◌, refl, sym, ap, ◌∙◌, true, false, not, ◌==◌, [], ◌∷◌, ◌++◌, append_assoc, Bytes,
  length, length-append, take, drop, take_prefix, drop_prefix, ltb, some, arith, append-nil,
}
use btest_rs.Stream.{Exchange, write_all}
use btest_rs.Stream.Laws.{open_stream}
use btest_rs.EcSrp5.Point.{Point}
use btest_rs.EcSrp5.Curve.{redp1, gen_public_key, gen_password_validator_priv}
use btest_rs.EcSrp5.Exchange.{
  Crypto, framed, curve, client_cc, server_cc, client_message, server_message, client_secret,
  client_proof, client_challenged, client_authenticate, confirm,
}
use btest_rs.EcSrp5.Frames.{read_framed-framed, get_or-append}

module _ (c : Crypto) (s_a username password : Bytes) where
  proved :
      (j z reply rest w : Bytes)
      → length reply < 256
      → client_proof c j z (open_stream (framed reply ++ rest) w)
        ≡ confirm c reply
            (server_cc c j (client_cc c j z) z)
            (open_stream rest (w ++ framed (client_cc c j z)))
  unfolding client_proof write_all
  proved j z reply rest w h =
      rw (read_framed-framed reply rest (w ++ framed (client_cc c j z)) h) refl

  challenge_size :
      (x salt : Bytes) (pb : ℕ) → length x ≡ 32 → length salt ≡ 16 → length (x ++ (pb ∷ salt)) ≡ 49
  challenge_size x salt pb h h' = omega (arith, length-append x (pb ∷ salt))

  drop_key : (x salt : Bytes) (pb : ℕ) → length x ≡ 32 → drop 33 (x ++ (pb ∷ salt)) ≡ salt
  drop_key x salt pb h =
      ap (drop 33) (sym (append_assoc x (pb ∷ []) salt))
      ∙ drop_prefix 33 (x ++ (pb ∷ [])) salt (omega (arith, length-append x (pb ∷ [])))

  take_whole : (xs : Bytes) (n : ℕ) → length xs ≡ n → take n xs ≡ xs
  take_whole xs n h = ap (take n) (sym (append-nil xs)) ∙ take_prefix n xs [] h

  -- The secret of a client that was sent `x`, `pb` and `salt`.
  challenge_read :
      (x_w_a x salt : Bytes) (pb : ℕ) (v : Point)
      → length x ≡ 32
      → length salt ≡ 16
      → let i = gen_password_validator_priv c.sha256 username password salt in
        redp1 c.fuel c.modpow c.sha256 (curve c) ((gen_public_key c.modpow (curve c) i).0) true
          ≡ some v
        → let j = c.sha256 (x_w_a ++ x) in
          Path
            (Exchange {0} Unit)
            (client_challenged c username password s_a x_w_a (x ++ (pb ∷ salt)))
            (client_proof c j (client_secret c i j s_a x (not (pb == 0)) v))
  unfolding client_challenged
  challenge_read x_w_a x salt pb v h h' e =
      rw
        (
          drop_key x salt pb h,
          take_whole salt 16 h',
          take_prefix 32 x (pb ∷ salt) h,
          get_or-append x pb 0 salt 32 h,
          e,
        )
        refl

  not_short : (n : ℕ) → n ≡ 49 → ltb n 49 ≡ false
  not_short n h = ground arith

  size_byte : (n : ℕ) → n ≡ 49 → n < 256
  size_byte n h = omega arith

  -- A client that is sent a key of 32 bytes, a byte of parity and a salt of 16 has sent its name and
  -- key, sends the digest of the session's hash and its own secret, and ends as the next message
  -- compares with the digest that the server of that secret would send. This is where the search of
  -- `redp1` ends within the fuel.
  pub client_authenticate_lem :
      (x salt reply rest w : Bytes) (pb : ℕ) (v : Point)
      → length x ≡ 32
      → length salt ≡ 16
      → length reply < 256
      → let i = gen_password_validator_priv c.sha256 username password salt in
        redp1 c.fuel c.modpow c.sha256 (curve c) ((gen_public_key c.modpow (curve c) i).0) true
          ≡ some v
        → let own = gen_public_key c.modpow (curve c) s_a in
          let j = c.sha256 (own.0 ++ x) in
          let z = client_secret c i j s_a x (not (pb == 0)) v in
          client_authenticate c s_a username password
            (open_stream (server_message c (x, pb) salt ++ (framed reply ++ rest)) w)
          ≡ confirm c reply
              (server_cc c j (client_cc c j z) z)
              (open_stream rest ((w ++ client_message c username own) ++ framed (client_cc c j z)))
  unfolding client_authenticate server_message write_all
  client_authenticate_lem x salt reply rest w pb v h h' h'' e =
      let own = gen_public_key c.modpow (curve c) s_a in
      let i = gen_password_validator_priv c.sha256 username password salt in
      let j = c.sha256 (own.0 ++ x) in
      let size = challenge_size x salt pb h h' in
      rw
        (
          read_framed-framed (x ++ (pb ∷ salt)) (framed reply ++ rest)
              (w ++ client_message c username own) (size_byte _ size),
          not_short _ size,
          challenge_read (own.0) x salt pb v h h' e,
        )
        (proved j (client_secret c i j s_a x (not (pb == 0)) v) reply rest
          (w ++ client_message c username own) h'')
