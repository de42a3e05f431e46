-- ===== src/Ldap/Escape.antt =====
-- The escape of a name in a filter, in src/server_pro/ldap_auth.rs.
use btest_rs.Base.{
  ℕ, ◌+◌, ◌-◌, ◌*◌, ◌≡◌, refl, ap, ◌∙◌, sym, Bool, true, false, ◌==◌, ltb, [], ◌∷◌, ◌++◌, Bytes,
  absent, absent-append, append_assoc, ◌||◌, if◌then◌else◌, arith,
}
use btest_rs.Ldap.{escape_byte, ldap_escape}

abbrev hex_value : ℕ → ℕ
hex_value c = if ltb c 58 then c - 48 else c - 87

-- How a server reads a value, by RFC 4515: a backslash and two hexadecimal digits stand for a byte.
unfoldable pub unescape : Bytes → Bytes
unescape [] = []
unescape (c ∷ []) = c ∷ []
unescape (c ∷ a ∷ []) = c ∷ a ∷ []
unescape (c ∷ a ∷ b ∷ rest) =
    let escaped = unescape rest in
    let plain = unescape (a ∷ b ∷ rest) in
    if c == 92 then (hex_value a * 16 + hex_value b) ∷ escaped else c ∷ plain

plain_first : (c : ℕ) (rest : Bytes) → (c == 92) ≡ false → unescape (c ∷ rest) ≡ c ∷ unescape rest
unfolding unescape
plain_first c [] h = refl
plain_first c (a ∷ []) h = refl
plain_first c (a ∷ b ∷ rest) h = rw h refl

unescape-escape_byte : (c : ℕ) (rest : Bytes) → unescape (escape_byte c ++ rest) ≡ c ∷ unescape rest
unfolding unescape escape_byte
unescape-escape_byte c rest = ground (arith, plain_first c rest)

unescape-ldap_escape : (s : Bytes) → unescape (ldap_escape s) ≡ s
unfolding ldap_escape unescape
unescape-ldap_escape [] = refl
unescape-ldap_escape (c ∷ s) =
    unescape-escape_byte c (ldap_escape s) ∙ ap (◌∷◌ c) (unescape-ldap_escape s)

-- The bytes that end or widen a filter: NUL, the parentheses and the star.
unfoldable pub is_special : ℕ → Bool
is_special m = m == 0 || (m == 40 || (m == 41 || m == 42))

absent-escape_byte : (m c : ℕ) → is_special m ≡ true → absent m (escape_byte c) ≡ true
unfolding absent escape_byte is_special
absent-escape_byte m c h = ground arith

absent-ldap_escape : (m : ℕ) (s : Bytes) → is_special m ≡ true → absent m (ldap_escape s) ≡ true
unfolding ldap_escape absent
absent-ldap_escape m [] h = refl
absent-ldap_escape m (c ∷ s) h =
    absent-append m (escape_byte c) (ldap_escape s) (absent-escape_byte m c h)
      (absent-ldap_escape m s h)

-- An escaped name has none of the bytes that end or widen a filter, and a server that reads it by RFC
-- 4515 reads the name: two names are never escaped alike.
pub escaped_name :
    (s : Bytes) (m : ℕ)
    → is_special m ≡ true
    → (absent m (ldap_escape s) ≡ true) × (unescape (ldap_escape s) ≡ s)
escaped_name s m h = (absent-ldap_escape m s h, unescape-ldap_escape s)

pub ldap_escape-append : (xs ys : Bytes) → ldap_escape (xs ++ ys) ≡ ldap_escape xs ++ ldap_escape ys
unfolding ldap_escape
ldap_escape-append [] ys = refl
ldap_escape-append (c ∷ xs) ys =
    ap (◌++◌ (escape_byte c)) (ldap_escape-append xs ys)
    ∙ sym (append_assoc (escape_byte c) (ldap_escape xs) (ldap_escape ys))
