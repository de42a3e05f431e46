-- ===== src/Ldap/Tests.antt =====
-- A directory with one user, for src/server_pro/ldap_auth.rs.
use btest_rs.Base.{◌≡◌, refl, true, [], ◌∷◌, some, Bytes, codes, bytes_eq, absent, if◌then◌else◌}
use btest_rs.Ldap.{Directory, ldap_escape}
use btest_rs.Ldap.Escape.{is_special, unescape, escaped_name}

abbrev password : Bytes
password = codes "s3"

abbrev directory : Directory
directory = record {
  reached = true;
  simple_bind = λ dn given. some (if bytes_eq given password then 0 else 49);
  search = λ base f. some (codes "uid=bob,dc=x" ∷ []);
}

escaped_name_example :
    (absent 40 (ldap_escape (codes "a*)(b")) ≡ true)
    × (unescape (ldap_escape (codes "a*)(b")) ≡ codes "a*)(b")
unfolding is_special
escaped_name_example = escaped_name (codes "a*)(b") 40 refl

escaped : ldap_escape (codes "a*") ≡ codes "a\\2a"
unfolding ldap_escape
escaped = refl
