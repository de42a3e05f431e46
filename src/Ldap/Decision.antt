-- ===== src/Ldap/Decision.antt =====
-- Whom the login of src/server_pro/ldap_auth.rs lets in.
use btest_rs.Base.{
  ℕ, zero, suc, ◌==◌, ◌≡◌, refl, ap, Bool, true, false, List, [], ◌∷◌, ◌++◌, append_assoc, Option,
  none, some, Bytes, codes, if◌then◌else◌, arith,
}
use btest_rs.Ldap.{
  bound, bind_found, first_entry, LdapConfig, Directory, authenticate, user_dn, filter, direct_dn,
  ldap_escape, escape_byte,
}
use btest_rs.Ldap.Escape.{ldap_escape-append}

-- A login without a service account.
abbrev pub direct : Bytes → LdapConfig
direct base_dn = record { base_dn = base_dn; bind_dn = none; bind_pass = none }

comma : (v : Bytes) → ldap_escape (44 ∷ v) ≡ 44 ∷ ldap_escape v
unfolding ldap_escape escape_byte
comma v = refl

moved : (u v base : Bytes) → direct_dn (u ++ 44 ∷ v) base ≡ direct_dn u (v ++ 44 ∷ base)
unfolding direct_dn
moved u v base = ap (◌++◌ (codes "uid=")) (append_assoc u (44 ∷ v) (44 ∷ base))

-- Without a service account a name may choose where it is looked for: what follows its first comma, if
-- the escape of a filter leaves that as it is, is taken for the start of the base, and the name before
-- the comma is bound below it.
pub name_chooses_base :
    (d : Directory) (u v base password : Bytes)
    → ldap_escape v ≡ v
    → authenticate (direct base) d (u ++ 44 ∷ v) password
      ≡ authenticate (direct (v ++ 44 ∷ base)) d u password
unfolding authenticate user_dn
name_chooses_base d u v base password plain =
    rw (ldap_escape-append u (44 ∷ v), comma v, plain, moved (ldap_escape u) v base) refl

-- A login with a service account.
abbrev pub by_service : Bytes → Bytes → Bytes → LdapConfig
by_service base_dn bind_dn bind_pass = record {
  base_dn = base_dn;
  bind_dn = some bind_dn;
  bind_pass = some bind_pass;
}

abbrev pub first_bound : Directory → Bytes → Option (List Bytes) → Option Bool
first_bound d password none = none
first_bound d password (some []) = some false
first_bound d password (some (dn ∷ dns)) = bound (d.simple_bind dn password)

one_entry :
    (d : Directory) (password : Bytes) (entries : Option (List Bytes))
    → bind_found (λ dn. d.simple_bind dn password) (first_entry entries)
      ≡ first_bound d password entries
one_entry d password none = refl
one_entry d password (some []) = refl
one_entry d password (some (dn ∷ dns)) = refl

-- With a service account that the directory accepts, a login is the bind of the first entry that the
-- escaped name finds, and is refused where it finds none; where the directory turns the service
-- account away, no login succeeds.
pub service_login_decides :
    (d : Directory) (base bind_dn bind_pass username password : Bytes) (rc : ℕ)
    → d.reached ≡ true
    → d.simple_bind bind_dn bind_pass ≡ some rc
    → authenticate (by_service base bind_dn bind_pass) d username password ≡ (
        if rc == 0
        then first_bound d password (d.search base (filter (ldap_escape username)))
        else some false)
unfolding authenticate user_dn
service_login_decides d base bind_dn bind_pass username password zero h e =
    rw (h, e) (one_entry d password (d.search base (filter (ldap_escape username))))
service_login_decides d base bind_dn bind_pass username password (suc rc) h e =
    rw (h, e) (ground arith)
