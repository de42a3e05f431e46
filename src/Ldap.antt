-- ===== src/Ldap.antt =====
-- The LDAP login of src/server_pro/ldap_auth.rs. What the directory answers is an argument: the code
-- that asks it is that of a package.
pub mod Escape
pub mod Decision
mod Tests
use btest_rs.Base.{
  ℕ, zero, suc, Bool, true, false, not, ◌==◌, List, [], ◌∷◌, ◌++◌, Option, none, some, Bytes, codes,
  if◌then◌else◌,
}

pub record LdapConfig : Type 0 where
  pub base_dn : Bytes
  pub bind_dn : Option Bytes
  pub bind_pass : Option Bytes

-- The answers of the directory: whether it is reached, the result code of a bind by name and password,
-- and the names of the entries below a base that match a filter. `none` is an error.
pub record Directory : Type 0 where
  pub reached : Bool
  pub simple_bind : Bytes → Bytes → Option ℕ
  pub search : Bytes → Bytes → Option (List Bytes)

-- The characters that RFC 4515 has escaped are single bytes in UTF-8.
unfoldable pub escape_byte : ℕ → Bytes
escape_byte c =
    if c == 92
    then codes "\\5c"
    else if c == 42
    then codes "\\2a"
    else if c == 40
    then codes "\\28"
    else if c == 41
    then codes "\\29"
    else if c == 0
    then codes "\\00"
    else c ∷ []

unfoldable pub ldap_escape : Bytes → Bytes
unfolding escape_byte
ldap_escape [] = []
ldap_escape (c ∷ input) = escape_byte c ++ ldap_escape input

unfoldable pub filter : Bytes → Bytes
filter name =
    codes "(&(objectClass=person)(|(uid="
    ++ (name ++ (codes ")(sAMAccountName=" ++ (name ++ (codes ")(cn=" ++ (name ++ codes ")))")))))

-- Without a service account the name of the entry is put together.
unfoldable pub direct_dn : Bytes → Bytes → Bytes
direct_dn name base_dn = codes "uid=" ++ (name ++ (codes "," ++ base_dn))

-- The name to bind with: found, not found, or an error.
pub data UserDn : Type 0 where
  found : Bytes → UserDn
  refused : UserDn
  failed : UserDn

abbrev pub first_entry : Option (List Bytes) → UserDn
first_entry none = failed
first_entry (some []) = refused
first_entry (some (dn ∷ dns)) = found dn

abbrev pub after_service_bind : Option ℕ → UserDn → UserDn
after_service_bind none next = failed
after_service_bind (some zero) next = next
after_service_bind (some (suc rc)) next = refused

abbrev pub bound : Option ℕ → Option Bool
bound none = none
bound (some rc) = some (rc == 0)

abbrev pub bind_found : (Bytes → Option ℕ) → UserDn → Option Bool
bind_found bind (found dn) = bound (bind dn)
bind_found bind refused = some false
bind_found bind failed = none

module _ (config : LdapConfig) (d : Directory) where
  abbrev pub service_account : Option Bytes → Option Bytes → Bytes → UserDn
  service_account (some bind_dn) (some bind_pass) name =
      after_service_bind (d.simple_bind bind_dn bind_pass)
        (first_entry (d.search config.base_dn (filter name)))
  service_account _ _ name = found (direct_dn name config.base_dn)

  unfoldable pub user_dn : Bytes → UserDn
  unfolding filter direct_dn
  user_dn safe_username = service_account config.bind_dn config.bind_pass safe_username

  -- `none` is an error.
  unfoldable pub authenticate : Bytes → Bytes → Option Bool
  unfolding user_dn ldap_escape
  authenticate username password =
      if d.reached
      then bind_found (λ dn. d.simple_bind dn password) (user_dn (ldap_escape username))
      else none
