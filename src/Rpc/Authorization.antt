-- ===== src/Rpc/Authorization.antt =====
-- json_rpc/server/authorization.rs: who may call the JSON-RPC interface.
pub mod Sections
pub mod Grants
pub mod Admits
mod Tests
use wallet.Prelude.{
  ℕ, ◌==◌, ◌&&◌, not, length, Bool, true, false, Option, none, some, List, [], ◌∷◌, if◌then◌else◌,
}
use wallet.Rpc.Amount.{Text, ◌>>=◌}

unfoldable pub same_text : Text → Text → Bool
same_text [] [] = true
same_text (a ∷ s) (b ∷ t) = a == b && same_text s t
same_text _ _ = false

-- `strip_prefix`.
unfoldable pub strip_prefix : Text → Text → Option Text
strip_prefix [] s = some s
strip_prefix (c ∷ prefix) [] = none
strip_prefix (c ∷ prefix) (d ∷ s) = if c == d then strip_prefix prefix s else none

-- `split_once` at a character.
unfoldable pub split_once : ℕ → Text → Option (Text × Text)
split_once c [] = none
split_once c (d ∷ s) =
    if d == c
    then some ([], s)
    else (split_once c s >>= λ (before, after). some (d ∷ before, after))

-- "Basic " and "__cookie__".
abbrev pub basic : Text
basic = 66 ∷ 97 ∷ 115 ∷ 105 ∷ 99 ∷ 32 ∷ []

abbrev pub cookie_user : Text
cookie_user = 95 ∷ 95 ∷ 99 ∷ 111 ∷ 111 ∷ 107 ∷ 105 ∷ 101 ∷ 95 ∷ 95 ∷ []

-- A hash is the number that its 32 bytes spell; `of_bytes` reads it.
pub record PasswordHash : Type 0 where
  pub salt : Text
  pub hash : ℕ

-- What the libraries do: HMAC-SHA-256 of a password under a salt, hexadecimal and base 64, UTF-8.
pub record Codecs : Type 0 where
  pub hash_password : (password salt : Text) → ℕ
  pub hex_decode : Text → Option (List ℕ)
  pub of_bytes : List ℕ → ℕ
  pub base64_decode : Text → Option (List ℕ)
  pub from_utf8 : List ℕ → Option Text

-- A section of the configuration, with the salt that `from_bare` would draw for it.
pub record RpcAuthSection : Type 0 where
  pub user : Text
  pub password : Option Text
  pub pwhash : Option Text
  pub drawn_salt : Text

module _ (c : Codecs) where
  unfoldable pub hash_of : Text → List ℕ → Option PasswordHash
  hash_of salt bytes =
      if length bytes == 32 then some (record { salt = salt; hash = c.of_bytes bytes }) else none

  -- `PasswordHash::from_str`.
  unfoldable pub from_str : Text → Option PasswordHash
  unfolding hash_of split_once
  from_str s = split_once 36 s >>= λ (salt, hash). c.hex_decode hash >>= hash_of salt

  unfoldable pub from_bare : (password salt : Text) → PasswordHash
  from_bare password salt = record { salt = salt; hash = c.hash_password password salt }

  unfoldable pub check : PasswordHash → Text → Bool
  check h password = c.hash_password password h.salt == h.hash

  unfoldable pub reject_empty : PasswordHash → Option PasswordHash
  unfolding check
  reject_empty hash = if check hash [] then none else some hash

  -- The match on the password and the hash of a section.
  unfoldable pub credential_of : Option Text → Option Text → (salt : Text) → Option PasswordHash
  unfolding from_bare from_str reject_empty
  credential_of (some []) none salt = none
  credential_of (some (ch ∷ password)) none salt = some (from_bare (ch ∷ password) salt)
  credential_of none (some pwhash) salt = from_str pwhash >>= reject_empty
  credential_of (some _) (some _) salt = none
  credential_of none none salt = none

  -- The closure of `new`: the hash of a section, unless it is invalid.
  unfoldable pub credential : RpcAuthSection → Option PasswordHash
  unfolding credential_of same_text
  credential a =
      if same_text a.user cookie_user then none else credential_of a.password a.pwhash a.drawn_salt

  -- The map of the users, the newest first.
  abbrev pub Users : Type 0
  Users = List (Text × PasswordHash)

  unfoldable pub get : Text → Users → Option PasswordHash
  unfolding same_text
  get user [] = none
  get user ((name, hash) ∷ users) = if same_text name user then some hash else get user users

  -- `collect::<Result<_, _>>()`: the sections are inserted in order.
  unfoldable pub read_users : List RpcAuthSection → Users → Option Users
  unfolding credential
  read_users [] users = some users
  read_users (a ∷ auth) users = credential a >>= λ hash. read_users auth ((a.user, hash) ∷ users)

  unfoldable pub insert_cookie : Option (Text × PasswordHash) → Users → Users
  insert_cookie none users = users
  insert_cookie (some cookie) users = cookie ∷ users

  -- `AuthorizationLayer::new`; `none` is an invalid configuration.
  unfoldable pub new : List RpcAuthSection → Option (Text × PasswordHash) → Option Users
  unfolding read_users insert_cookie
  new auth cookie = read_users auth [] >>= λ users. some (insert_cookie cookie users)

  -- The user and the password that a header carries; its text, if it has one, is the argument.
  unfoldable pub credentials : Option Text → Option (Text × Text)
  unfolding strip_prefix split_once
  credentials header = header >>= λ s. strip_prefix basic s >>= λ encoded.
      c.base64_decode encoded >>= λ bytes. c.from_utf8 bytes >>= split_once 58

  unfoldable pub checks : Option PasswordHash → Text → Bool
  unfolding check
  checks none pass = false
  checks (some hash) pass = check hash pass

  unfoldable pub permits : Users → Option (Text × Text) → Bool
  unfolding get checks
  permits users none = false
  permits users (some (user, pass)) = checks (get user users) pass

  unfoldable pub is_authorized : Users → Option Text → Bool
  unfolding credentials permits
  is_authorized users header = permits users (credentials header)

-- The answer of the layer: a refusal, after a delay where there was a header, or the service's.
pub data Answer (Response : Type 0) : Type 0 where
  unauthorized : (delayed : Bool) → Answer Response
  forwarded : Response → Answer Response

-- `Authorization::call`, from the `authorization` header of a request, a value of which the text is
-- there if it is visible ASCII.
unfoldable pub call :
    {Response : Type 0} (c : Codecs)
    → Users c
    → Option (Option Text)
    → (service : Response) → Answer Response
unfolding is_authorized
call c users none service = unauthorized false
call c users (some header) service =
    if is_authorized c users header then forwarded service else unauthorized true
