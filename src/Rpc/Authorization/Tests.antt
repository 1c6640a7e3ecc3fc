-- ===== src/Rpc/Authorization/Tests.antt =====
-- A layer with one user, "u" with the password "p", and the cookie "c", at a request.
use wallet.Prelude.{ℕ, ◌+◌, ◌≡◌, ◌↔◌, refl, Option, none, some, [], ◌∷◌}
use wallet.Rpc.Amount.{Text}
use wallet.Rpc.Authorization.{
  cookie_user, PasswordHash, Codecs, RpcAuthSection, from_bare, credential_of, Users, new,
  credentials, check, forwarded, call,
}
use wallet.Rpc.Authorization.Admits.{Admitted, call_iff}

abbrev sum : Text → ℕ
sum [] = 0
sum (c ∷ s) = c + sum s

-- A hash that is a sum; the texts of base 64 stand for themselves.
abbrev codecs : Codecs
codecs = record {
  hash_password = λ password salt. sum password;
  hex_decode = λ s. some s;
  of_bytes = sum;
  base64_decode = λ s. some s;
  from_utf8 = λ s. some s;
}

abbrev section_u : RpcAuthSection
section_u = record { user = 117 ∷ []; password = some (112 ∷ []); pwhash = none; drawn_salt = [] }

abbrev cookie_c : Option (Text × PasswordHash)
cookie_c = some (cookie_user, record { salt = []; hash = 99 })

abbrev users_u : Users codecs
users_u =
    (cookie_user, record { salt = []; hash = 99 })
    ∷ (117 ∷ [], record { salt = []; hash = 112 })
    ∷ []

-- "Basic u:p".
abbrev header_u : Text
header_u = 66 ∷ 97 ∷ 115 ∷ 105 ∷ 99 ∷ 32 ∷ 117 ∷ 58 ∷ 112 ∷ []

layer_u : new codecs (section_u ∷ []) cookie_c ≡ some users_u
unfolding new from_bare credential_of
layer_u = refl

forwards_u : call {Response = ℕ} codecs users_u (some (some header_u)) 200 ≡ forwarded 200
unfolding call check
forwards_u = refl

-- A section may not be named as the cookie.
reserved : new codecs (record section_u { user = cookie_user } ∷ []) cookie_c ≡ none
unfolding new
reserved = refl

call_iff_example :
    (call {Response = ℕ} codecs users_u (some (some header_u)) 200 ≡ forwarded 200) ↔ (
      (h : Option Text) × (user : Text) × (pass : Text) × (some (some header_u) ≡ some h)
      × (credentials codecs h ≡ some (user, pass))
      × Admitted codecs (section_u ∷ []) cookie_c user pass)
call_iff_example =
    call_iff codecs {Response = ℕ} (section_u ∷ []) cookie_c users_u (some (some header_u)) 200
      layer_u
