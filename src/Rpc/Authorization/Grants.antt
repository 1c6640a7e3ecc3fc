-- ===== src/Rpc/Authorization/Grants.antt =====
-- The password that a section of the configuration grants.
use wallet.Prelude.{
  ◌≡◌, ◌≢◌, ◌↔◌, ◌⊎◌, inl, inr, refl, sym, subst, ◌∙◌, true, Bool-cases, Option-cases, Option, none,
  some, [], ◌∷◌, arith,
}
use wallet.Rpc.Amount.{Text, ◌>>=◌}
use wallet.Rpc.Authorization.{
  same_text, PasswordHash, Codecs, RpcAuthSection, cookie_user, from_str, from_bare, check,
  reject_empty, credential_of, credential,
}
use wallet.Rpc.Authorization.Sections.{
  same_text_false→ne, some_injective, true-ne-false, cons-ne-nil, none-ne-some, ne→same_text_false,
}

module _ (c : Codecs) where
  -- A password that is not empty, or a hash that the empty password does not have; the password given
  -- has the same hash.
  abbrev pub GrantsBy : (password pwhash : Option Text) → (salt pass : Text) → Type 0
  GrantsBy password pwhash salt pass =
      ((q : Text) × (password ≡ some q)
        × (pwhash ≡ none)
        × (q ≢ [])
        × (c.hash_password pass salt ≡ c.hash_password q salt))
      ⊎ ((s : Text) × (h : PasswordHash) × (password ≡ none)
          × (pwhash ≡ some s)
          × (from_str c s ≡ some h)
          × (c.hash_password [] h.salt ≢ h.hash)
          × (c.hash_password pass h.salt ≡ h.hash))

  -- So does a section that is not named as the cookie.
  abbrev pub Grants : RpcAuthSection → Text → Type 0
  Grants a pass = (a.user ≢ cookie_user) × GrantsBy a.password a.pwhash a.drawn_salt pass

  abbrev pub Granted : Option PasswordHash → Text → Type 0
  Granted o pass = (h : PasswordHash) × (o ≡ some h) × (check c h pass ≡ true)

  pub check_iff :
      (h : PasswordHash) (pass : Text)
      → (check c h pass ≡ true) ↔ (c.hash_password pass h.salt ≡ h.hash)
  unfolding check
  check_iff h pass = (λ e. ground arith, λ e. ground arith)

  reject_empty→ :
      (h : PasswordHash) (pass : Text)
      → Granted (reject_empty c h) pass
      → (c.hash_password [] h.salt ≢ h.hash) × (c.hash_password pass h.salt ≡ h.hash)
  unfolding reject_empty
  reject_empty→ h pass (h', e, k) = elim (Bool-cases (check c h [])) [
    | inl empty ↦ absurd (none-ne-some (rw empty at e))
    | inr full ↦ (
      λ same. true-ne-false (sym ((check_iff h []).1 same) ∙ full),
      (check_iff h pass).0
          (subst (λ g. check c g pass ≡ true) (sym (some_injective (rw full at e))) k),
    )
  ]

  from_str→GrantsBy :
      (s salt pass : Text)
      → Granted (from_str c s >>= reject_empty c) pass
      → GrantsBy none (some s) salt pass
  from_str→GrantsBy s salt pass (h, e, k) = elim (Option-cases (from_str c s)) [
    | inl bad ↦ absurd (none-ne-some (rw bad at e))
    | inr (h', f) ↦
        let (full, same) = reject_empty→ h' pass (h, rw f at e, k) in
        inr (s, h', refl, refl, f, full, same)
  ]

  Granted→GrantsBy :
      (password pwhash : Option Text) (salt pass : Text)
      → Granted (credential_of c password pwhash salt) pass
      → GrantsBy password pwhash salt pass
  unfolding credential_of from_bare
  Granted→GrantsBy (some []) none salt pass (h, e, k) = absurd (none-ne-some e)
  Granted→GrantsBy (some (ch ∷ q)) none salt pass (h, e, k) =
      let k' = subst (λ g. check c g pass ≡ true) (sym (some_injective e)) k in
      inl (ch ∷ q, refl, refl, cons-ne-nil, (check_iff (from_bare c (ch ∷ q) salt) pass).0 k')
  Granted→GrantsBy none (some s) salt pass g = from_str→GrantsBy s salt pass g
  Granted→GrantsBy (some _) (some _) salt pass (h, e, k) = absurd (none-ne-some e)
  Granted→GrantsBy none none salt pass (h, e, k) = absurd (none-ne-some e)

  bare→Granted :
      (q salt pass : Text)
      → q ≢ []
      → c.hash_password pass salt ≡ c.hash_password q salt
      → Granted (credential_of c (some q) none salt) pass
  unfolding credential_of from_bare
  bare→Granted [] salt pass full same = absurd (full refl)
  bare→Granted (ch ∷ q) salt pass full same =
      (from_bare c (ch ∷ q) salt, refl, (check_iff (from_bare c (ch ∷ q) salt) pass).1 same)

  hash→Granted :
      (s salt pass : Text) (h : PasswordHash)
      → from_str c s ≡ some h
      → c.hash_password [] h.salt ≢ h.hash
      → c.hash_password pass h.salt ≡ h.hash
      → Granted (credential_of c none (some s) salt) pass
  unfolding credential_of reject_empty
  hash→Granted s salt pass h e full same = elim (Bool-cases (check c h [])) [
    | inl empty ↦ absurd (full ((check_iff h []).0 empty))
    | inr not_empty ↦ (h, rw (e, not_empty) refl, (check_iff h pass).1 same)
  ]

  GrantsBy→Granted :
      (password pwhash : Option Text) (salt pass : Text)
      → GrantsBy password pwhash salt pass
      → Granted (credential_of c password pwhash salt) pass
  GrantsBy→Granted password pwhash salt pass (inl (q, e, f, full, same)) =
      rw (e, f) (bare→Granted q salt pass full same)
  GrantsBy→Granted password pwhash salt pass (inr (s, h, e, f, g, full, same)) =
      rw (e, f) (hash→Granted s salt pass h g full same)

  pub Grants-iff :
      (a : RpcAuthSection) (pass : Text) → Granted (credential c a) pass ↔ Grants a pass
  unfolding credential
  Grants-iff a pass = (
    λ (h, e, k). elim (Bool-cases (same_text a.user cookie_user)) [
      | inl reserved ↦ absurd (none-ne-some (rw reserved at e))
      | inr free ↦ (
        same_text_false→ne a.user cookie_user free,
        Granted→GrantsBy a.password a.pwhash a.drawn_salt pass (h, rw free at e, k),
      )
    ],
    λ (free, g).
        rw (ne→same_text_false a.user cookie_user free)
          (GrantsBy→Granted a.password a.pwhash a.drawn_salt pass g),
  )
