-- ===== src/Rpc/Authorization/Admits.antt =====
-- Which requests the layer forwards.
use wallet.Prelude.{
  ◌≡◌, ◌≢◌, ◌↔◌, ◌⊎◌, inl, inr, refl, sym, ap, subst, ◌∙◌, Bool, true, Bool-cases, Option-cases,
  Option, none, some, List, [],
}
use wallet.Rpc.Amount.{Text}
use wallet.Rpc.Authorization.{
  same_text, PasswordHash, Codecs, RpcAuthSection, Users, get, read_users, insert_cookie, new,
  credentials, checks, permits, is_authorized, forwarded, unauthorized, call,
}
use wallet.Rpc.Authorization.Sections.{
  same_text→eq, same_text_false→ne, some_injective, none-ne-some, Decides, read_users→Says,
  get-decided,
}
use wallet.Rpc.Authorization.Grants.{Granted, check_iff, Grants, Grants-iff}

unauthorized-ne :
    {Response : Type 0} {delayed : Bool} {service : Response}
    → unauthorized delayed ≡ forwarded service
    → ⊥
unauthorized-ne h = cc

module _ (c : Codecs) where
  -- The user is the cookie's and the password has its hash, or the user is not the cookie's and the last
  -- section of the user's name grants the password.
  abbrev pub Admitted :
      List RpcAuthSection → Option (Text × PasswordHash) → (user pass : Text) → Type 0
  Admitted auth cookie user pass =
      ((h : PasswordHash) × (cookie ≡ some (user, h)) × (c.hash_password pass h.salt ≡ h.hash))
      ⊎ (((h : PasswordHash) → cookie ≢ some (user, h))
          × ((a : RpcAuthSection) × Decides c auth user a × Grants c a pass))

  checks→Granted :
      (o : Option PasswordHash) (pass : Text) → checks c o pass ≡ true → Granted c o pass
  unfolding checks
  checks→Granted none pass h = cc
  checks→Granted (some hash) pass h = (hash, refl, h)

  Granted→checks :
      (o : Option PasswordHash) (pass : Text) → Granted c o pass → checks c o pass ≡ true
  unfolding checks
  Granted→checks o pass (h, e, k) = rw (e, checks) k

  section→Admitted :
      (auth : List RpcAuthSection) (users : Users c) (user pass : Text)
      → read_users c auth [] ≡ some users
      → Granted c (get c user users) pass
      → (a : RpcAuthSection) × Decides c auth user a × Grants c a pass
  unfolding get
  section→Admitted auth users user pass h (hash, g, k) =
      elim (read_users→Says c auth [] users user hash h g) [
        | inl (a, d, e) ↦ (a, d, (Grants-iff c a pass).0 (hash, e, k))
        | inr (others, nothing) ↦ absurd (none-ne-some nothing)
      ]

  Admitted→section :
      (auth : List RpcAuthSection) (users : Users c) (user pass : Text)
      → read_users c auth [] ≡ some users
      → (a : RpcAuthSection) → Decides c auth user a
      → Grants c a pass
      → Granted c (get c user users) pass
  Admitted→section auth users user pass h a d g =
      let (hash, e, k) = (Grants-iff c a pass).1 g in
      (
        hash,
        get-decided c d.before d.after a [] users user hash
            (subst (λ l. read_users c l [] ≡ some users) d.split h) d.named d.last e,
        k,
      )

  Admitted-iff :
      (auth : List RpcAuthSection) (cookie : Option (Text × PasswordHash)) (base : Users c)
      (user pass : Text)
      → read_users c auth [] ≡ some base
      → (checks c (get c user (insert_cookie c cookie base)) pass ≡ true)
        ↔ Admitted auth cookie user pass
  unfolding insert_cookie get checks
  Admitted-iff auth none base user pass h = (
    λ k. inr (
      λ hash e. none-ne-some e,
      section→Admitted auth base user pass h (checks→Granted _ pass k),
    ),
    λ k. elim k [
      | inl (hash, e, same) ↦ absurd (none-ne-some e)
      | inr (no_cookie, (a, d, g)) ↦
          Granted→checks _ pass (Admitted→section auth base user pass h a d g)
    ],
  )
  Admitted-iff auth (some (name, hash)) base user pass h = elim (Bool-cases (same_text name user)) [
    | inl same ↦ rw same (
        let named : ◌≡◌ {A = Option (Text × PasswordHash)} (some (name, hash)) (some (user, hash)) =
          ap (λ (t : Text). some (t, hash)) (same_text→eq name user same) in
        (
          λ k. inl (hash, named, (check_iff c hash pass).0 k),
          λ k. elim k [
            | inl (hash', e, l) ↦ (check_iff c hash pass).1 (
                subst (λ (g : PasswordHash). c.hash_password pass g.salt ≡ g.hash)
                  (sym (ap (λ (q : Text × PasswordHash). q.1) (some_injective e))) l)
            | inr (no_cookie, rest) ↦ absurd (no_cookie hash named)
          ],
        ))
    | inr other ↦ rw other (
        let not_named : (hash' : PasswordHash)
            → ◌≢◌ {A = Option (Text × PasswordHash)} (some (name, hash)) (some (user, hash')) =
          λ hash' e.
            same_text_false→ne name user other
              (ap (λ (q : Text × PasswordHash). q.0) (some_injective e)) in
        (
          λ k. inr (not_named, section→Admitted auth base user pass h (checks→Granted _ pass k)),
          λ k. elim k [
            | inl (hash', e, l) ↦ absurd (not_named hash' e)
            | inr (no_cookie, (a, d, g)) ↦
                Granted→checks _ pass (Admitted→section auth base user pass h a d g)
          ],
        ))
  ]

  permits→Admitted :
      (auth : List RpcAuthSection) (cookie : Option (Text × PasswordHash)) (base : Users c)
      (carried : Option (Text × Text))
      → read_users c auth [] ≡ some base
      → permits c (insert_cookie c cookie base) carried ≡ true
      → (user : Text) × (pass : Text) × (carried ≡ some (user, pass))
        × Admitted auth cookie user pass
  unfolding permits
  permits→Admitted auth cookie base none h k = cc
  permits→Admitted auth cookie base (some (user, pass)) h k =
      (user, pass, refl, (Admitted-iff auth cookie base user pass h).0 k)

  new→base :
      (auth : List RpcAuthSection) (cookie : Option (Text × PasswordHash)) (users : Users c)
      → new c auth cookie ≡ some users
      → (base : Users c) × (read_users c auth [] ≡ some base)
        × (insert_cookie c cookie base ≡ users)
  unfolding new
  new→base auth cookie users h = elim (Option-cases (read_users c auth [])) [
    | inl bad ↦ absurd (none-ne-some (rw bad at h))
    | inr (base, e) ↦ (base, e, some_injective (rw e at h))
  ]

  forwarded→authorized :
      {Response : Type 0} (users : Users c) (h : Option Text) (service : Response)
      → call c users (some h) service ≡ forwarded service
      → is_authorized c users h ≡ true
  unfolding call
  forwarded→authorized users h service e = elim (Bool-cases (is_authorized c users h)) [
    | inl y ↦ y
    | inr n ↦ absurd (unauthorized-ne (rw n at e))
  ]

  -- A layer made of a valid configuration forwards a request exactly where its header carries a user
  -- and a password in the `Basic` scheme, and the user is the cookie's and the password has its hash,
  -- or the user is another and the last section of that name, which is not the cookie's reserved one,
  -- grants the password: by a password that is not empty and has the same hash, or by a hash that the
  -- password has and the empty one has not.
  pub call_iff :
      {Response : Type 0} (auth : List RpcAuthSection) (cookie : Option (Text × PasswordHash))
      (users : Users c) (header : Option (Option Text)) (service : Response)
      → new c auth cookie ≡ some users
      → (call c users header service ≡ forwarded service) ↔ (
          (h : Option Text) × (user : Text) × (pass : Text) × (header ≡ some h)
          × (credentials c h ≡ some (user, pass))
          × Admitted auth cookie user pass)
  unfolding call is_authorized
  call_iff auth cookie users none service made =
      (λ e. absurd (unauthorized-ne e), λ (h, user, pass, e, _, _). absurd (none-ne-some e))
  call_iff auth cookie users (some h) service made =
      let (base, e, f) = new→base auth cookie users made in
      (
        λ k.
            let (user, pass, carried, admitted) =
              permits→Admitted auth cookie base (credentials c h) e (
                subst (λ u. permits c u (credentials c h) ≡ true) (sym f)
                  (forwarded→authorized users h service k)) in
            (h, user, pass, refl, carried, admitted),
        λ (h', user, pass, same, carried, admitted).
            let carried' : credentials c h ≡ some (user, pass) =
              ap (credentials c) (some_injective same) ∙ carried in
            let k : checks c (get c user users) pass ≡ true =
              subst (λ u. checks c (get c user u) pass ≡ true) f
                ((Admitted-iff auth cookie base user pass e).1 admitted) in
            rw (carried', permits, k) refl,
      )
