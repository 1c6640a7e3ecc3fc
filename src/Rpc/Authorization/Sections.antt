-- ===== src/Rpc/Authorization/Sections.antt =====
-- The map of the users that `AuthorizationLayer::new` reads.
use wallet.Prelude.{
  ℕ, ◌≡◌, ◌≢◌, ◌⊎◌, inl, inr, refl, sym, ap, ◌∙◌, Bool, true, false, Bool-cases, Option-cases,
  Option, none, some, List, [], ◌∷◌, ◌++◌, All, arith,
}
use wallet.Rpc.Amount.{Text}
use wallet.Rpc.Authorization.{
  same_text, PasswordHash, Codecs, RpcAuthSection, credential, Users, get, read_users,
}

pub same_text→eq : (s t : Text) → same_text s t ≡ true → s ≡ t
unfolding same_text
same_text→eq [] [] h = refl
same_text→eq [] (b ∷ t) h = cc
same_text→eq (a ∷ s) [] h = cc
same_text→eq (a ∷ s) (b ∷ t) h = ground (arith, same_text→eq s t)

pub same_text_refl : (s : Text) → same_text s s ≡ true
unfolding same_text
same_text_refl [] = refl
same_text_refl (a ∷ s) = ground (arith, same_text_refl s)

pub same_text_false→ne : (s t : Text) → same_text s t ≡ false → s ≢ t
same_text_false→ne s t h e = let same : same_text s t ≡ true = rw e (same_text_refl t) in cc

pub some_injective : {A : Type 0} {a b : A} → ◌≡◌ {A = Option A} (some a) (some b) → a ≡ b
some_injective h = cc

pub true-ne-false : ◌≡◌ {A = Bool} true false → ⊥
true-ne-false h = cc

pub cons-ne-nil : {a : ℕ} {s : Text} → a ∷ s ≢ []
cons-ne-nil h = cc

pub none-ne-some : {A : Type 0} {a : A} → ◌≡◌ {A = Option A} none (some a) → ⊥
none-ne-some h = cc

pub ne→same_text_false : (s t : Text) → s ≢ t → same_text s t ≡ false
ne→same_text_false s t h = elim (Bool-cases (same_text s t)) [
  | inl same ↦ absurd (h (same_text→eq s t same))
  | inr other ↦ other
]

module _ (c : Codecs) where
  -- The section that decides on a user: the last of its name.
  pub record Decides (auth : List RpcAuthSection) (user : Text) (a : RpcAuthSection) : Type 0 where
    pub before : List RpcAuthSection
    pub after : List RpcAuthSection
    pub split : auth ≡ before ++ a ∷ after
    pub named : a.user ≡ user
    pub last : All (λ (b : RpcAuthSection). b.user ≢ user) after

  -- What the map says of a user: the hash of the section that decides, or what it said before.
  abbrev pub Says : List RpcAuthSection → Users c → Text → PasswordHash → Type 0
  Says auth users user hash =
      ((a : RpcAuthSection) × Decides auth user a × (credential c a ≡ some hash))
      ⊎ (All (λ (b : RpcAuthSection). b.user ≢ user) auth × (get c user users ≡ some hash))

  then_decided :
      (a : RpcAuthSection) (auth : List RpcAuthSection) (users : Users c) (user : Text)
      (ha hash : PasswordHash)
      → credential c a ≡ some ha
      → Says auth ((a.user, ha) ∷ users) user hash
      → Says (a ∷ auth) users user hash
  unfolding get
  then_decided a auth users user ha hash e (inl (b, d, f)) = inl (
    b,
    record {
      before = a ∷ d.before;
      after = d.after;
      split = ap (◌∷◌ a) d.split;
      named = d.named;
      last = d.last;
    },
    f,
  )
  then_decided a auth users user ha hash e (inr (others, g)) =
      elim (Bool-cases (same_text a.user user)) [
        | inl same ↦ inl (
          a,
          record {
            before = [];
            after = auth;
            split = refl;
            named = same_text→eq a.user user same;
            last = others;
          },
          e ∙ rw same at g,
        )
        | inr other ↦ inr ((same_text_false→ne a.user user other, others), rw other at g)
      ]

  pub read_users→Says :
      (auth : List RpcAuthSection) (users all : Users c) (user : Text) (hash : PasswordHash)
      → read_users c auth users ≡ some all
      → get c user all ≡ some hash
      → Says auth users user hash
  unfolding read_users
  read_users→Says [] users all user hash h g = inr (tt, ap (get c user) (some_injective h) ∙ g)
  read_users→Says (a ∷ auth) users all user hash h g = elim (Option-cases (credential c a)) [
    | inl bad ↦ absurd (none-ne-some (rw bad at h))
    | inr (ha, e) ↦
        then_decided a auth users user ha hash e
          (read_users→Says auth ((a.user, ha) ∷ users) all user hash (rw e at h) g)
  ]

  get-after :
      (auth : List RpcAuthSection) (users all : Users c) (user : Text) (hash : PasswordHash)
      → read_users c auth users ≡ some all
      → All (λ (b : RpcAuthSection). b.user ≢ user) auth
      → get c user users ≡ some hash
      → get c user all ≡ some hash
  unfolding read_users get
  get-after [] users all user hash h others g = ap (get c user) (sym (some_injective h)) ∙ g
  get-after (a ∷ auth) users all user hash h (other, others) g =
      elim (Option-cases (credential c a)) [
        | inl bad ↦ absurd (none-ne-some (rw bad at h))
        | inr (ha, e) ↦
            get-after auth ((a.user, ha) ∷ users) all user hash (rw e at h) others
              (rw (ne→same_text_false a.user user other) g)
      ]

  pub get-decided :
      (before after : List RpcAuthSection) (a : RpcAuthSection) (users all : Users c) (user : Text)
      (hash : PasswordHash)
      → read_users c (before ++ a ∷ after) users ≡ some all
      → a.user ≡ user
      → All (λ (b : RpcAuthSection). b.user ≢ user) after
      → credential c a ≡ some hash
      → get c user all ≡ some hash
  unfolding read_users get
  get-decided [] after a users all user hash h named others e =
      get-after after ((a.user, hash) ∷ users) all user hash (rw e at h) others
        (rw named (rw (same_text_refl user) refl))
  get-decided (b ∷ before) after a users all user hash h named others e =
      elim (Option-cases (credential c b)) [
        | inl bad ↦ absurd (none-ne-some (rw bad at h))
        | inr (hb, f) ↦
            get-decided before after a ((b.user, hb) ∷ users) all user hash (rw f at h) named others
              e
      ]
