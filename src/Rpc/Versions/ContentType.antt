-- ===== src/Rpc/Versions/ContentType.antt =====
-- The content type of a request, as the service gets it.
use wallet.Prelude.{
  ◌==◌, ◌∷◌, ◌++◌, [], Bool-cases, Option-cases, arith, false, ◌≡◌, ◌≢◌, refl, inl, inr,
  if◌then◌else◌, Option, none, some,
}
use wallet.Rpc.Amount.{Text}
use wallet.Rpc.Authorization.{strip_prefix}
use wallet.Rpc.Versions.{content_type_for, application_json, text_plain}

-- The content type that the service gets: that of JSON where it is left out or starts with
-- "text/plain", and otherwise the one given.
pub data IsServedAs : Option (Option Text) → Option (Option Text) → Type 0 where
  left_out : IsServedAs none (some (some application_json))
  no_text : IsServedAs (some none) (some none)
  plain :
      (rest : Text) → IsServedAs (some (some (text_plain ++ rest))) (some (some application_json))
  another :
      (value : Text)
      → ((rest : Text) → value ≢ text_plain ++ rest)
      → IsServedAs (some (some value)) (some (some value))

strip_prefix-append :
    (prefix value rest : Text) → strip_prefix prefix value ≡ some rest → value ≡ prefix ++ rest
unfolding strip_prefix
strip_prefix-append [] value rest h = cc
strip_prefix-append (c ∷ prefix) [] rest h = cc
strip_prefix-append (c ∷ prefix) (d ∷ value) rest h = elim (Bool-cases (c == d)) [
  | inr n ↦ absurd (different n h)
  | inl e ↦ joined (strip_prefix-append prefix value rest (rw e at h)) (ground arith)
]
  where
    different :
        c == d ≡ false → (if c == d then strip_prefix prefix value else none) ≡ some rest → ⊥
    different n h = ground arith

    joined : value ≡ prefix ++ rest → c ≡ d → d ∷ value ≡ c ∷ prefix ++ rest
    joined e same = cc

pub content_type_for-IsServedAs :
    {content_type typed : Option (Option Text)}
    → IsServedAs content_type typed
    → content_type_for content_type ≡ typed
unfolding content_type_for strip_prefix
content_type_for-IsServedAs left_out = refl
content_type_for-IsServedAs no_text = refl
content_type_for-IsServedAs (plain rest) = refl
content_type_for-IsServedAs (another value h) =
    elim (Option-cases (strip_prefix text_plain value)) [
      | inl n ↦ rw n refl
      | inr (rest, e) ↦ absurd (h rest (strip_prefix-append text_plain value rest e))
    ]
