-- ===== src/Sync/Status/Gate.antt =====
-- When the wallet may be used, after any writes of the sync tasks.
use mathlib.Core.List.{Memᴰ}
use Prim.Native.String.{String}
use wallet.Prelude.{
  ℕ, ◌+◌, ◌≤◌, ◌≡◌, refl, ◌≢◌, ◌↔◌, ◌⊎◌, inl, inr, true, Option, none, some, List, [], ◌∷◌, ◌++◌,
  All, Option-cases, ok, err, arith,
}
use wallet.Rpc.{ErrorObject, to_i32, forbidden_by_safe_mode, with_message}
use wallet.Sync.Status.{
  SyncSignals, status, within_tip, recovering_to, Event, mark_tip_reached, begin_recovery,
  end_recovery, apply, channel, run, ensure_available,
}

within_tip_height :
    (fully_synced : Option ℕ) (tip tolerance : ℕ)
    → within_tip fully_synced tip tolerance ≡ true
    → (h : ℕ) × (fully_synced ≡ some h) × (tip ≤ h + tolerance)
unfolding within_tip
within_tip_height none tip tolerance w = cc
within_tip_height (some h) tip tolerance w = (h, refl, ground arith)

module _ (show : ℕ → String) where
  available-synced :
      (s : SyncSignals) (tolerance : ℕ)
      → ensure_available show s tolerance ≡ ok tt
      → (s.recovering ≡ none)
        × (s.tip_reached ≡ true)
        × (within_tip s.fully_synced s.tip tolerance ≡ true)
  unfolding ensure_available status
  available-synced s tolerance h = ground arith

  -- The wallet is available exactly when no recovery is under way, the tip was reached, and the
  -- fully scanned height trails the tip by at most the tolerance.
  pub ensure_available_iff :
      (s : SyncSignals) (tolerance : ℕ)
      → (ensure_available show s tolerance ≡ ok tt) ↔ (
          (s.recovering ≡ none)
          × (s.tip_reached ≡ true)
          × ((h : ℕ) × (s.fully_synced ≡ some h) × (s.tip ≤ h + tolerance)))
  unfolding ensure_available status
  ensure_available_iff s tolerance = (
    λ h.
        let (none_under_way, reached, near) = available-synced s tolerance h in
        (none_under_way, reached, within_tip_height s.fully_synced s.tip tolerance near),
    λ h. ground arith,
  )

run-append : (s : SyncSignals) (es fs : List Event) → run s (es ++ fs) ≡ run (run s es) fs
unfolding run
run-append s [] fs = refl
run-append s (e ∷ es) fs = run-append (apply s e) es fs

apply-tip_reached :
    (s : SyncSignals) (e : Event)
    → (apply s e).tip_reached ≡ true
    → (s.tip_reached ≡ true) ⊎ (mark_tip_reached ≡ e)
unfolding apply
apply-tip_reached s mark_tip_reached h = inr refl
apply-tip_reached s _ h = ground arith

run-tip_reached :
    (s : SyncSignals) (es : List Event)
    → (run s es).tip_reached ≡ true
    → (s.tip_reached ≡ true) ⊎ Memᴰ mark_tip_reached es
unfolding run
run-tip_reached s [] h = inl h
run-tip_reached s (e ∷ es) h = elim (run-tip_reached (apply s e) es h) [
  | inl before ↦ elim (apply-tip_reached s e before) [ inl b ↦ inl b | inr m ↦ inr (Memᴰ.head m) ]
  | inr m ↦ inr (Memᴰ.tail m)
]

run-recovering :
    (s : SyncSignals) (es : List Event)
    → s.recovering ≢ none
    → All (λ e. e ≢ end_recovery) es
    → (run s es).recovering ≢ none
unfolding run
run-recovering s [] h a = h
run-recovering s (e ∷ es) h a = run-recovering (apply s e) es (kept s e h a.0) a.1
  where
    kept :
        (s : SyncSignals) (e : Event)
        → s.recovering ≢ none
        → e ≢ end_recovery
        → (apply s e).recovering ≢ none
    kept s e h n = unfold apply in ground arith

run_after-recovering :
    (s : SyncSignals) (es fs : List Event) (r : ℕ)
    → All (λ e. e ≢ end_recovery) fs
    → (run s (es ++ begin_recovery r ∷ fs)).recovering ≢ none
unfolding run
run_after-recovering s es fs r a =
    rw (run-append s es (begin_recovery r ∷ fs))
      (run-recovering (apply (run s es) (begin_recovery r)) fs (unfold apply in λ e. cc) a)

module _ (show : ℕ → String) (tolerance : ℕ) where
  status_recovering :
      (s : SyncSignals) (r : ℕ) → s.recovering ≡ some r → status s tolerance ≡ recovering_to r
  unfolding status
  status_recovering s r h = ground arith

  recovering_refused :
      (s : SyncSignals)
      → s.recovering ≢ none
      → (e : ErrorObject) × (ensure_available show s tolerance ≡ err e)
        × (e.code ≡ to_i32 forbidden_by_safe_mode)
  unfolding ensure_available with_message
  recovering_refused s h = elim (Option-cases s.recovering) [
    | inl n ↦ absurd (h n)
    | inr (r, e) ↦ rw (status_recovering s r e) ((_, refl, refl))
  ]

  -- From the initial signals, the wallet is available only after a task has marked the tip as
  -- reached, whatever else was written in whatever order.
  pub available_needs_tip :
      (es : List Event)
      → ensure_available show (run channel es) tolerance ≡ ok tt
      → Memᴰ mark_tip_reached es
  unfolding channel
  available_needs_tip es h =
      elim (run-tip_reached channel es
        ((ensure_available_iff show (run channel es) tolerance).0 h).1) [
          | inl c ↦ absurd (cc)
          | inr m ↦ m
        ]

  -- Once a recovery has begun, the methods are refused with the safe-mode code until it has ended,
  -- whatever else is written meanwhile.
  pub recovery_blocks :
      (es fs : List Event) (rolled_back_to : ℕ)
      → All (λ e. e ≢ end_recovery) fs
      → (e : ErrorObject) × (ensure_available show
            (run channel (es ++ begin_recovery rolled_back_to ∷ fs))
            tolerance
          ≡ err e)
        × (e.code ≡ to_i32 forbidden_by_safe_mode)
  recovery_blocks es fs rolled_back_to a =
      recovering_refused (run channel (es ++ begin_recovery rolled_back_to ∷ fs))
        (run_after-recovering channel es fs rolled_back_to a)
