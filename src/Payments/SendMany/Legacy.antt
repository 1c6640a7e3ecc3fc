-- ===== src/Payments/SendMany/Legacy.antt =====
-- What `ANY_TADDR` spends from.
use Prim.Native.String.{String}
use wallet.Prelude.{
  ℕ, ◌≡◌, refl, sym, ap, subst, ◌∙◌, true, Bool-cases, inl, inr, Option, none, some, List, [], ◌∷◌,
  Result, ok, >>=-eq-ok, ok_injective, map_err, map_err→ok, arith,
}
use wallet.Payments.Address.{Zatoshis, Address}
use wallet.Payments.Request.{Zip321}
use wallet.Payments.Source.{SpendPolicy, ConfirmationsPolicy, legacy_pool_spend_policy}
use wallet.Payments.Propose.{Proposing, done, Proposer}
use wallet.Payments.Accounts.{
  Accounts, zcash_legacy_account, is_legacy_pool_account, derives_legacy_pool, LegacyPoolError, db,
  fetched, if_legacy, find_legacy, legacy_pool_message, legacy_pool_account,
  get_legacy_pool_account,
}
use wallet.Payments.SendMany.{Arguments, Settings, Keys, Started, source, call}
use wallet.Payments.SendMany.Asks.{>>=-done_elim, done_injective, done-ok, Asks, call-Asks}

derives→eq :
    (legacy_seed_fp : ℕ) (derivation : Option (ℕ × ℕ))
    → derives_legacy_pool legacy_seed_fp derivation ≡ true
    → derivation ≡ some (legacy_seed_fp, zcash_legacy_account)
unfolding derives_legacy_pool is_legacy_pool_account
derives→eq legacy_seed_fp none h = cc
derives→eq legacy_seed_fp (some (fp, index)) h = ground arith

some_injective : {a b : ℕ} → ◌≡◌ {A = Option ℕ} (some a) (some b) → a ≡ b
some_injective h = ground arith

same_fp : {a b c d : ℕ} → ◌≡◌ {A = Option (ℕ × ℕ)} (some (a, b)) (some (c, d)) → a ≡ c
same_fp h = ground arith

module _ {AccountId Account : Type 0} (w : Accounts AccountId Account) where
  if_legacy-ok :
      (fp : ℕ) (rest : Result Account LegacyPoolError) (account' : Account) {account : Account}
      → (rest ≡ ok account → w.key_derivation account ≡ some (fp, zcash_legacy_account))
      → if_legacy w fp rest account' ≡ ok account
      → w.key_derivation account ≡ some (fp, zcash_legacy_account)
  unfolding if_legacy
  if_legacy-ok fp rest account' later h =
      elim (Bool-cases (derives_legacy_pool fp (w.key_derivation account'))) [
        | inl this ↦
            ap w.key_derivation (sym (ok_injective (rw this at h)))
            ∙ derives→eq fp (w.key_derivation account') this
        | inr other ↦ later (rw other at h)
      ]

  find_legacy-ok :
      (fp : ℕ) (ids : List AccountId) {account : Account}
      → find_legacy w fp ids ≡ ok account
      → w.key_derivation account ≡ some (fp, zcash_legacy_account)
  unfolding find_legacy
  find_legacy-ok fp [] h = cc
  find_legacy-ok fp (id ∷ ids) h =
      let (account', e, h') = >>=-eq-ok (fetched w id) (if_legacy w fp (find_legacy w fp ids)) h in
      if_legacy-ok fp (find_legacy w fp ids) account' (find_legacy-ok fp ids) h'

  legacy_pool_account-ok :
      (configured : Option ℕ) {account : Account}
      → legacy_pool_account w configured ≡ ok account
      → (fp : ℕ) × (configured ≡ some fp)
        × (w.key_derivation account ≡ some (fp, zcash_legacy_account))
  unfolding legacy_pool_account
  legacy_pool_account-ok none h = cc
  legacy_pool_account-ok (some fp) h =
      let (ids, e, h') = >>=-eq-ok (map_err db w.get_account_ids) (find_legacy w fp) h in
      (fp, refl, find_legacy-ok fp ids h')

module _ {AccountId Account Seed SpendingKey : Type 0} (z : Zatoshis) (p : Zip321)
    (w : Accounts AccountId Account) (k : Keys Seed SpendingKey) (s : Settings)
    (decode : String → Option Address)
    (proposer : Account → ConfirmationsPolicy → Proposer p.ZcashAddress p.TransactionRequest) where
  any_taddr-source :
      (from : Account × SpendPolicy)
      → source z p w k s decode proposer "ANY_TADDR" ≡ done (ok from)
      → (fp : ℕ) × (s.legacy_pool_seed_fingerprint ≡ some fp)
        × (w.key_derivation from.0 ≡ some (fp, zcash_legacy_account))
        × (from.1 ≡ legacy_pool_spend_policy)
  unfolding source get_legacy_pool_account
  any_taddr-source from h =
      >>=-done_elim (done (get_legacy_pool_account w s.legacy_pool_seed_fingerprint)) _ h
        λ account e h'.
          let (fp, e', e'') = legacy_pool_account-ok w s.legacy_pool_seed_fingerprint (
            map_err→ok (legacy_pool_message w)
              (legacy_pool_account w s.legacy_pool_seed_fingerprint) (done_injective e)) in
          let same = done-ok h' in
          (
            fp,
            e',
            subst (λ a. w.key_derivation a ≡ some (fp, zcash_legacy_account))
                (ap (λ (f : Account × SpendPolicy). f.0) same) e'',
            sym (ap (λ (f : Account × SpendPolicy). f.1) same),
          )

  asked-legacy :
      (args : Arguments) (fp : ℕ) (asked : Option ℕ) (r : Proposing (Started Account SpendingKey))
      → args.fromaddress ≡ "ANY_TADDR"
      → asked ≡ some fp
      → Asks z p w k s decode proposer args (asked, r)
      → s.legacy_pool_seed_fingerprint ≡ some fp
  asked-legacy args fp none r from h a = cc
  asked-legacy args fp (some fp') r from h (account, proposal, index, ready, rest) =
      let (legacy, configured, derived, _) =
        any_taddr-source (account, ready.spend_policy)
          (subst (λ f. source z p w k s decode proposer f ≡ done (ok (account, ready.spend_policy)))
            from ready.source_lem) in
      configured ∙ ap some (same_fp (sym derived ∙ ready.derivation_lem) ∙ some_injective h)

  -- A send from `ANY_TADDR` asks the keystore for no seed but that of the legacy pool, which the
  -- operator's setting names.
  pub any_taddr-asks :
      (args : Arguments) (fp : ℕ)
      → args.fromaddress ≡ "ANY_TADDR"
      → (call z p w k s decode proposer args).0 ≡ some fp
      → s.legacy_pool_seed_fingerprint ≡ some fp
  any_taddr-asks args fp from h =
      asked-legacy args fp (call z p w k s decode proposer args).0
        (call z p w k s decode proposer args).1 from h (call-Asks z p w k s decode proposer args)
