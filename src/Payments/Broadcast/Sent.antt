-- ===== src/Payments/Broadcast/Sent.antt =====
-- What `verify_and_broadcast_transactions` hands to the node.
use Prim.Native.String
use Prim.Native.String.{String}
use wallet.Prelude.{
  ℕ, suc, ◌+◌, ◌>>=◌, map_err, sym, ◌≡◌, refl, ap, ◌∙◌, ◌⊎◌, inl, inr, Bool, true, false, Option,
  some, List, [], ◌∷◌, ◌++◌, length, ◌==◌, Result, ok, err, >>=-eq-ok, Bool-cases, ok_injective,
  ok_or→some, map_err→ok, map_err->>-ok, subst, arith,
}
use wallet.Rpc.{ErrorObject, with_message, wallet_error}
use wallet.Payments.Address.{Address}
use wallet.Payments.Outputs.{Payment, Derivation}
use wallet.Payments.Outputs.Accounted.{Accounted, check_transparent_outputs_iff}
use wallet.Payments.Broadcast.{
  ProposalStep, proposed_transparent_payments, SendResult, send_result, Ledger, verified,
  verified_all, broadcast_all, broadcast_if, verify_against, verify_and_broadcast_transactions,
}

cons_head : {A : Type 0} {x y : A} {xs ys : List A} → x ∷ xs ≡ y ∷ ys → x ≡ y
cons_head h = cc

cons-ne-nil : {A : Type 0} {x : A} {xs : List A} → x ∷ xs ≡ [] → ⊥
cons-ne-nil h = cc

cons_tail : {A : Type 0} {x y : A} {xs ys : List A} → x ∷ xs ≡ y ∷ ys → xs ≡ ys
cons_tail h = cc

module _ {TxId Tx : Type 0} (d : Derivation) (ufvk : Option d.AccountPubKey)
    (w : Ledger TxId Tx d.KeyPath) where
  -- The transaction of an ID, with its transparent outputs accounted for.
  abbrev pub IsVerified : TxId → List Payment → Tx → Type 0
  IsVerified txid expected tx =
      (w.get_transaction txid ≡ ok (some tx))
      × Accounted d ufvk w.address_source (w.outputs tx) expected

  -- One transaction for every ID and every step, each of them verified.
  abbrev pub AllVerified : List TxId → List (List Payment) → List Tx → Type 0
  AllVerified [] [] [] = Unit
  AllVerified (txid ∷ txids) (expected ∷ rest) (tx ∷ txs) =
      IsVerified txid expected tx × AllVerified txids rest txs
  AllVerified _ _ _ = ⊥

  verified-IsVerified :
      (txid : TxId) (expected : List Payment) {tx : Tx}
      → verified d ufvk w txid expected ≡ ok tx
      → IsVerified txid expected tx
  unfolding verified
  verified-IsVerified txid expected h =
      let (found, e, h') = >>=-eq-ok _ _ h in
      let (tx, f, g) = >>=-eq-ok _ _ h' in
      let (checked, same) = map_err->>-ok _ _ _ g in
      let present =
        map_err→ok _ (w.get_transaction txid) e
        ∙ ap ok (ok_or→some found _ f ∙ ap some (ok_injective same)) in
      (
        present,
        subst (λ t. Accounted d ufvk w.address_source (w.outputs t) expected) (ok_injective same)
            ((check_transparent_outputs_iff d ufvk w.address_source _ _).0 checked),
      )

  verified_all-cons :
      (t : TxId) (ts : List TxId) (p : List Payment) (ps : List (List Payment)) {txs : List Tx}
      → verified_all d ufvk w (t ∷ ts) (p ∷ ps) ≡ ok txs
      → (tx : Tx) × (later : List Tx) × (verified d ufvk w t p ≡ ok tx)
        × (verified_all d ufvk w ts ps ≡ ok later)
        × (tx ∷ later ≡ txs)
  unfolding verified_all
  verified_all-cons t ts p ps h =
      let (tx, f, h') = >>=-eq-ok _ _ h in
      let (later, g, k) = >>=-eq-ok _ _ h' in (tx, later, f, g, ok_injective k)

  verified_all-AllVerified :
      (txids : List TxId) (expected : List (List Payment)) (txs : List Tx)
      → length txids ≡ length expected
      → verified_all d ufvk w txids expected ≡ ok txs
      → AllVerified txids expected txs
  unfolding verified_all
  verified_all-AllVerified [] [] [] e h = tt
  verified_all-AllVerified [] [] (tx ∷ txs) e h = cc
  verified_all-AllVerified [] (p ∷ ps) txs e h = absurd (omega arith)
  verified_all-AllVerified (t ∷ ts) [] txs e h = absurd (omega arith)
  verified_all-AllVerified (t ∷ ts) (p ∷ ps) [] e h =
      absurd (cons-ne-nil (verified_all-cons t ts p ps h).4)
  verified_all-AllVerified (t ∷ ts) (p ∷ ps) (tx' ∷ txs) e h =
      let (tx, later, f, g, k) = verified_all-cons t ts p ps h in
      (
        verified-IsVerified t p (f ∙ ap ok (cons_head k)),
        verified_all-AllVerified ts ps txs (omega arith) (g ∙ ap ok (cons_tail k)),
      )

  -- The node accepts every one of the transactions, from its `n`th call.
  abbrev pub Accepted : (n : ℕ) → List Tx → Type 0
  Accepted n [] = Unit
  Accepted n (tx ∷ txs) = (w.broadcast_transaction n tx ≡ ok tt) × Accepted (suc n) txs

  -- What is handed over, from the `n`th call: transactions that the node accepts, which are all there
  -- are, or which are followed by one that it refuses, and by no other.
  abbrev pub Handed : (n : ℕ) → List Tx → List Tx → Result (Unit {0}) String → Type 0
  Handed n txs sent (ok _) = (sent ≡ txs) × Accepted n txs
  Handed n txs sent (err why) =
      (accepted : List Tx) × (tx : Tx) × (unsent : List Tx) × (txs ≡ accepted ++ tx ∷ unsent)
      × (sent ≡ accepted ++ tx ∷ [])
      × Accepted n accepted
      × (w.broadcast_transaction (n + length accepted) tx ≡ err why)

  -- The error for a refusal of the node.
  abbrev refusal : String → ErrorObject
  refusal why =
      with_message wallet_error (String.◌++◌ "SendTransaction: Transaction commit failed:: " why)

  Broadcast : (n : ℕ) → List Tx → List Tx × Result (Unit {0}) ErrorObject → Type 0
  Broadcast n txs (sent, r) =
      (answer : Result (Unit {0}) String) × (r ≡ map_err refusal answer) × Handed n txs sent answer

  Handed-cons :
      (n : ℕ) (tx : Tx) (txs sent : List Tx) (answer : Result (Unit {0}) String)
      → w.broadcast_transaction n tx ≡ ok tt
      → Handed (suc n) txs sent answer
      → Handed n (tx ∷ txs) (tx ∷ sent) answer
  Handed-cons n tx txs sent (ok _) taken (e, all) = (ap (◌∷◌ tx) e, (taken, all))
  Handed-cons n tx txs sent (err why) taken (accepted, last, unsent, e, e', all, refused) = (
    tx ∷ accepted,
    last,
    unsent,
    ap (◌∷◌ tx) e,
    ap (◌∷◌ tx) e',
    (taken, all),
    subst (λ k. w.broadcast_transaction k last ≡ err why) (later n (length accepted)) refused,
  )
    where
      later : (n k : ℕ) → suc n + k ≡ n + suc k
      later n k = omega arith

  broadcast_all-Broadcast : (n : ℕ) (txs : List Tx) → Broadcast n txs (broadcast_all d ufvk w n txs)
  unfolding broadcast_all Broadcast
  broadcast_all-Broadcast n [] = (ok tt, refl, (refl, tt))
  broadcast_all-Broadcast n (tx ∷ txs) =
      go (broadcast_all-Broadcast (suc n) txs) (w.broadcast_transaction n tx) refl
    where
      at_first : (n : ℕ) → n + 0 ≡ n
      at_first n = omega arith

      go :
          Broadcast (suc n) txs (broadcast_all d ufvk w (suc n) txs)
          → (answer : Result (Unit {0}) String) → w.broadcast_transaction n tx ≡ answer
          → Broadcast n (tx ∷ txs) (elim answer as (λ _. List Tx × Result (Unit {0}) ErrorObject) [
            | err e ↦ (tx ∷ [], err (refusal e))
            | ok _ ↦ let (sent, r) = broadcast_all d ufvk w (suc n) txs in (tx ∷ sent, r)
          ])
      go (answer, e, handed) (ok _) taken = (answer, e, Handed-cons n tx txs _ answer taken handed)
      go rest (err why) refused = (
        err why,
        refl,
        (
          [],
          tx,
          txs,
          refl,
          refl,
          tt,
          subst (λ k. w.broadcast_transaction k tx ≡ err why) (sym (at_first n)) refused,
        ),
      )

  -- The result of the whole, by the node's answer to what it was handed.
  abbrev pub Answered :
      List TxId → Result (Unit {0}) String → Result SendResult ErrorObject → Type 0
  Answered txids (ok _) r = r ≡ ok (send_result w.display txids true)
  Answered txids (err why) r =
      r
      ≡ err (
          with_message wallet_error
            (String.◌++◌ "SendTransaction: Transaction commit failed:: " why))

  -- Nothing is handed over and an error returned; or every transaction is verified, and then none is
  -- handed over where the setting is off, and else all of them or those up to the first refused.
  abbrev pub Outcome :
      (broadcast : Bool)
      → List TxId
      → Result (List (List Payment)) ErrorObject
      → List Tx × Result SendResult ErrorObject
      → Type 0
  Outcome broadcast txids proposed (sent, r) =
      ((sent ≡ []) × ((e : ErrorObject) × (r ≡ err e)))
      ⊎ ((expected : List (List Payment)) × (txs : List Tx) × (proposed ≡ ok expected)
          × AllVerified txids expected txs
          × (((broadcast ≡ false) × (sent ≡ []) × (r ≡ ok (send_result w.display txids false)))
              ⊎ ((broadcast ≡ true)
                  × ((answer : Result (Unit {0}) String) × Handed 0 txs sent answer
                      × Answered txids answer r))))

  answered :
      (txids : List TxId) (answer : Result (Unit {0}) String) (r : Result (Unit {0}) ErrorObject)
      → r ≡ map_err refusal answer
      → Answered txids answer (r >>= λ _. ok (send_result w.display txids true))
  answered txids (ok tt) r e = rw e refl
  answered txids (err why) r e = rw e refl

  broadcast_if-Outcome :
      (broadcast : Bool) (txids : List TxId) (expected : List (List Payment))
      (transactions : Result (List Tx) ErrorObject)
      → ((txs : List Tx) → transactions ≡ ok txs → AllVerified txids expected txs)
      → Outcome broadcast txids (ok expected) (broadcast_if d ufvk w broadcast txids transactions)
  unfolding broadcast_if Broadcast
  broadcast_if-Outcome broadcast txids expected (err e) v = inl (refl, (e, refl))
  broadcast_if-Outcome false txids expected (ok txs) v =
      inr (expected, txs, refl, v txs refl, inl (refl, refl, refl))
  broadcast_if-Outcome true txids expected (ok txs) v =
      let (answer, e, handed) = broadcast_all-Broadcast 0 txs in
      inr (expected, txs, refl, v txs refl, inr (refl, (answer, handed, answered txids answer _ e)))

  verify_against-Outcome :
      (broadcast : Bool) (txids : List TxId) (proposed : Result (List (List Payment)) ErrorObject)
      → Outcome broadcast txids proposed (verify_against d ufvk w broadcast txids proposed)
  unfolding verify_against
  verify_against-Outcome broadcast txids (err e) = inl (refl, (e, refl))
  verify_against-Outcome broadcast txids (ok expected) =
      elim (Bool-cases (length txids == length expected)) [
        | inl same ↦ rw same (
            broadcast_if-Outcome broadcast txids expected (verified_all d ufvk w txids expected)
              (λ txs h. verified_all-AllVerified txids expected txs (ground arith) h))
        | inr other ↦ rw other (inl (refl, (_, refl)))
      ]

  -- A transaction is handed to the node only after every transaction of the proposal has been found in
  -- the database and verified, one for each step in the steps' order, and only where the setting
  -- `external.broadcast` is on. Then they are handed over in order, each after the node has accepted
  -- the one before: all of them, and the result is not an error; or up to the first that the node
  -- refuses, and the result is its error. Where the setting is off, none is, and the result says so.
  pub verify_and_broadcast_transactions-Outcome :
      {ZcashAddress : Type 0} (try_from_zcash_address : ZcashAddress → Option Address)
      (broadcast : Bool) (proposal : List (ProposalStep ZcashAddress)) (txids : List TxId)
      → Outcome broadcast txids (proposed_transparent_payments try_from_zcash_address proposal) (
          verify_and_broadcast_transactions d ufvk w try_from_zcash_address broadcast proposal
            txids)
  unfolding verify_and_broadcast_transactions
  verify_and_broadcast_transactions-Outcome try_from_zcash_address broadcast proposal txids =
      verify_against-Outcome broadcast txids
        (proposed_transparent_payments try_from_zcash_address proposal)
