-- ===== src/Operations/Queue/System/Middle.antt =====
-- Writing the data of one operation of a queue, and pushing one at its end.
use wallet.Prelude.{
  ℕ, ◌≡◌, ◌≢◌, refl, ap, true, false, List, [], ◌∷◌, ◌++◌, contains, length, arith,
}
use wallet.Operations.State.{AsyncOperation}
use wallet.Operations.Queue.{op_finished}
use wallet.Operations.Queue.Collect.{ids, IsDistinct}
use wallet.Operations.Queue.Sub.{IsSound, Keeps}

module _ {Value : Type 0} where
  module _ (op op' : AsyncOperation Value) (same : op'.operation_id ≡ op.operation_id)
      (after : List (AsyncOperation Value)) where
    pub ids-middle :
        (before : List (AsyncOperation Value))
        → ids (before ++ op' ∷ after) ≡ ids (before ++ op ∷ after)
    ids-middle [] = rw same
    ids-middle (o ∷ before) = ap (λ l. o.operation_id ∷ l) (ids-middle before)

    pub length-middle :
        (before : List (AsyncOperation Value))
        → length (before ++ op' ∷ after) ≡ length (before ++ op ∷ after)
    length-middle [] = refl
    length-middle (o ∷ before) = omega (arith, length-middle before)

    pub IsDistinct-middle :
        (before : List (AsyncOperation Value))
        → IsDistinct (before ++ op ∷ after)
        → IsDistinct (before ++ op' ∷ after)
    IsDistinct-middle [] d = rw same d
    IsDistinct-middle (o ∷ before) d = (rw (ids-middle before) d.0, IsDistinct-middle before d.1)

    pub IsSound-middle :
        (snapshot : List ℕ) (before : List (AsyncOperation Value))
        → (op_finished op ≡ true → op_finished op' ≡ true)
        → IsSound snapshot (before ++ op ∷ after)
        → IsSound snapshot (before ++ op' ∷ after)
    IsSound-middle snapshot [] f s = (λ c. f (s.0 (rw (← same) c)), s.1)
    IsSound-middle snapshot (o ∷ before) f s = (s.0, IsSound-middle snapshot before f s.1)

  absent-snoc :
      (op : AsyncOperation Value) (ops : List (AsyncOperation Value)) (k : ℕ)
      → contains (ids ops) k ≡ false
      → k ≢ op.operation_id
      → contains (ids (ops ++ op ∷ [])) k ≡ false
  absent-snoc op [] k h n = ground arith
  absent-snoc op (o ∷ ops) k h n = ground (arith, absent-snoc op ops k)

  pub IsDistinct-snoc :
      (op : AsyncOperation Value) (ops : List (AsyncOperation Value))
      → IsDistinct ops
      → contains (ids ops) op.operation_id ≡ false
      → IsDistinct (ops ++ op ∷ [])
  IsDistinct-snoc op [] d new = (refl, tt)
  IsDistinct-snoc op (o ∷ ops) d new = (
    absent-snoc op ops o.operation_id d.0 (λ e. ground arith),
    IsDistinct-snoc op ops d.1 (ground arith),
  )

  pub Keeps-weaken :
      (rest rest' ops : List (AsyncOperation Value))
      → ((k : ℕ) → contains (ids rest) k ≡ true → contains (ids rest') k ≡ true)
      → Keeps rest ops
      → Keeps rest' ops
  Keeps-weaken rest rest' [] w h = tt
  Keeps-weaken rest rest' (op ∷ ops) w h =
      (λ u. w op.operation_id (h.0 u), Keeps-weaken rest rest' ops w h.1)

  pub contains-snoc :
      (op : AsyncOperation Value) (ops : List (AsyncOperation Value)) (k : ℕ)
      → contains (ids ops) k ≡ true
      → contains (ids (ops ++ op ∷ [])) k ≡ true
  contains-snoc op [] k h = cc
  contains-snoc op (o ∷ ops) k h = ground (arith, contains-snoc op ops k)
