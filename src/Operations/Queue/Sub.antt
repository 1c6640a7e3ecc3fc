-- ===== src/Operations/Queue/Sub.antt =====
-- Queues that keep some of the operations of another, in their order.
use wallet.Prelude.{
  ℕ, ◌-◌, ◌≤◌, ◌≡◌, refl, sym, subst, ltb, Bool, true, false, not, ◌&&◌, List, [], ◌∷◌, keep,
  contains, length, All, Bool-cases, inl, inr, arith,
}
use wallet.Operations.State.{AsyncOperation}
use wallet.Operations.Queue.{op_finished, finished_ids, evict}
use wallet.Operations.Queue.Collect.{ids, IsDistinct}

false_and_true : {b : Bool} → b ≡ true → b ≡ false → ⊥
false_and_true p q = cc

module _ {Value : Type 0} where
  pub data IsSub : List (AsyncOperation Value) → List (AsyncOperation Value) → Type 0 where
    done : IsSub [] []
    drop :
        {op : AsyncOperation Value} {xs ys : List (AsyncOperation Value)}
        → IsSub xs ys
        → IsSub xs (op ∷ ys)
    take :
        {op : AsyncOperation Value} {xs ys : List (AsyncOperation Value)}
        → IsSub xs ys
        → IsSub (op ∷ xs) (op ∷ ys)

  pub IsSub-refl : (ops : List (AsyncOperation Value)) → IsSub ops ops
  IsSub-refl [] = done
  IsSub-refl (op ∷ ops) = take (IsSub-refl ops)

  pub IsSub-All :
      (P : AsyncOperation Value → Type 0) {xs ys : List (AsyncOperation Value)}
      → IsSub xs ys
      → All P ys
      → All P xs
  IsSub-All P done h = tt
  IsSub-All P (drop s) h = IsSub-All P s h.1
  IsSub-All P (take s) h = (h.0, IsSub-All P s h.1)

  pub IsSub-absent :
      (k : ℕ) {xs ys : List (AsyncOperation Value)}
      → IsSub xs ys
      → contains (ids ys) k ≡ false
      → contains (ids xs) k ≡ false
  IsSub-absent k done h = refl
  IsSub-absent k (drop s) h = IsSub-absent k s (ground arith)
  IsSub-absent k (take s) h = ground (arith, IsSub-absent k s)

  pub IsSub-IsDistinct :
      {xs ys : List (AsyncOperation Value)} → IsSub xs ys → IsDistinct ys → IsDistinct xs
  IsSub-IsDistinct done d = tt
  IsSub-IsDistinct (drop s) d = IsSub-IsDistinct s d.1
  IsSub-IsDistinct (take {op} s) d = (IsSub-absent op.operation_id s d.0, IsSub-IsDistinct s d.1)

  pub IsSub-length : {xs ys : List (AsyncOperation Value)} → IsSub xs ys → length xs ≤ length ys
  IsSub-length done = omega arith
  IsSub-length (drop s) = omega (arith, IsSub-length s)
  IsSub-length (take s) = omega (arith, IsSub-length s)

  pub keep-IsSub :
      (test : AsyncOperation Value → Bool) (ops : List (AsyncOperation Value))
      → IsSub (keep test ops) ops
  keep-IsSub test [] = done
  keep-IsSub test (op ∷ ops) = elim (Bool-cases (test op)) [
    | inl y ↦ rw y (take (keep-IsSub test ops))
    | inr n ↦ rw n (drop (keep-IsSub test ops))
  ]

  pub evict-IsSub :
      (k : ℕ) (finished : List ℕ) (ops : List (AsyncOperation Value))
      → IsSub (evict k finished ops) ops
  unfolding evict
  evict-IsSub k finished [] = done
  evict-IsSub k finished (op ∷ ops) =
      elim (Bool-cases (ltb 0 k && contains finished op.operation_id)) [
        | inl y ↦ rw y (drop (evict-IsSub (k - 1) finished ops))
        | inr n ↦ rw n (take (evict-IsSub k finished ops))
      ]

  -- Every operation of a snapshot that is in the queue has finished.
  abbrev pub IsSound : List ℕ → List (AsyncOperation Value) → Type 0
  IsSound snapshot ops =
      All (λ op. contains snapshot op.operation_id ≡ true → op_finished op ≡ true) ops

  -- The unfinished operations of `ops` are in `rest`.
  abbrev pub Keeps : List (AsyncOperation Value) → List (AsyncOperation Value) → Type 0
  Keeps rest ops =
      All (λ op. op_finished op ≡ false → contains (ids rest) op.operation_id ≡ true) ops

  Keeps-cons :
      (op : AsyncOperation Value) (rest ops : List (AsyncOperation Value))
      → Keeps rest ops
      → Keeps (op ∷ rest) ops
  Keeps-cons op rest [] h = tt
  Keeps-cons op rest (o ∷ ops) h = (λ u. ground (arith, h.0 u), Keeps-cons op rest ops h.1)

  Keeps-drop :
      (op : AsyncOperation Value) (ops : List (AsyncOperation Value))
      {rest rest' : List (AsyncOperation Value)}
      → rest' ≡ rest
      → op_finished op ≡ true
      → Keeps rest ops
      → Keeps rest' (op ∷ ops)
  Keeps-drop op ops e f h = subst (λ r. Keeps r (op ∷ ops)) (sym e) (λ u. absurd (cc), h)

  Keeps-take :
      (op : AsyncOperation Value) (ops : List (AsyncOperation Value))
      {rest rest' : List (AsyncOperation Value)}
      → rest' ≡ op ∷ rest
      → Keeps rest ops
      → Keeps rest' (op ∷ ops)
  Keeps-take op ops {rest} e h =
      subst (λ r. Keeps r (op ∷ ops)) (sym e) (λ u. ground arith, Keeps-cons op rest ops h)

  pub keep-Keeps :
      (filter : AsyncOperation Value → Bool) (ops : List (AsyncOperation Value))
      → Keeps (keep (λ op. not (filter op && op_finished op)) ops) ops
  keep-Keeps filter [] = tt
  keep-Keeps filter (op ∷ ops) = elim (Bool-cases (filter op && op_finished op)) [
    | inl y ↦ Keeps-drop op ops (rw y) (ground arith) (keep-Keeps filter ops)
    | inr n ↦ Keeps-take op ops (rw n) (keep-Keeps filter ops)
  ]

  pub evict-Keeps :
      (k : ℕ) (finished : List ℕ) (ops : List (AsyncOperation Value))
      → IsSound finished ops
      → Keeps (evict k finished ops) ops
  unfolding evict
  evict-Keeps k finished [] s = tt
  evict-Keeps k finished (op ∷ ops) s =
      elim (Bool-cases (ltb 0 k && contains finished op.operation_id)) [
        | inl y ↦
            Keeps-drop op ops (rw y) (s.0 (ground arith)) (evict-Keeps (k - 1) finished ops s.1)
        | inr n ↦ Keeps-take op ops (rw n) (evict-Keeps k finished ops s.1)
      ]

  pub Keeps-self : (ops : List (AsyncOperation Value)) → Keeps ops ops
  Keeps-self [] = tt
  Keeps-self (op ∷ ops) = Keeps-take op ops refl (Keeps-self ops)

  finished_ids-absent :
      (k : ℕ) (ops : List (AsyncOperation Value))
      → contains (ids ops) k ≡ false
      → contains (finished_ids ops) k ≡ false
  unfolding finished_ids
  finished_ids-absent k [] h = refl
  finished_ids-absent k (op ∷ ops) h = ground (arith, finished_ids-absent k ops)

  -- A snapshot that grows by an ID that the queue does not hold stays sound.
  pub IsSound-cons :
      (k : ℕ) (snapshot : List ℕ) (ops : List (AsyncOperation Value))
      → contains (ids ops) k ≡ false
      → IsSound snapshot ops
      → IsSound (k ∷ snapshot) ops
  IsSound-cons k snapshot [] a s = tt
  IsSound-cons k snapshot (op ∷ ops) a s =
      (λ c. s.0 (ground arith), IsSound-cons k snapshot ops (ground arith) s.1)

  pub finished_ids-IsSound :
      (ops : List (AsyncOperation Value)) → IsDistinct ops → IsSound (finished_ids ops) ops
  finished_ids-IsSound [] d = tt
  finished_ids-IsSound (op ∷ ops) d = elim (Bool-cases (op_finished op)) [
    | inl y ↦
        let e : finished_ids (op ∷ ops) ≡ op.operation_id ∷ finished_ids ops =
          unfold finished_ids in rw y in
        subst (λ f. IsSound f (op ∷ ops)) (sym e)
          (λ c. y, IsSound-cons op.operation_id _ ops d.0 (finished_ids-IsSound ops d.1))
    | inr n ↦
        let e : finished_ids (op ∷ ops) ≡ finished_ids ops = unfold finished_ids in rw n in
        subst (λ f. IsSound f (op ∷ ops)) (sym e)
          (
            λ c. absurd (false_and_true c (finished_ids-absent op.operation_id ops d.0)),
            finished_ids-IsSound ops d.1,
          )
  ]
