-- ===== src/Operations/Queue/System/Safety.antt =====
-- What holds of the queue in every order of its critical sections.
use mathlib.Core.List.{Memᴰ}
use wallet.Prelude.{
  ℕ, ◌==◌, Bool-cases, inl, inr, ◌+◌, ◌-◌, ◌≤◌, ◌≡◌, refl, sym, subst, not, ◌&&◌, All-imp, err,
  true, false, List, [], ◌∷◌, ◌++◌, contains, length, All, All-append, Result, ok, arith, >>=-eq-ok,
  ok_injective,
}
use wallet.Rpc.{ErrorObject}
use wallet.Operations.State.{ready, AsyncOperation, SystemTime, finish}
use wallet.Operations.Queue.{op_finished, evict, make_room, insert}
use wallet.Operations.Queue.Room.{make_room_ok, insert-EvictsOldest}
use wallet.Operations.Queue.Collect.{ids, IsDistinct, collect_finished_lem}
use wallet.Operations.Queue.Sub.{
  IsSub-All, IsSub-IsDistinct, IsSub-length, IsSub-absent, keep-IsSub, evict-IsSub, IsSound, Keeps,
  Keeps-self, keep-Keeps, evict-Keeps, finished_ids-IsSound,
}
use wallet.Operations.Queue.System.{
  System, Step, snapshots_finished, opens_snapshot, reads_finished, inserts, starts, finishes,
  collects, Reach, begin, next, IsValid,
}
use wallet.Operations.Queue.System.Middle.{
  ids-middle, length-middle, IsDistinct-middle, IsSound-middle, IsDistinct-snoc, Keeps-weaken,
  contains-snoc,
}

finished_not :
    {Value : Type 0} (op : AsyncOperation Value)
    → op_finished op ≡ true
    → ¬ (op_finished op ≡ false)
finished_not op p q = cc

module _ {Value : Type 0} (limit : ℕ) where
  insert_ok :
      (snapshot : List ℕ) (op : AsyncOperation Value) (ops ops' : List (AsyncOperation Value))
      → insert limit snapshot op ops ≡ ok ops'
      → ops' ≡ evict (length ops + 1 - limit) snapshot ops ++ op ∷ []
  unfolding insert
  insert_ok snapshot op ops ops' h =
      let (rest, roomy, same) = >>=-eq-ok (make_room limit snapshot ops) _ h in
      let (is_evict, _) = make_room_ok limit snapshot ops rest roomy in
      rw (← is_evict) (sym (ok_injective same))

  -- Soundness of all snapshots goes over to a queue with a fresh operation at its end.
  IsSound-inserts :
      (op : AsyncOperation Value) (k : ℕ) (snapshot : List ℕ) (ops : List (AsyncOperation Value))
      (snapshots : List (List ℕ))
      → All (λ s. contains s op.operation_id ≡ false) snapshots
      → All (λ s. IsSound s ops) snapshots
      → All (λ s. IsSound s (evict k snapshot ops ++ op ∷ [])) snapshots
  IsSound-inserts op k snapshot ops [] f h = tt
  IsSound-inserts op k snapshot ops (s ∷ snapshots) f h = (
    All-append _ (evict k snapshot ops) (op ∷ []) (IsSub-All _ (evict-IsSub k snapshot ops) h.0)
        (λ c. absurd (cc), tt),
    IsSound-inserts op k snapshot ops snapshots f.1 h.1,
  )

  not_finished : (op : AsyncOperation Value) → op.shared.state ≡ ready → op_finished op ≡ false
  unfolding op_finished
  not_finished op h = ground arith

  finish_finished :
      (op : AsyncOperation Value) (now : SystemTime) (res : Result Value ErrorObject)
      → op_finished (record op { shared = finish now res op.shared }) ≡ true
  unfolding op_finished finish
  finish_finished op now (ok v) = refl
  finish_finished op now (err e) = refl

  -- Writing one operation's data keeps a valid queue valid, if it does not take a finished
  -- operation back.
  middle-IsValid :
      (s : System Value) (before after : List (AsyncOperation Value))
      (op op' : AsyncOperation Value)
      → op'.operation_id ≡ op.operation_id
      → (op_finished op ≡ true → op_finished op' ≡ true)
      → s.ops ≡ before ++ op ∷ after
      → IsValid limit s
      → IsValid limit (record s { ops = before ++ op' ∷ after })
  middle-IsValid s before after op op' same f e v = record {
    distinct = IsDistinct-middle op op' same after before (subst IsDistinct e v.distinct);
    bounded =
        rw (length-middle op op' same after before) (subst (λ l. length l ≤ limit) e v.bounded);
    sound =
        All-imp (λ n. IsSound n s.ops) (λ n. IsSound n (before ++ op' ∷ after)) s.snapshots
          (λ n h. IsSound-middle op op' same after n before f (subst (IsSound n) e h)) v.sound;
  }

  IsSound-nil : (ops : List (AsyncOperation Value)) → IsSound [] ops
  IsSound-nil [] = tt
  IsSound-nil (op ∷ ops) = (λ c. absurd (cc), IsSound-nil ops)

  IsSound-read :
      (id : ℕ) (snapshot : List ℕ) (ops : List (AsyncOperation Value))
      → All (λ op. op.operation_id ≡ id → op_finished op ≡ true) ops
      → IsSound snapshot ops
      → IsSound (id ∷ snapshot) ops
  IsSound-read id snapshot [] a h = tt
  IsSound-read id snapshot (op ∷ ops) a h = (
    λ c. elim (Bool-cases (id == op.operation_id)) [
      | inl e ↦ a.0 (ground arith)
      | inr n ↦ h.0 (ground arith)
    ],
    IsSound-read id snapshot ops a.1 h.1,
  )

  IsSound-of :
      (snapshot : List ℕ) (ops : List (AsyncOperation Value)) (snapshots : List (List ℕ))
      → Memᴰ snapshot snapshots
      → All (λ n. IsSound n ops) snapshots
      → IsSound snapshot ops
  IsSound-of snapshot ops [] m h = elim m [ ]
  IsSound-of snapshot ops (n ∷ snapshots) (Memᴰ.head e) h = subst (λ m. IsSound m ops) (sym e) h.0
  IsSound-of snapshot ops (n ∷ snapshots) (Memᴰ.tail m) h = IsSound-of snapshot ops snapshots m h.1

  -- Every critical section keeps the queue within its bound, the IDs distinct, and every snapshot a
  -- set of finished operations.
  pub Step-IsValid : {s t : System Value} → Step limit s t → IsValid limit s → IsValid limit t
  Step-IsValid (snapshots_finished s) v = record {
    distinct = v.distinct;
    bounded = v.bounded;
    sound = (finished_ids-IsSound s.ops v.distinct, v.sound);
  }
  Step-IsValid (opens_snapshot s) v = record {
    distinct = v.distinct;
    bounded = v.bounded;
    sound = (IsSound-nil s.ops, v.sound);
  }
  Step-IsValid (reads_finished s snapshot id taken left) v = record {
    distinct = v.distinct;
    bounded = v.bounded;
    sound = (
      IsSound-read id snapshot s.ops left (IsSound-of snapshot s.ops s.snapshots taken v.sound),
      v.sound,
    );
  }
  Step-IsValid (inserts s snapshot op ops' taken (new, unused) data_new h) v =
      let (_, _, short, _) = insert-EvictsOldest limit snapshot op s.ops ops' h in
      let k = length s.ops + 1 - limit in
      let e = insert_ok snapshot op s.ops ops' h in
      record {
        distinct = rw e (
            IsDistinct-snoc op (evict k snapshot s.ops)
              (IsSub-IsDistinct (evict-IsSub k snapshot s.ops) v.distinct)
              (IsSub-absent op.operation_id (evict-IsSub k snapshot s.ops) new));
        bounded = short;
        sound =
            subst (λ l. All (λ n. IsSound n l) s.snapshots) (sym e)
              (IsSound-inserts op k snapshot s.ops s.snapshots unused v.sound);
      }
  Step-IsValid (starts s before after op now d e r h) v =
      middle-IsValid s before after op (record op { shared = d }) refl
        (λ f. absurd (finished_not op f (not_finished op r))) e v
  Step-IsValid (finishes s before after op now res e x) v =
      middle-IsValid s before after op (record op { shared = finish now res op.shared }) refl
        (λ f. finish_finished op now res) e v
  Step-IsValid (collects s epoch filter) v =
      rw (collect_finished_lem epoch filter s.ops v.distinct) (record {
        distinct = IsSub-IsDistinct (keep-IsSub _ s.ops) v.distinct;
        bounded = omega (
          arith,
          IsSub-length (keep-IsSub (λ op. not (filter op && op_finished op)) s.ops),
          v.bounded,
        );
        sound = All-imp _ _ s.snapshots (λ n h. IsSub-All _ (keep-IsSub _ s.ops) h) v.sound;
      })

  -- In every reachable state the queue holds at most `limit` operations, with distinct IDs.
  pub Reach-IsValid : {s : System Value} → Reach limit s → IsValid limit s
  Reach-IsValid begin = record { distinct = tt; bounded = omega arith; sound = tt }
  Reach-IsValid (next r st) = Step-IsValid st (Reach-IsValid r)

  middle-Keeps :
      (s : System Value) (before after : List (AsyncOperation Value))
      (op op' : AsyncOperation Value)
      → op'.operation_id ≡ op.operation_id
      → s.ops ≡ before ++ op ∷ after
      → Keeps (before ++ op' ∷ after) s.ops
  middle-Keeps s before after op op' same e =
      Keeps-weaken s.ops (before ++ op' ∷ after) s.ops
        (λ k c.
          rw (ids-middle op op' same after before) (subst (λ l. contains (ids l) k ≡ true) e c))
        (Keeps-self s.ops)

  step-Keeps : {s t : System Value} → Step limit s t → IsValid limit s → Keeps t.ops s.ops
  step-Keeps (snapshots_finished s) v = Keeps-self s.ops
  step-Keeps (opens_snapshot s) v = Keeps-self s.ops
  step-Keeps (reads_finished s snapshot id taken left) v = Keeps-self s.ops
  step-Keeps (inserts s snapshot op ops' taken fresh data_new h) v =
      let k = length s.ops + 1 - limit in
      subst (λ l. Keeps l s.ops) (sym (insert_ok snapshot op s.ops ops' h))
        (Keeps-weaken (evict k snapshot s.ops) (evict k snapshot s.ops ++ op ∷ []) s.ops
          (contains-snoc op (evict k snapshot s.ops))
          (evict-Keeps k snapshot s.ops (IsSound-of snapshot s.ops s.snapshots taken v.sound)))
  step-Keeps (starts s before after op now d e r h) v =
      middle-Keeps s before after op (record op { shared = d }) refl e
  step-Keeps (finishes s before after op now res e x) v =
      middle-Keeps s before after op (record op { shared = finish now res op.shared }) refl e
  step-Keeps (collects s epoch filter) v =
      rw (collect_finished_lem epoch filter s.ops v.distinct) (keep-Keeps filter s.ops)

  -- In no order of the critical sections does one remove an operation that has not finished: of a
  -- reachable queue, every unfinished operation's ID is still in the queue after any next step,
  -- although an insertion evicts by a snapshot that it took before its write lock.
  pub Reach-Keeps : {s t : System Value} → Reach limit s → Step limit s t → Keeps t.ops s.ops
  Reach-Keeps r st = step-Keeps st (Reach-IsValid r)
