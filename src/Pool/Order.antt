-- ===== src/Pool/Order.antt =====
-- pool/fixpool.go: the order of each client's tasks.
use hmq.Prelude.{
  ℕ, ◌≡◌, ◌≢◌, refl, sym, ap, subst, ◌∙◌, inl, inr, Option, none, some, List, [], ◌∷◌, ◌++◌,
  append-nil, append_assoc, Bytes, bytes_eq, ◌==◌, nat_eq, ltb, if◌then◌else◌, length, Bool-cases,
  beq_cases, some_inj,
}
use hmq.Pool.{
  WorkerPool, capacity, put, new, index, submit, run_first, run_worker, Reachable, started,
  submitted_to, ran,
}

none-ne-some {ℓ} : {B : Type ℓ} (x : B) → none ≢ some x
none-ne-some x = λ e. cc

module _ {ℓ} {A : Type ℓ} where
  -- The tasks of one client, in order.
  unfoldable pub of_client : Bytes → List (Bytes × A) → List A
  of_client uid [] = []
  of_client uid ((u, t) ∷ ts) = let rest = of_client uid ts in if u == uid then t ∷ rest else rest

  of_client-append :
      (uid : Bytes) (xs ys : List (Bytes × A))
      → of_client uid (xs ++ ys) ≡ of_client uid xs ++ of_client uid ys
  unfolding of_client
  of_client-append uid [] ys = refl
  of_client-append uid ((u, t) ∷ xs) ys = elim (Bool-cases (u == uid)) [
    | inl b ↦ rw (b, of_client-append uid xs ys) refl
    | inr b ↦ rw (b, of_client-append uid xs ys) refl
  ]

  -- What a worker has run and is to run of a client's tasks is what the client has submitted.
  abbrev pub InOrder : (Bytes → ℕ) → WorkerPool A → Bytes → Type ℓ
  InOrder hash p uid =
      let i = index hash p uid in
      of_client uid (p.executed i ++ p.task_queue i) ≡ of_client uid p.submitted

  of_client-other : (u uid : Bytes) (t : A) → u ≢ uid → of_client uid ((u, t) ∷ []) ≡ []
  unfolding of_client
  of_client-other u uid t ne = elim (beq_cases u uid) [
    | inl (_, e) ↦ absurd (ne e)
    | inr (b, _) ↦ rw b refl
  ]

  module _ (hash : Bytes → ℕ) where
    abbrev given : WorkerPool A → Bytes → A → WorkerPool A
    given p uid task =
        let i = index hash p uid in
        record p {
          task_queue = put i (p.task_queue i ++ (uid, task) ∷ []) p.task_queue;
          submitted = p.submitted ++ (uid, task) ∷ [];
        }

    -- Where the channel's new content stands at the client's own worker.
    given-queue :
        (p : WorkerPool A) (u uid : Bytes) (task : A)
        → of_client uid (
            put
              (index hash p u)
              (p.task_queue (index hash p u) ++ (u, task) ∷ [])
              p.task_queue
              (index hash p uid))
          ≡ of_client uid (p.task_queue (index hash p uid) ++ (u, task) ∷ [])
    given-queue p u uid task =
        let k = index hash p u in
        let i = index hash p uid in
        elim (beq_cases k i) [
          | inl (b, e) ↦ rw b (ap (λ j. of_client uid (p.task_queue j ++ (u, task) ∷ [])) e)
          | inr (b, ne) ↦ rw b (
              sym (
                of_client-append uid (p.task_queue i) ((u, task) ∷ [])
                ∙ ap (λ xs. of_client uid (p.task_queue i) ++ xs)
                    (of_client-other u uid task (λ e. ne (ap (index hash p) e)))
                ∙ append-nil (of_client uid (p.task_queue i))))
        ]

    given-InOrder :
        (p : WorkerPool A) (u uid : Bytes) (task : A)
        → InOrder hash p uid
        → InOrder hash (given p u task) uid
    unfolding index
    given-InOrder p u uid task h =
        let i = index hash p uid in
        of_client-append uid (p.executed i) _
        ∙ ap (λ xs. of_client uid (p.executed i) ++ xs)
            (given-queue p u uid task ∙ of_client-append uid (p.task_queue i) ((u, task) ∷ []))
        ∙ sym (
            append_assoc (of_client uid (p.executed i)) (of_client uid (p.task_queue i))
              (of_client uid ((u, task) ∷ [])))
        ∙ ap (λ xs. xs ++ of_client uid ((u, task) ∷ []))
            (sym (of_client-append uid (p.executed i) (p.task_queue i)) ∙ h)
        ∙ sym (of_client-append uid p.submitted ((u, task) ∷ []))

    submit-InOrder :
        (p q : WorkerPool A) (u uid : Bytes) (task : Option A)
        → InOrder hash p uid
        → submit hash u task p ≡ some q
        → InOrder hash q uid
    unfolding submit
    submit-InOrder p q u uid none h e = subst (λ q. InOrder hash q uid) (some_inj e) h
    submit-InOrder p q u uid (some task) h e =
        elim (Bool-cases (ltb (length (p.task_queue (index hash p u))) capacity)) [
          | inl b ↦
              subst (λ q. InOrder hash q uid) (some_inj (rw b at e)) (given-InOrder p u uid task h)
          | inr b ↦ absurd (none-ne-some q (rw b at e))
        ]

    run_first-InOrder :
        (p q : WorkerPool A) (uid : Bytes) (i : ℕ) (queue : List (Bytes × A))
        → p.task_queue i ≡ queue
        → InOrder hash p uid
        → run_first i p queue ≡ some q
        → InOrder hash q uid
    unfolding index
    run_first-InOrder p q uid i [] s h e = absurd (none-ne-some q e)
    run_first-InOrder p q uid i (x ∷ queue) s h e =
        subst (λ q. InOrder hash q uid) (some_inj e)
          (elim (beq_cases i (index hash p uid)) [
            | inl (b, same) ↦ rw b (
                ap (of_client uid) (
                  append_assoc (p.executed i) (x ∷ []) queue
                  ∙ ap (λ xs. p.executed i ++ xs) (sym s))
                ∙ ap (λ j. of_client uid (p.executed j ++ p.task_queue j)) same
                ∙ h)
            | inr (b, ne) ↦ rw b h
          ])

    -- Whatever the clients submit and the workers run, in any order: a client's tasks that its
    -- worker has run, with those in its channel, are the tasks the client has submitted, in the
    -- order of submission.
    pub Reachable-InOrder :
        (max_workers : ℕ) (p : WorkerPool A) (uid : Bytes)
        → Reachable hash max_workers p
        → InOrder hash p uid
    unfolding new run_worker
    Reachable-InOrder max_workers p uid started = refl
    Reachable-InOrder max_workers p uid (submitted_to p' q u task r e) =
        submit-InOrder p' p u uid task (Reachable-InOrder max_workers p' uid r) e
    Reachable-InOrder max_workers p uid (ran p' q i r e) =
        run_first-InOrder p' p uid i (p'.task_queue i) refl (Reachable-InOrder max_workers p' uid r)
          e
