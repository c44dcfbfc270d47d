-- ===== src/Standalone/Machines.antt =====
-- The machines that `create_workers` adds.
use lithops.Base.{
  ℕ, zero, suc, ◌<◌, ◌≤◌, ◌≡◌, refl, sym, ap, ◌∙◌, Bool, true, false, Bool-cases, inl, inr, some,
  List, [], ◌∷◌, ◌++◌, append-nil, append_assoc, length, arith,
}
use lithops.Standalone.Invocation.{
  Backend, create_worker, create_each, present, without, create_workers,
}

abbrev pub AllBelow : ℕ → List ℕ → Type 0
AllBelow n [] = Unit
AllBelow n (x ∷ xs) = (x < n) × AllBelow n xs

abbrev AllFrom : ℕ → List ℕ → Type 0
AllFrom n [] = Unit
AllFrom n (x ∷ xs) = (n ≤ x) × AllFrom n xs

AllFrom-pred : (n : ℕ) (xs : List ℕ) → AllFrom (suc n) xs → AllFrom n xs
AllFrom-pred n [] all = tt
AllFrom-pred n (x ∷ xs) (le, all) = (omega arith, AllFrom-pred n xs all)

present-false : (n x : ℕ) (old : List ℕ) → n ≤ x → AllBelow n old → present x old ≡ false
present-false n x [] le all = refl
present-false n x (y ∷ old) le (lt, all) = ground (arith, present-false n x old le all)

without-fresh : (n : ℕ) (xs old : List ℕ) → AllFrom n xs → AllBelow n old → without xs old ≡ xs
unfolding without
without-fresh n [] old all below = refl
without-fresh n (x ∷ xs) old (le, all) below =
    rw (present-false n x old le below, without)
      (ap (λ l. x ∷ l) (without-fresh n xs old all below))

without-append : (xs ys old : List ℕ) → without (xs ++ ys) old ≡ without xs old ++ without ys old
unfolding without
without-append [] ys old = refl
without-append (x ∷ xs) ys old = elim (Bool-cases (present x old)) [
  | inl e ↦ rw (e, without) (without-append xs ys old)
  | inr e ↦ rw (e, without) (ap (λ l. x ∷ l) (without-append xs ys old))
]

without-present :
    (xs old : List ℕ) → ((x : ℕ) → present x xs ≡ true → present x old ≡ true) → without xs old ≡ []
unfolding without
without-present [] old in_old = refl
without-present (x ∷ xs) old in_old =
    let here : present x (x ∷ xs) ≡ true = ground arith in
    rw (in_old x here, without)
      (without-present xs old (λ y there. in_old y (ground (arith, there))))

-- The machines that creating some adds, where each one is created.
create_each-all :
    (created : ℕ → Bool) (k n : ℕ) (b : Backend)
    → ((i : ℕ) → created i ≡ true)
    → (ws : List ℕ) × ((create_each created k n b).workers ≡ b.workers ++ ws)
      × AllFrom b.next ws
      × (length ws ≡ n)
unfolding create_each
create_each-all created k zero b all = ([], sym (append-nil b.workers), tt, refl)
create_each-all created k (suc n) b all =
    let (ws, grown, from, size) = create_each-all created (suc k) n (create_worker true b) all in
    (
      b.next ∷ ws,
      rw (all k, create_each) (grown ∙ append_assoc b.workers (b.next ∷ []) ws),
      (omega arith, AllFrom-pred b.next ws from),
      ap suc size,
    )

pub create_workers-all :
    (created : ℕ → Bool) (n : ℕ) (b : Backend)
    → ((i : ℕ) → created i ≡ true)
    → AllBelow b.next b.workers
    → 0 < n
    → (ws : List ℕ) × (b' : Backend) × (create_workers created n b ≡ some (ws, b'))
      × (b'.workers ≡ b.workers ++ ws)
      × (length ws ≡ n)
unfolding create_workers
create_workers-all created zero b all below p = absurd (omega arith)
create_workers-all created (suc n) b all below p =
    let (ws, grown, from, size) = create_each-all created 0 (suc n) b all in
    let b' = create_each created 0 (suc n) b in
    let new : without b'.workers b.workers ≡ ws =
      ap (λ l. without l b.workers) grown
      ∙ without-append b.workers ws b.workers
      ∙ ap (λ l. l ++ without ws b.workers) (without-present b.workers b.workers (λ x e. e))
      ∙ without-fresh b.next ws b.workers from below in
    (ws, b', ap (λ l. some (l, b')) new, grown, size)
