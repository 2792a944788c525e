-- ===== src/Probe/Prefix.antt =====
-- Which items of a batch get a verdict.
use pytone_digital.Prelude.{
  ℕ, zero, suc, ◌+◌, ◌≤◌, ◌<◌, min, ◌≡◌, refl, subst, ◌⊎◌, inl, inr, Bool, true, Option, none, some,
  List, [], ◌∷◌, ◌++◌, arith, ltb, ltb→lt, Bool-cases, length, get_elem?, take, length-append,
}
use pytone_digital.Text.{Text}
use pytone_digital.Probe.{concurrency, Item, Verdict}
use pytone_digital.Probe.Head.{FetchOutcome}
use pytone_digital.Probe.One.{answered, fetching, Process, answered, fetching}
use pytone_digital.Probe.Pool.{
  returned, resume, take_item, start_workers, start_pool, step_at, Reaches, started, stepped,
  is_done, pool_reply, resume, take_item, start_workers, start_pool, step_at, Reaches, started,
  stepped, is_done, pool_reply, Worker, Pool, probing, returned, charge, take_item, start_item,
  resume, start_workers, start_pool, step_at, Reaches, started, stepped, is_done, pool_reply,
}
use pytone_digital.Probe.Counting.{
  occurs, ids_of, answered_ids, held, busy, occurs-take-suc, get_elem?-none, occurs-answered,
  held-nil, busy-nil, none_answered, held-cons, busy-cons, held-done, busy-done,
}

module _ (probe : Item → Process) (items : List Item) where
  asked : Text → ℕ → ℕ
  asked id k = occurs id (ids_of (take k items))

  -- The first `k` items were taken: the cursor stands behind them, or no item is left, or so much
  -- of the budget is used that no more is taken.
  Taken : ℕ → Pool → Type 0
  Taken k s =
      (k ≤ length items) × ((s.cursor ≡ k) ⊎ ((k ≡ length items) × (k ≤ s.cursor)) ⊎ (30 < s.used))

  -- From one state to another, what was taken since is held or answered.
  record Moves (k : ℕ) (ws : List Worker) (s : Pool) (ws' : List Worker) (s' : Pool) : Type 0 where
    taken : ℕ
    is_taken : Taken taken s'
    ids :
        (id : Text)
        → occurs id (answered_ids s'.results) + held id ws' + asked id k
          ≡ occurs id (answered_ids s.results) + held id ws + asked id taken
    sizes : length s'.results + busy ws' + k ≡ length s.results + busy ws + taken

  start_item-Moves :
      (k : ℕ) (s : Pool) (o : Option Item)
      → Taken k s
      → get_elem? items s.cursor ≡ o
      → Moves k [] s
          ((start_item probe items (record s { cursor = s.cursor + 1 }) o).0 ∷ [])
          (start_item probe items (record s { cursor = s.cursor + 1 }) o).1
  unfolding Taken held busy asked
  start_item-Moves k s none t h = record {
    taken = k;
    is_taken = (t.0, ended t.1);
    ids = λ id. refl;
    sizes = omega arith;
  }
    where
      ended :
          (s.cursor ≡ k) ⊎ ((k ≡ length items) × (k ≤ s.cursor)) ⊎ (30 < s.used)
          → (s.cursor + 1 ≡ k) ⊎ ((k ≡ length items) × (k ≤ s.cursor + 1)) ⊎ (30 < s.used)
      ended (inl e) = inr (inl (omega (arith, get_elem?-none items s.cursor h, t.0), omega arith))
      ended (inr (inl (e, l))) = inr (inl (e, omega arith))
      ended (inr (inr u)) = inr (inr u)
  start_item-Moves k s (some item) t h = elim (Bool-cases (ltb 42 (s.used + 12))) [
    | inl e ↦
        let full : 30 < s.used = omega (arith, ltb→lt 42 (s.used + 12) e) in
        rw e (record {
          taken = k;
          is_taken = (t.0, inr (inr full));
          ids = λ id. refl;
          sizes = omega arith;
        })
    | inr e ↦ let room : s.used ≤ 30 = ground arith in rw e (admitted room t.1)
  ]
    where
      admitted :
          s.used ≤ 30
          → (s.cursor ≡ k) ⊎ ((k ≡ length items) × (k ≤ s.cursor)) ⊎ (30 < s.used)
          → Moves k [] s
              (probing item.id (probe item) ∷ [])
              (record s { cursor = s.cursor + 1; used = s.used + charge (probe item) })
      admitted room (inl e) =
          let at : get_elem? items k ≡ some item = subst (λ c. get_elem? items c ≡ some item) e h in
          record {
            taken = suc k;
            is_taken = (omega (arith, (occurs-take-suc [] items k item at).1), inl (omega arith));
            ids = λ id. omega (arith, (occurs-take-suc id items k item at).0);
            sizes = omega arith;
          }
      admitted room (inr (inl (e, l))) =
          absurd (omega (arith, (occurs-take-suc [] items s.cursor item h).1))
      admitted room (inr (inr u)) = absurd (omega arith)

  pushed-Moves :
      (k : ℕ) (v : Verdict) (s : Pool) (ws : List Worker) (s' : Pool)
      → Moves k [] (record s { results = s.results ++ v ∷ [] }) ws s'
      → Moves k (probing v.id (answered v.ok v.status) ∷ []) s ws s'
  unfolding held busy
  pushed-Moves k v s ws s' m = record {
    taken = m.taken;
    is_taken = m.is_taken;
    ids = λ id. omega (arith, m.ids id, occurs-answered id s.results v);
    sizes = omega (arith, m.sizes, length-append s.results (v ∷ []));
  }

  waiting-Moves :
      (k : ℕ) (x : Text) (p q : Process) (s : Pool)
      → Taken k s
      → Moves k (probing x p ∷ []) s (probing x q ∷ []) (record s { used = s.used + charge q })
  unfolding held busy Taken
  waiting-Moves k x p q s (few, t) = record {
    taken = k;
    is_taken = (few, still t);
    ids = λ id. refl;
    sizes = refl;
  }
    where
      still :
          (s.cursor ≡ k) ⊎ ((k ≡ length items) × (k ≤ s.cursor)) ⊎ (30 < s.used)
          → (s.cursor ≡ k) ⊎ ((k ≡ length items) × (k ≤ s.cursor)) ⊎ (30 < s.used + charge q)
      still (inl e) = inl e
      still (inr (inl e)) = inr (inl e)
      still (inr (inr u)) = inr (inr (omega arith))

  resume-Moves :
      (k : ℕ) (o : FetchOutcome) (late : Bool) (w : Worker) (s : Pool)
      → Taken k s
      → Moves k
          (w ∷ [])
          s
          ((resume probe items o late w s).0 ∷ [])
          (resume probe items o late w s).1
  unfolding resume take_item Taken
  resume-Moves k o late returned s t = record {
    taken = k;
    is_taken = t;
    ids = λ id. refl;
    sizes = refl;
  }
  resume-Moves k o late (probing x (answered v status)) s t =
      pushed-Moves k (record { id = x; ok = v; status = status }) s _ _
        (start_item-Moves k _ (get_elem? items s.cursor) t refl)
  resume-Moves k o late (probing x (fetching r go)) s t =
      waiting-Moves k x (fetching r go) (go _) s t

  step_at-Moves :
      (n k : ℕ) (o : FetchOutcome) (late : Bool) (ws : List Worker) (s : Pool)
      → Taken k s
      → Moves k ws s (step_at probe items n o late ws s).0 (step_at probe items n o late ws s).1
  unfolding step_at
  step_at-Moves n k o late [] s t = record {
    taken = k;
    is_taken = t;
    ids = λ id. refl;
    sizes = refl;
  }
  step_at-Moves zero k o late (w ∷ ws) s t =
      let m = resume-Moves k o late w s t in
      let (w', s') = resume probe items o late w s in
      record {
        taken = m.taken;
        is_taken = m.is_taken;
        ids = λ id. omega (arith, m.ids id, held-cons id w ws, held-cons id w' ws);
        sizes = omega (arith, m.sizes, busy-cons w ws, busy-cons w' ws);
      }
  step_at-Moves (suc n) k o late (w ∷ ws) s t =
      let m = step_at-Moves n k o late ws s t in
      let (ws', s') = step_at probe items n o late ws s in
      record {
        taken = m.taken;
        is_taken = m.is_taken;
        ids = λ id. omega (arith, m.ids id, held-cons id w ws, held-cons id w ws');
        sizes = omega (arith, m.sizes, busy-cons w ws, busy-cons w ws');
      }

  start_workers-Moves :
      (n k : ℕ) (s : Pool)
      → Taken k s
      → Moves k [] s (start_workers probe items n s).0 (start_workers probe items n s).1
  unfolding start_workers take_item
  start_workers-Moves zero k s t = record {
    taken = k;
    is_taken = t;
    ids = λ id. refl;
    sizes = refl;
  }
  start_workers-Moves (suc n) k s t =
      let first = start_item-Moves k s (get_elem? items s.cursor) t refl in
      let (w, s') =
        start_item probe items (record s { cursor = s.cursor + 1 }) (get_elem? items s.cursor) in
      let rest = start_workers-Moves n first.taken s' first.is_taken in
      let (ws, s'') = start_workers probe items n s' in
      record {
        taken = rest.taken;
        is_taken = rest.is_taken;
        ids = λ id. omega (arith, first.ids id, rest.ids id, held-cons id w ws, held-nil id);
        sizes = omega (arith, first.sizes, rest.sizes, busy-cons w ws, busy-nil);
      }

  asked-zero : (id : Text) → asked id 0 ≡ 0
  unfolding asked occurs ids_of
  asked-zero id = refl

  -- What was taken is held or answered.
  record Kept (ws : List Worker) (s : Pool) : Type 0 where
    taken : ℕ
    is_taken : Taken taken s
    ids : (id : Text) → occurs id (answered_ids s.results) + held id ws ≡ asked id taken
    sizes : length s.results + busy ws ≡ taken

  Reaches-Kept : (ws : List Worker) (s : Pool) → Reaches probe items ws s → Kept ws s
  unfolding start_pool
  Reaches-Kept _ _ started =
      let m =
        start_workers-Moves (min concurrency (length items)) 0
          (record { cursor = 0; used = 0; results = [] })
          (unfold Taken in (omega arith, inl refl)) in
      record {
        taken = m.taken;
        is_taken = m.is_taken;
        ids = λ id. omega (arith, m.ids id, held-nil id, asked-zero id, none_answered id);
        sizes = omega (arith, m.sizes, busy-nil);
      }
  Reaches-Kept _ _ (stepped n o late ws s r) =
      let kept = Reaches-Kept ws s r in
      let m = step_at-Moves n kept.taken o late ws s kept.is_taken in
      record {
        taken = m.taken;
        is_taken = m.is_taken;
        ids = λ id. omega (arith, m.ids id, kept.ids id);
        sizes = omega (arith, m.sizes, kept.sizes);
      }

  -- When the workers have all returned, the verdicts are those of the first items of the batch,
  -- as many as the answer says were checked, each as often as it stands there, in whatever order
  -- the probes ended. So a cursor that moves on by `checked` passes over no item without a verdict.
  pub pool_reply-prefix :
      (ws : List Worker) (s : Pool)
      → Reaches probe items ws s
      → is_done ws ≡ true
      → ((pool_reply items s).checked ≤ length items)
        × ((id : Text)
            → occurs id (answered_ids (pool_reply items s).results)
              ≡ occurs id (ids_of (take (pool_reply items s).checked items)))
  unfolding pool_reply asked Taken
  pool_reply-prefix ws s r d =
      let kept = Reaches-Kept ws s r in
      let all : length s.results ≡ kept.taken = omega (arith, kept.sizes, busy-done ws d) in
      (omega (arith, kept.is_taken.0), λ id. rw all (omega (arith, kept.ids id, held-done id ws d)))
