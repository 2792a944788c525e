-- ===== src/Probe/Budget.antt =====
-- The budget over a run of the pool.
use pytone_digital.Prelude.{
  ℕ, zero, suc, ◌+◌, ◌*◌, ◌≤◌, min, ◌≡◌, refl, ◌⊎◌, inl, inr, Bool, Option, none, some, List, [],
  ◌∷◌, arith, ltb, Bool-cases, length, get_elem?,
}
use pytone_digital.Text.{Text}
use pytone_digital.Probe.{Item}
use pytone_digital.Probe.Head.{FetchOutcome}
use pytone_digital.Probe.One.{Process, answered, fetching, probe_one}
use pytone_digital.Probe.Pool.{
  stepped, started, start_pool, Worker, Pool, probing, returned, charge, take_item, start_item,
  resume, step_at, start_workers, Reaches, start_pool,
}
use pytone_digital.Probe.Bounds.{AtMost, Plans, probe_one-Plans}
use pytone_digital.Runtime.{Js}
use pytone_digital.Ssrf.{Url}

-- A process whose pending request is paid has at most `k` more planned.
Due : ℕ → Process → Type 0
Due k (answered v status) = Unit
Due k (fetching r go) = Plans (suc k) (fetching r go)

Owes : ℕ → Worker → Type 0
unfolding Due
Owes k returned = Unit
Owes k (probing id p) = Due k p

-- A worker that has at most `k` more, where `others` are planned by the other workers and all of
-- it fits.
record Fits (others : ℕ) (w : Worker) (s : Pool) : Type 0 where
  planned : ℕ
  few : planned ≤ 2
  owes : Owes planned w
  fits : s.used + 4 * (planned + others) ≤ 68

module _ (probe : Item → Process) (items : List Item) (plans : (i : Item) → Plans 3 (probe i)) where
  take-Fits :
      (others : ℕ) (s : Pool)
      → others ≤ 6
      → s.used + 4 * others ≤ 68
      → (o : Option Item)
      → Fits others (start_item probe items s o).0 (start_item probe items s o).1
  unfolding Owes Due
  take-Fits others s few h none = record {
    planned = 0;
    few = omega arith;
    owes = tt;
    fits = omega arith;
  }
  take-Fits others s few h (some item) = elim (Bool-cases (ltb 42 (s.used + 12))) [
    | inl e ↦ rw e (record { planned = 0; few = omega arith; owes = tt; fits = omega arith })
    | inr e ↦
        let room : s.used + 12 ≤ 42 = ground arith in rw e (admit (probe item) (plans item) room)
  ]
    where
      admit :
          (p : Process)
          → Plans 3 p
          → s.used + 12 ≤ 42
          → Fits others (probing item.id p) (record s { used = s.used + charge p })
      admit (answered v status) a r = record {
        planned = 0;
        few = omega arith;
        owes = tt;
        fits = omega arith;
      }
      admit (fetching q go) a r = record {
        planned = 2;
        few = omega arith;
        owes = a;
        fits = omega arith;
      }

  go_on :
      (others k : ℕ) (id : Text) (s : Pool) (p : Process)
      → others ≤ 6
      → k ≤ 2
      → s.used + 4 * (k + others) ≤ 68
      → Plans k p ⊎ ((s.used ≤ 40) × AtMost 1 p)
      → Fits others (probing id p) (record s { used = s.used + charge p })
  unfolding Owes Due
  go_on others k id s (answered v status) few small h a = record {
    planned = 0;
    few = omega arith;
    owes = tt;
    fits = omega arith;
  }
  go_on others zero id s (fetching r go) few small h (inl a) = absurd a
  go_on others (suc k) id s (fetching r go) few small h (inl a) = record {
    planned = k;
    few = omega arith;
    owes = a;
    fits = omega arith;
  }
  go_on others k id s (fetching r go) few small h (inr (room, a)) = record {
    planned = 0;
    few = omega arith;
    owes = λ q. inl (last (go q) (a q));
    fits = omega arith;
  }
    where
      last : (p : Process) → AtMost 0 p → Plans 0 p
      last (answered v status) b = tt
      last (fetching r go) b = b

  resume-Fits :
      (others k : ℕ) (o : FetchOutcome) (late : Bool) (w : Worker) (s : Pool)
      → others ≤ 6
      → k ≤ 2
      → Owes k w
      → s.used + 4 * (k + others) ≤ 68
      → Fits others (resume probe items o late w s).0 (resume probe items o late w s).1
  unfolding resume take_item Owes Due
  resume-Fits others k o late returned s few small a h = record {
    planned = 0;
    few = omega arith;
    owes = tt;
    fits = omega arith;
  }
  resume-Fits others k o late (probing id (answered v status)) s few small a h =
      take-Fits others _ few (omega arith) (get_elem? items s.cursor)
  resume-Fits others k o late (probing id (fetching r go)) s few small a h =
      go_on others k id s (go _) few small h
        (a (record { outcome = o; late = late; used = s.used }))

  -- What all workers together have planned.
  Owing : List Worker → ℕ → Type 0
  Owing [] n = n ≡ 0
  Owing (w ∷ ws) n = (k : ℕ) × (m : ℕ) × (k ≤ 2) × Owes k w × Owing ws m × (n ≡ k + m)

  step_at-Owing :
      (n front m : ℕ) (o : FetchOutcome) (late : Bool) (ws : List Worker) (s : Pool)
      → front + 2 * length ws ≤ 8
      → Owing ws m
      → s.used + 4 * (front + m) ≤ 68
      → (m' : ℕ) × Owing (step_at probe items n o late ws s).0 m'
        × ((step_at probe items n o late ws s).1.used + 4 * (front + m') ≤ 68)
  unfolding step_at Owing
  step_at-Owing n front m o late [] s few a h = (m, a, h)
  step_at-Owing zero front m o late (w ∷ ws) s few (k, r, small, a, b, e) h =
      let f =
        resume-Fits (front + r) k o late w s (omega (arith, Owing-le ws r b)) small a
          (omega arith) in
      (f.planned + r, (f.planned, r, f.few, f.owes, b, refl), omega (arith, f.fits))
    where
      Owing-le : (ws : List Worker) (n : ℕ) → Owing ws n → n ≤ 2 * length ws
      Owing-le [] n e = omega arith
      Owing-le (w ∷ ws) n (k, m, small, a, b, e) = omega (arith, Owing-le ws m b)
  step_at-Owing (suc n) front m o late (w ∷ ws) s few (k, r, small, a, b, e) h =
      let (r', b', h') = step_at-Owing n (front + k) r o late ws s (omega arith) b (omega arith) in
      (k + r', (k, r', small, a, b', refl), omega arith)

  length-step_at :
      (n : ℕ) (o : FetchOutcome) (late : Bool) (ws : List Worker) (s : Pool)
      → length (step_at probe items n o late ws s).0 ≡ length ws
  unfolding step_at
  length-step_at n o late [] s = refl
  length-step_at zero o late (w ∷ ws) s = refl
  length-step_at (suc n) o late (w ∷ ws) s = omega (arith, length-step_at n o late ws s)

  start_workers-Owing :
      (n front : ℕ) (s : Pool)
      → front + 2 * n ≤ 8
      → s.used + 4 * front ≤ 68
      → (m : ℕ) × Owing (start_workers probe items n s).0 m
        × ((start_workers probe items n s).1.used + 4 * (front + m) ≤ 68)
        × (length (start_workers probe items n s).0 ≡ n)
  unfolding start_workers take_item Owing
  start_workers-Owing zero front s few h = (0, refl, omega arith, refl)
  start_workers-Owing (suc n) front s few h =
      let f =
        take-Fits front (record s { cursor = s.cursor + 1 }) (omega arith) h
          (get_elem? items s.cursor) in
      let s' =
        (start_item probe items (record s { cursor = s.cursor + 1 })
          (get_elem? items s.cursor)).1 in
      let (m, b, k, e) =
        start_workers-Owing n (front + f.planned) s' (omega (arith, f.few))
          (omega (arith, f.fits)) in
      (f.planned + m, (f.planned, m, f.few, f.owes, b, refl), omega (arith, k), omega (arith, e))

  Reaches-Owing :
      (ws : List Worker) (s : Pool)
      → Reaches probe items ws s
      → (length ws ≤ 4) × ((m : ℕ) × Owing ws m × (s.used + 4 * m ≤ 68))
  Reaches-Owing _ _ started =
      let (m, b, h, e) =
        start_workers-Owing (min 4 (length items)) 0 (record { cursor = 0; used = 0; results = [] })
          (omega arith) (omega arith) in
      unfold start_pool in (omega (arith, e), (m, b, omega (arith, h)))
  Reaches-Owing _ _ (stepped n o late ws s r) =
      let (few, (m, b, h)) = Reaches-Owing ws s r in
      let (m', b', h') = step_at-Owing n 0 m o late ws s (omega arith) b (omega arith) in
      (omega (arith, length-step_at n o late ws s), (m', b', omega arith))

module _ (js : Js) (parse_url : Text → Option Url) (resolve : Text → Text → Option Text)
    (items : List Item) where
  -- Whatever the upstreams answer and whenever they do, the
  -- workers of a batch together put at most 68 requests on its budget.
  pub Reaches-used_le :
      (ws : List Worker) (s : Pool)
      → Reaches (probe_one js parse_url resolve) items ws s
      → s.used ≤ 68
  Reaches-used_le ws s r =
      let (few, (m, b, h)) =
        Reaches-Owing (probe_one js parse_url resolve) items (probe_one-Plans js parse_url resolve)
          ws s r in
      omega arith
