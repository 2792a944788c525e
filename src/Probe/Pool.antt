-- ===== src/Probe/Pool.antt =====
-- `POST` of the probe route and its workers. The workers share the cursor, the budget and the
-- results; between two requests of a worker nothing else runs, so that a run of the pool is a
-- sequence of steps, each by one worker.
use pytone_digital.Prelude.{
  ℕ, zero, suc, ◌+◌, ◌*◌, min, Bool, true, false, Option, none, some, List, [], ◌∷◌, ◌++◌, ltb,
  if◌then◌else◌, length, get_elem?, take,
}
use pytone_digital.Text.{Text}
use pytone_digital.Probe.{
  Item, Verdict, Caller, RawItem, max_items, max_subrequests, max_redirects, concurrency,
  is_allowed_caller, items_of,
}
use pytone_digital.Probe.Head.{FetchOutcome}
use pytone_digital.Probe.One.{Process, answered, fetching}

-- A worker that waits for the answer to a request, or for the end of a probe that sent none, or
-- that has returned.
pub data Worker : Type 0 where
  probing : Text → Process → Worker
  returned : Worker

pub record Pool : Type 0 where
  pub cursor : ℕ
  pub used : ℕ
  pub results : List Verdict

-- A process runs until it waits: `fetchHead` puts its requests on the budget when it is called.
abbrev pub charge : Process → ℕ
charge (answered _ _) = 0
charge (fetching _ _) = max_redirects + 1

-- Worst case for one channel.
abbrev pub worst : ℕ
worst = 3 * (max_redirects + 1)

module _ (probe : Item → Process) (items : List Item) where
  abbrev pub start_item : Pool → Option Item → Worker × Pool
  start_item s none = (returned, s)
  start_item s (some item) =
      if ltb max_subrequests (s.used + worst)
      then (returned, s)
      else (probing item.id (probe item), record s { used = s.used + charge (probe item) })

  -- The top of the loop of a worker: the cursor moves whether the item is probed or not.
  unfoldable pub take_item : Pool → Worker × Pool
  take_item s = start_item (record s { cursor = s.cursor + 1 }) (get_elem? items s.cursor)

  -- A waiting worker goes on, with the outcome of its request and whether its deadline passed.
  unfoldable pub resume : FetchOutcome → Bool → Worker → Pool → Worker × Pool
  unfolding take_item
  resume outcome late returned s = (returned, s)
  resume outcome late (probing id (answered ok status)) s =
      take_item
        (record s { results = s.results ++ record { id = id; ok = ok; status = status } ∷ [] })
  resume outcome late (probing id (fetching _ go)) s =
      let p = go (record { outcome = outcome; late = late; used = s.used }) in
      (probing id p, record s { used = s.used + charge p })

  -- The workers start one after another.
  unfoldable pub start_workers : ℕ → Pool → List Worker × Pool
  unfolding take_item
  start_workers zero s = ([], s)
  start_workers (suc n) s =
      let (w, s) = take_item s in let (ws, s) = start_workers n s in (w ∷ ws, s)

  unfoldable pub start_pool : List Worker × Pool
  unfolding start_workers
  start_pool =
      start_workers (min concurrency (length items)) (record { cursor = 0; used = 0; results = [] })

  -- A step of the worker at a place.
  unfoldable pub step_at : ℕ → FetchOutcome → Bool → List Worker → Pool → List Worker × Pool
  unfolding resume
  step_at n outcome late [] s = ([], s)
  step_at zero outcome late (w ∷ ws) s = let (w, s) = resume outcome late w s in (w ∷ ws, s)
  step_at (suc n) outcome late (w ∷ ws) s = let (ws, s) = step_at n outcome late ws s in (w ∷ ws, s)

  -- The states that the pool can be in.
  pub data Reaches : List Worker → Pool → Type 0 where
    started : Reaches start_pool.0 start_pool.1
    stepped :
        (n : ℕ) (outcome : FetchOutcome) (late : Bool) (ws : List Worker) (s : Pool)
        → Reaches ws s
        → Reaches (step_at n outcome late ws s).0 (step_at n outcome late ws s).1

-- All workers have returned, so that `Promise.all` is done.
abbrev pub is_done : List Worker → Bool
is_done [] = true
is_done (returned ∷ ws) = is_done ws
is_done (probing _ _ ∷ ws) = false

pub data ProbeReply : Type 0 where
  forbidden bad_json items_required no_items : ProbeReply
  probe_items : List Item → ProbeReply

-- What `POST` does in front of the pool; the body is `none` when it is not JSON, and its items are
-- `none` when they are no array.
abbrev on_items : List Item → ProbeReply
on_items [] = no_items
on_items (i ∷ is) = probe_items (i ∷ is)

abbrev on_body : Option (Option (List (Option RawItem))) → ProbeReply
on_body none = bad_json
on_body (some none) = items_required
on_body (some (some raws)) = on_items (items_of (take max_items raws))

unfoldable pub post :
    (Text → Option Text) → Text → Caller → Option (Option (List (Option RawItem))) → ProbeReply
post host_of allowed c body =
    if is_allowed_caller host_of allowed c then on_body body else forbidden

-- The answer of a pool that is done.
pub record PoolReply : Type 0 where
  pub results : List Verdict
  pub checked : ℕ
  pub requested : ℕ

unfoldable pub pool_reply : List Item → Pool → PoolReply
pool_reply items s = record {
  results = s.results;
  checked = length s.results;
  requested = length items;
}
