-- ===== src/Billing/Once.antt =====
-- Each payment event is applied once: the worker of billing/webhook/route.ts refines a machine
-- without a clock.
use pytone_digital.Prelude.{
  ℕ, ◌+◌, ◌-◌, ◌≤◌, ◌≡◌, refl, ap, ◌∙◌, inl, inr, Bool, true, false, ◌||◌, Option, none, some, List,
  [], ◌∷◌, arith, if◌then◌else◌, le→ltb_false, Bool-cases, All,
}
use pytone_digital.Text.{Text, codes, text_eq}
use pytone_digital.Dictionary.{lookup, insert, lookup-insert}
use pytone_digital.Effect.{returned}
use pytone_digital.Billing.{
  Change, checkout_completed, subscription_updated, subscription_deleted, other_change, Event,
  Stripe, Metadata, received, duplicate, Seen, Worker, seen_ttl_ms, sweep, is_some, seen_event,
  given, plan_of, complete_checkout, retrieve, update, handle, deliver,
}

-- The calls of the payment service succeed.
pub record IsUp (stripe : Stripe) : Type 0 where
  pub retrieve_up :
      (sub : Text) (c : stripe.State) → (plan : Option Text) × (stripe.retrieve sub c ≡ some plan)
  pub update_up :
      (customer : Text) (m : Metadata) (c : stripe.State)
      → (c' : stripe.State) × (stripe.update customer m c ≡ some c')

-- Entries made since the start, none of which a sweep within the window removes.
abbrev pub IsRecent : ℕ → Seen → Type 0
IsRecent start seen = All (λ (e : Text × ℕ). start ≤ e.1) seen

sweep-recent :
    (start now : ℕ) (seen : Seen)
    → IsRecent start seen
    → now ≤ start + seen_ttl_ms
    → sweep now seen ≡ seen
unfolding sweep
sweep-recent start now [] h le = refl
sweep-recent start now ((k, t) ∷ seen) (p, h) le =
    rw (le→ltb_false seen_ttl_ms (now - t) (omega arith), sweep-recent start now seen h le) refl

insert-IsRecent :
    (start now : ℕ) (id : Text) (seen : Seen)
    → start ≤ now
    → IsRecent start seen
    → IsRecent start (insert id now seen)
unfolding insert
insert-IsRecent start now id [] le h = (le, tt)
insert-IsRecent start now id ((k, t) ∷ seen) le (p, h) = elim (Bool-cases (text_eq k id)) [
  | inl e ↦ rw e (le, h)
  | inr e ↦ rw e (p, insert-IsRecent start now id seen le h)
]

module _ (stripe : Stripe) where
  abbrev pub run : List (ℕ × Event) → Worker stripe → Worker stripe
  run [] w = w
  run ((now, ev) ∷ ds) w = run ds (deliver stripe now ev w).1

  abbrev pub has : List Text → Text → Bool
  has [] id = false
  has (j ∷ ids) id = text_eq j id || has ids id

  -- The machine without a clock: the ids that were handled, and the customers.
  abbrev pub apply_once : List (ℕ × Event) → List Text → stripe.State → stripe.State
  apply_once [] ids c = c
  apply_once ((now, ev) ∷ ds) ids c =
      let skipped = apply_once ds ids c in
      let applied = apply_once ds (ev.id ∷ ids) (handle stripe ev.change c).1 in
      if has ids ev.id then skipped else applied

  abbrev pub IsWithin : ℕ → ℕ × Event → Type 0
  IsWithin start d = (start ≤ d.0) × (d.0 ≤ start + seen_ttl_ms)

  abbrev IsSame : Seen → List Text → Type 0
  IsSame seen ids = (id : Text) → is_some (lookup id seen) ≡ has ids id

  module _ (up : IsUp stripe) where
    update-returned :
        (customer : Text) (m : Metadata) (c : stripe.State)
        → update stripe customer m c ≡ (returned tt, (update stripe customer m c).1)
    unfolding update
    update-returned customer m c = let (c', e) = up.update_up customer m c in rw e refl

    complete_checkout-returned :
        (customer sub : Option Text) (c : stripe.State)
        → complete_checkout stripe customer sub c
          ≡ (returned tt, (complete_checkout stripe customer sub c).1)
    unfolding retrieve
    complete_checkout-returned none _ c = refl
    complete_checkout-returned (some customer) none c = refl
    complete_checkout-returned (some customer) (some sub) c =
        let (plan, e) = up.retrieve_up sub c in
        rw e (
          update-returned customer
            (record {
              nova_state = codes "active";
              nova_plan = some (plan_of plan);
              nova_sub = sub;
            })
            c)

    handle-returned :
        (change : Change) (c : stripe.State)
        → handle stripe change c ≡ (returned tt, (handle stripe change c).1)
    unfolding handle
    handle-returned (checkout_completed customer sub) c =
        complete_checkout-returned (given customer) (given sub) c
    handle-returned (subscription_updated customer sub status plan) c = update-returned customer _ c
    handle-returned (subscription_deleted customer sub) c = update-returned customer _ c
    handle-returned other_change c = refl

    insert-IsSame :
        (seen : Seen) (ids : List Text) (id : Text) (now : ℕ)
        → IsSame seen ids
        → IsSame (insert id now seen) (id ∷ ids)
    insert-IsSame seen ids id now h j = elim (Bool-cases (text_eq id j)) [
      | inl e ↦ rw (lookup-insert id j now seen, e) refl
      | inr e ↦ rw (lookup-insert id j now seen, e) (h j)
    ]

    deliver_known :
        (start now : ℕ) (ev : Event) (seen : Seen) (c : stripe.State)
        → IsRecent start seen
        → now ≤ start + seen_ttl_ms
        → is_some (lookup ev.id seen) ≡ true
        → deliver stripe now ev (record { seen = seen; customers = c })
          ≡ (duplicate, record { seen = seen; customers = c })
    unfolding deliver seen_event
    deliver_known start now ev seen c recent to e =
        rw (sweep-recent start now seen recent to, e) refl

    deliver_new :
        (start now : ℕ) (ev : Event) (seen : Seen) (c : stripe.State)
        → IsRecent start seen
        → now ≤ start + seen_ttl_ms
        → is_some (lookup ev.id seen) ≡ false
        → deliver stripe now ev (record { seen = seen; customers = c }) ≡ (
          received,
          record { seen = insert ev.id now seen; customers = (handle stripe ev.change c).1 },
        )
    unfolding deliver seen_event
    deliver_new start now ev seen c recent to e =
        rw (sweep-recent start now seen recent to, e, handle-returned ev.change c) refl

    run-steps :
        (start : ℕ) (ds : List (ℕ × Event)) (seen : Seen) (ids : List Text) (c : stripe.State)
        → All (IsWithin start) ds
        → IsRecent start seen
        → IsSame seen ids
        → (run ds (record { seen = seen; customers = c })).customers ≡ apply_once ds ids c
    run-steps start [] seen ids c h recent same = refl
    run-steps start ((now, ev) ∷ ds) seen ids c ((from, to), h) recent same =
        elim (Bool-cases (has ids ev.id)) [
          | inl e ↦
              ap (λ r. (run ds r.1).customers)
                (deliver_known start now ev seen c recent to (same ev.id ∙ e))
              ∙ rw e (run-steps start ds seen ids c h recent same)
          | inr e ↦
              ap (λ r. (run ds r.1).customers)
                (deliver_new start now ev seen c recent to (same ev.id ∙ e))
              ∙ rw e (
                  run-steps start ds (insert ev.id now seen) (ev.id ∷ ids)
                    (handle stripe ev.change c).1 h
                    (insert-IsRecent start now ev.id seen from recent)
                    (insert-IsSame seen ids ev.id now same))
        ]

    -- Deliveries within ten minutes of a start, in any order and repeated in any way, to a worker
    -- that has seen none before: when the calls of the payment service succeed, the customers end
    -- up as if each event had been applied once, at its first delivery.
    pub run-apply_once :
        (start : ℕ) (ds : List (ℕ × Event)) (c : stripe.State)
        → All (IsWithin start) ds
        → (run ds (record { seen = []; customers = c })).customers ≡ apply_once ds [] c
    run-apply_once start ds c h = run-steps start ds [] [] c h tt (λ id. unfold lookup in refl)
