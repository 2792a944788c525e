-- ===== src/Billing.antt =====
-- The payment events: POST of apps/web/src/app/api/billing/webhook/route.ts. The payment service
-- is a parameter: the check of a signature, and the calls that read a subscription and write the
-- metadata of a customer.
pub mod Once
pub mod Retry
mod Tests
use pytone_digital.Prelude.{
  ℕ, zero, suc, ◌+◌, ◌-◌, ◌*◌, ◌/◌, ◌%◌, ◌^◌, ◌≤◌, ◌<◌, min, max, String, ◌≡◌, refl, sym, ap, ◌∙◌,
  subst, ◌≡⟨◌⟩◌, ◌∎, ◌≢◌, ◌↔◌, ◌⊎◌, inl, inr, Bool, true, false, not, ◌&&◌, ◌||◌, Option, none,
  some, List, [], ◌∷◌, ◌++◌, map, foldl, reverse, arith, ltb, leb, ◌==◌, if◌then◌else◌, ltb→lt,
  lt→ltb, le→ltb_false, leb→le, le→leb, ==_iff, Bool-cases, Option-cases, length, get_elem?, take,
  drop, keep, any, all, length-append, length-keep-le, All, All-append, All-append_left,
  All-append_right,
}
use pytone_digital.Text.{Text, codes, text_eq, is_empty}
use pytone_digital.Dictionary.{lookup, insert, remove}
use pytone_digital.Effect.{M, Outcome, returned, answered, thrown, ◌>>=◌, ◌>>◌, pure}

pub data Change : Type 0 where
  -- customer, subscription
  checkout_completed : Option Text → Option Text → Change
  -- customer, subscription, its status, its plan
  subscription_updated : Text → Text → Text → Option Text → Change
  subscription_deleted : Text → Text → Change
  other_change : Change

pub record Event : Type 0 where
  pub id : Text
  pub change : Change

-- What is written to a customer; a plan that is not written stays.
pub record Metadata : Type 0 where
  pub nova_state : Text
  pub nova_plan : Option Text
  pub nova_sub : Text

-- The calls of the payment service; `none` when a call throws. A subscription has a plan or none.
pub record Stripe : Type 1 where
  pub State : Type 0
  pub retrieve : Text → State → Option (Option Text)
  pub update : Text → Metadata → State → Option State

-- What the webhook answers.
pub data Answer : Type 0 where
  no_secret : Answer
  no_signature : Answer
  bad_signature : Answer
  duplicate : Answer
  received : Answer
  server_error : Answer

abbrev pub seen_ttl_ms : ℕ
seen_ttl_ms = 10 * 60000

abbrev pub Seen : Type 0
Seen = List (Text × ℕ)

-- `for (const [k, t] of SEEN) if (now - t > SEEN_TTL_MS) SEEN.delete(k)`
unfoldable pub sweep : ℕ → Seen → Seen
sweep now [] = []
sweep now ((k, t) ∷ seen) =
    let rest = sweep now seen in if ltb seen_ttl_ms (now - t) then rest else (k, t) ∷ rest

abbrev pub is_some : {A : Type 0} → Option A → Bool
is_some none = false
is_some (some a) = true

-- `seenEvent`
unfoldable pub seen_event : ℕ → Text → Seen → Bool × Seen
seen_event now id seen =
    let swept = sweep now seen in
    if is_some (lookup id swept) then (true, swept) else (false, insert id now swept)

-- `plan || 'single'`
abbrev pub plan_of : Option Text → Text
plan_of none = codes "single"
plan_of (some plan) = if is_empty plan then codes "single" else plan

abbrev pub state_of : Text → Text
state_of status =
    if text_eq status (codes "active")
    then codes "active"
    else if text_eq status (codes "trialing")
    then codes "trialing"
    else if text_eq status (codes "past_due")
    then codes "past_due"
    else codes "inactive"

-- `if (!x) break`
abbrev pub given : Option Text → Option Text
given none = none
given (some x) = if is_empty x then none else some x

module _ (stripe : Stripe) where
  abbrev pub Call : Type 0 → Type 0
  Call A = M stripe.State Answer A

  abbrev retrieve_end :
      stripe.State → Option (Option Text) → Outcome Answer (Option Text) × stripe.State
  retrieve_end c none = (thrown, c)
  retrieve_end c (some plan) = (returned plan, c)

  unfoldable pub retrieve : Text → Call (Option Text)
  retrieve sub c = retrieve_end c (stripe.retrieve sub c)

  abbrev update_end : stripe.State → Option stripe.State → Outcome Answer (Unit {0}) × stripe.State
  update_end c none = (thrown, c)
  update_end c (some c') = (returned tt, c')

  unfoldable pub update : Text → Metadata → Call (Unit {0})
  update customer m c = update_end c (stripe.update customer m c)

  abbrev pub complete_checkout : Option Text → Option Text → Call (Unit {0})
  complete_checkout none _ = pure tt
  complete_checkout (some customer) none = pure tt
  complete_checkout (some customer) (some sub) = do
    plan ← retrieve sub
    update customer
        (record { nova_state = codes "active"; nova_plan = some (plan_of plan); nova_sub = sub })

  -- `handle`
  unfoldable pub handle : Change → Call (Unit {0})
  handle (checkout_completed customer sub) = complete_checkout (given customer) (given sub)
  handle (subscription_updated customer sub status plan) =
      update customer
        (record { nova_state = state_of status; nova_plan = some (plan_of plan); nova_sub = sub })
  handle (subscription_deleted customer sub) =
      update customer (record { nova_state = codes "canceled"; nova_plan = none; nova_sub = sub })
  handle other_change = pure tt

  -- The worker: the events it has seen, and the customers at the payment service.
  pub record Worker : Type 0 where
    pub seen : Seen
    pub customers : stripe.State

  -- What follows the handling: a failure releases the event.
  abbrev pub after_handle : Text → Seen → Outcome Answer (Unit {0}) × stripe.State → Answer × Worker
  after_handle id seen (returned _, c) = (received, record { seen = seen; customers = c })
  after_handle id seen (answered a, c) = (a, record { seen = seen; customers = c })
  after_handle id seen (thrown, c) = (server_error, record { seen = remove id seen; customers = c })

  abbrev pub after_seen : Event → Bool × Seen → stripe.State → Answer × Worker
  after_seen ev (true, seen) c = (duplicate, record { seen = seen; customers = c })
  after_seen ev (false, seen) c = after_handle ev.id seen (handle ev.change c)

  -- A delivery of an event whose signature is good.
  unfoldable pub deliver : ℕ → Event → Worker → Answer × Worker
  deliver now ev w = after_seen ev (seen_event now ev.id w.seen) w.customers

  -- POST: the secret, the signature, and the event that they give, if it checks.
  unfoldable pub post :
      ℕ → Option Text → Option Text → (Text → Text → Option Event) → Worker → Answer × Worker
  post now secret signature construct w = with_secret (given secret) (given signature)
    where
      with_event : Option Event → Answer × Worker
      with_event none = (bad_signature, w)
      with_event (some ev) = deliver now ev w

      with_secret : Option Text → Option Text → Answer × Worker
      with_secret none _ = (no_secret, w)
      with_secret (some secret) none = (no_signature, w)
      with_secret (some secret) (some signature) = with_event (construct secret signature)
