-- ===== src/Billing/Tests.antt =====
-- The theorems on the payment events at concrete inputs.
use pytone_digital.Prelude.{ℕ, ◌≡◌, refl, none, some, List, [], ◌∷◌, arith}
use pytone_digital.Text.{Text, codes}
use pytone_digital.Dictionary.{lookup}
use pytone_digital.Billing.{
  Event, Stripe, Metadata, Worker, subscription_deleted, subscription_updated, server_error,
  deliver, handle, after_handle, sweep, update,
}
use pytone_digital.Dictionary.{insert}
use pytone_digital.Billing.Once.{IsUp, run, apply_once, run-apply_once}
use pytone_digital.Billing.Retry.{deliver-retry}

-- A service that keeps the writes in the order in which they come.
abbrev journal : Stripe
journal = record {
  State = List (Text × Metadata);
  retrieve = λ sub c. some none;
  update = λ customer m c. some ((customer, m) ∷ c);
}

abbrev journal-IsUp : IsUp journal
journal-IsUp = record {
  retrieve_up = λ sub c. (none, refl);
  update_up = λ customer m c. ((customer, m) ∷ c, refl);
}

-- A service that fails at every write.
abbrev broken : Stripe
broken = record { State = Unit {0}; retrieve = λ sub c. none; update = λ customer m c. none }

abbrev canceled : Event
canceled = record { id = codes "e2"; change = subscription_deleted (codes "c") (codes "s") }

abbrev updated : Event
updated = record {
  id = codes "e1";
  change = subscription_updated (codes "c") (codes "s") (codes "active") none;
}

abbrev three_deliveries : List (ℕ × Event)
three_deliveries = (1000, updated) ∷ (2000, canceled) ∷ (600000, updated) ∷ []

run-apply_once_example :
    (run journal three_deliveries (record { seen = []; customers = [] })).customers
    ≡ apply_once journal three_deliveries [] []
run-apply_once_example =
    run-apply_once journal journal-IsUp 1000 three_deliveries []
      ((omega arith, omega arith), ((omega arith, omega arith), ((omega arith, omega arith), tt)))

deliver-retry_example :
    let w : Worker broken = record { seen = []; customers = tt } in
    let (answer, w') = deliver broken 1000 canceled w in
    (answer ≡ server_error)
    × (deliver broken 5000 canceled w'
        ≡ after_handle broken
            (codes "e2")
            (insert (codes "e2") 5000 (sweep 5000 w'.seen))
            (handle broken canceled.change w'.customers))
unfolding lookup sweep handle update
deliver-retry_example =
    deliver-retry broken 1000 5000 canceled (record { seen = []; customers = tt }) refl refl
