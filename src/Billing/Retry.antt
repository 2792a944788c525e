-- ===== src/Billing/Retry.antt =====
-- A payment event whose handling failed stays deliverable, in billing/webhook/route.ts.
use pytone_digital.Prelude.{
  ℕ, ◌-◌, ◌≡◌, refl, ap, ◌∙◌, inl, inr, none, some, [], ◌∷◌, ltb, Bool-cases,
}
use pytone_digital.Text.{Text, text_eq}
use pytone_digital.Text.Equality.{text_eq_refl}
use pytone_digital.Dictionary.{lookup, insert, remove, lookup-remove}
use pytone_digital.Effect.{Outcome, thrown}
use pytone_digital.Billing.{
  Event, Stripe, Answer, server_error, Seen, Worker, sweep, seen_event, seen_ttl_ms, after_handle,
  handle, deliver,
}

-- A sweep makes no entries.
sweep-absent :
    (now : ℕ) (id : Text) (seen : Seen) → lookup id seen ≡ none → lookup id (sweep now seen) ≡ none
unfolding sweep lookup
sweep-absent now id [] h = refl
sweep-absent now id ((k, t) ∷ seen) h = elim (Bool-cases (text_eq k id)) [
  | inl e ↦ absurd (clash (rw e at h))
  | inr e ↦ elim (Bool-cases (ltb seen_ttl_ms (now - t))) [
    | inl old ↦ rw old (sweep-absent now id seen (rw e at h))
    | inr new ↦ rw (new, e) (sweep-absent now id seen (rw e at h))
  ]
]
  where
    clash : {B : Type 0} → some t ≡ none → B
    clash q = cc

module _ (stripe : Stripe) where
  -- When the handling of a new event throws, the answer is a server error, which asks for another
  -- delivery; that one, at any time, is handled and not taken for a duplicate.
  pub deliver-retry :
      (now later : ℕ) (ev : Event) (w : Worker stripe)
      → lookup ev.id (sweep now w.seen) ≡ none
      → (handle stripe ev.change w.customers).0 ≡ thrown
      → let (answer, w') = deliver stripe now ev w in
        (answer ≡ server_error)
        × (deliver stripe later ev w'
            ≡ after_handle stripe ev.id
                (insert ev.id later (sweep later w'.seen))
                (handle stripe ev.change w'.customers))
  unfolding deliver seen_event
  deliver-retry now later ev w new failed =
      rw (new, throws (handle stripe ev.change w.customers) failed)
        (
          refl,
          rw
              (sweep-absent later ev.id (remove ev.id (insert ev.id now (sweep now w.seen)))
                released)
              refl,
        )
    where
      released : lookup ev.id (remove ev.id (insert ev.id now (sweep now w.seen))) ≡ none
      released =
          lookup-remove ev.id ev.id (insert ev.id now (sweep now w.seen))
          ∙ rw (text_eq_refl ev.id) refl

      throws : (r : Outcome Answer (Unit {0}) × stripe.State) → r.0 ≡ thrown → r ≡ (thrown, r.1)
      throws (o, c) e = ap (λ x. (x, c)) e
