-- ===== src/Ssrf/Rebinding.antt =====
-- The resolver's verdicts in `dohResolvesToPrivate` of ssrfGuard.ts and how long they are kept.
use pytone_digital.Prelude.{◌+◌, ◌<◌, ◌≡◌, refl, false, some, List, ◌∷◌, lt→ltb, any}
use pytone_digital.Text.{Text}
use pytone_digital.Runtime.{Js}
use pytone_digital.Dictionary.{lookup, insert, lookup-insert_self}
use pytone_digital.Ssrf.Fetch.{
  Answer, Remembered, Hop, Net, queried, doh_ttl_ms, doh_resolves_to_private, is_literal,
  is_private_answer, is_fresh,
}

module _ (js : Js) (host : Text) (named : is_literal host ≡ false) where
  asked :
      (hop : Hop) (net : Net) (answers : List Answer)
      → is_fresh hop.read_at (lookup host net.cache) ≡ false
      → hop.resolve host ≡ some answers
      → doh_resolves_to_private js hop host net ≡ (
        any (is_private_answer js) answers,
        record {
          cache =
              insert host
                (record { is_private = any (is_private_answer js) answers; at = hop.stored_at })
                net.cache;
          sent = queried host ∷ net.sent;
        },
      )
  unfolding doh_resolves_to_private
  asked hop net answers stale answered = rw (named, stale, answered) refl

  remembered :
      (hop : Hop) (net : Net) (v : Remembered)
      → lookup host net.cache ≡ some v
      → hop.read_at < v.at + doh_ttl_ms
      → doh_resolves_to_private js hop host net ≡ (v.is_private, net)
  unfolding doh_resolves_to_private
  remembered hop net v found soon =
      rw (named, found, lt→ltb hop.read_at (v.at + doh_ttl_ms) soon) refl

  -- A name that is no address literal and has no fresh verdict is judged by its A and AAAA
  -- answers: it is private exactly when one of them is. For less than 60 s a later check gives
  -- the same verdict, whatever the resolver answers then, and sends no query.
  pub doh_resolves_to_private-kept :
      (hop later : Hop) (net : Net) (answers : List Answer)
      → is_fresh hop.read_at (lookup host net.cache) ≡ false
      → hop.resolve host ≡ some answers
      → later.read_at < hop.stored_at + doh_ttl_ms
      → ((doh_resolves_to_private js hop host net).0 ≡ any (is_private_answer js) answers)
        × (doh_resolves_to_private js later host (doh_resolves_to_private js hop host net).1
            ≡ (any (is_private_answer js) answers, (doh_resolves_to_private js hop host net).1))
  doh_resolves_to_private-kept hop later net answers stale answered soon =
      rw (asked hop net answers stale answered) (
        refl,
        remembered later
            (record {
              cache =
                  insert host
                    (record { is_private = any (is_private_answer js) answers; at = hop.stored_at })
                    net.cache;
              sent = queried host ∷ net.sent;
            })
            (record { is_private = any (is_private_answer js) answers; at = hop.stored_at })
            (lookup-insert_self host
              (record { is_private = any (is_private_answer js) answers; at = hop.stored_at })
              net.cache)
            soon,
      )
