-- ===== src/Session/Tests.antt =====
-- The theorems on sessions at concrete inputs, with a dictionary as the store.
use pytone_digital.Prelude.{
  ℕ, ◌≡◌, refl, ap, ◌∙◌, inl, inr, Bool, true, false, Option, none, some, [], ◌∷◌, arith,
  Bool-cases,
}
use pytone_digital.Text.{Text, codes, text_eq}
use pytone_digital.Effect.{returned}
use pytone_digital.Kv.{Codec, IsCodec, kv_put, kv_get, kv_delete}
use pytone_digital.Kv.Dict.{dict, dict-IsKeeping, dict-IsUp}
use pytone_digital.Kv.Flat.{
  write_text, read_text, read_text-write_text, write_option, read_option, read_option-write_option,
}
use pytone_digital.Session.{
  SessionRecord, create_session, destroy_session, delete_session, read_session,
}
use pytone_digital.Session.Index.{Reach, empty_store, created, destroyed, Reach-IsIndexed}
use pytone_digital.Session.Writes.{create_session-get}
use pytone_digital.Session.Lifetime.{create_session-read}
use pytone_digital.Session.Cookie.{
  set_session_cookie_header, read_session_cookie, cookie_pair, read_session_cookie-set,
}
use pytone_digital.Session.Revoke.{IsOwn, delete_session-IsOwn}
use pytone_digital.Dictionary.{lookup, insert, remove}
use pytone_digital.Text.{cut_at}
use pytone_digital.Session.{session_key, index_key}
use pytone_digital.Session.Keys.{index_key-injective, session_key-index_key}
use pytone_digital.Text.Equality.{text_eq_iff}

abbrev finish : Text → Text → ℕ → Option Text → Option Text → Text → Option SessionRecord
finish user_id email at ua ip rest =
    some (record { user_id = user_id; email = email; created_at = at; user_agent = ua; ip = ip })

abbrev read_rest : Text → Text → Text → Option SessionRecord
read_rest user_id email [] = none
read_rest user_id email (at ∷ rest) =
    read_option rest (λ ua rest. read_option rest (finish user_id email at ua))

abbrev pub flat_json : Codec SessionRecord
flat_json = record {
  encode = λ r.
      write_text r.user_id
        (write_text r.email (r.created_at ∷ write_option r.user_agent (write_option r.ip [])));
  decode = λ raw. read_text raw (λ user_id rest. read_text rest (read_rest user_id));
}

pub flat_json-IsCodec : IsCodec flat_json
flat_json-IsCodec = record {
  decode-encode = λ r.
      read_text-write_text r.user_id
        (write_text r.email (r.created_at ∷ write_option r.user_agent (write_option r.ip [])))
        (λ user_id rest. read_text rest (read_rest user_id))
      ∙ read_text-write_text r.email
          (r.created_at ∷ write_option r.user_agent (write_option r.ip [])) (read_rest r.user_id)
      ∙ read_option-write_option r.user_agent (write_option r.ip [])
          (λ ua rest. read_option rest (finish r.user_id r.email r.created_at ua))
      ∙ read_option-write_option r.ip [] (finish r.user_id r.email r.created_at r.user_agent);
  encode-not_empty = λ r. refl;
}

abbrev no_entries : dict.State
no_entries = []

-- A session of two devices of one user, the first of them signed out 10 seconds later.
abbrev two_devices : dict.State
two_devices =
    (create_session dict flat_json {R = Bool} 6000 (codes "b2") (codes "u") (codes "u@x") none none
      (create_session dict flat_json {R = Bool} 5000 (codes "a1") (codes "u") (codes "u@x")
        (some (codes "TV")) none no_entries).1).1

abbrev one_device : dict.State
one_device = (destroy_session dict flat_json {R = Bool} 15000 (codes "a1") two_devices).1

other_id :
    (u : Text) → text_eq (index_key (codes "u") (codes "a1")) (index_key u (codes "b2")) ≡ false
unfolding cut_at
other_id u =
    elim (Bool-cases (text_eq (index_key (codes "u") (codes "a1")) (index_key u (codes "b2")))) [
      | inl e ↦ absurd (
          clash (
            ap (text_eq (codes "a1"))
              (index_key-injective (codes "u") u (codes "a1") (codes "b2") refl refl (
                (text_eq_iff (index_key (codes "u") (codes "a1")) (index_key u (codes "b2"))).0
                  e)).1))
      | inr e ↦ e
    ]
  where
    clash : {A : Type 0} → true ≡ false → A
    clash h = cc

fresh_id :
    (now : ℕ) (u : Text)
    → dict.get now
        (index_key u (codes "b2"))
        (create_session dict flat_json {R = Bool} 5000
          (codes "a1")
          (codes "u")
          (codes "u@x")
          (some (codes "TV"))
          none
          no_entries).1
      ≡ some none
fresh_id now u =
    create_session-get dict dict-IsKeeping dict-IsUp flat_json flat_json-IsCodec Bool 5000 now
      (codes "a1") (codes "u") (codes "u@x") (some (codes "TV")) none no_entries
      (index_key u (codes "b2"))
    ∙ rw (other_id u, session_key-index_key (codes "a1") u (codes "b2")) (unfold lookup in refl)

one_device-Reach : Reach dict dict-IsKeeping dict-IsUp flat_json flat_json-IsCodec 15 one_device
unfolding lookup create_session kv_put insert cut_at
one_device-Reach =
    destroyed Bool 0 15000 (codes "a1") two_devices
      (created Bool 0 6000 (codes "b2") (codes "u") (codes "u@x") none none
        (create_session dict flat_json {R = Bool} 5000 (codes "a1") (codes "u") (codes "u@x")
          (some (codes "TV")) none no_entries).1
        (created Bool 0 5000 (codes "a1") (codes "u") (codes "u@x") (some (codes "TV")) none
          no_entries (empty_store 0 no_entries (λ now u id. refl)) refl (λ now u. refl))
        refl fresh_id)
      (omega arith) refl

Reach-IsIndexed_example :
    (r : SessionRecord) × (dict.get 20 (session_key (codes "b2")) one_device
      ≡ some (some (flat_json.encode r)))
    × (r.user_id ≡ codes "u")
unfolding lookup create_session destroy_session kv_put kv_get kv_delete insert remove read_session
    cut_at session_key index_key
Reach-IsIndexed_example =
    Reach-IsIndexed dict dict-IsKeeping dict-IsUp flat_json flat_json-IsCodec 15 one_device
      one_device-Reach 20 (codes "u") (codes "b2") (codes "1") (omega arith) refl refl

create_session-read_example :
    let s₁ =
      (create_session dict flat_json {R = Bool} 5000
        (codes "a1")
        (codes "u")
        (codes "u@x")
        (some (codes "TV"))
        none
        no_entries).1 in
    let s₂ = (destroy_session dict flat_json {R = Bool} 15000 (codes "a1") s₁).1 in
    (read_session dict flat_json {R = Bool} 2592004999 (codes "a1") s₁ ≡ (
      returned (
          some (record {
            user_id = codes "u";
            email = codes "u@x";
            created_at = 5000;
            user_agent = some (codes "TV");
            ip = none;
          })),
      s₁,
    ))
    × (read_session dict flat_json {R = Bool} 2592004999 (codes "a1") s₂ ≡ (returned none, s₂))
create_session-read_example =
    create_session-read dict dict-IsKeeping dict-IsUp flat_json flat_json-IsCodec Bool 5000 15000
      2592004999 (codes "a1") (codes "u") (codes "u@x") (some (codes "TV")) none no_entries refl

-- `tab=1; ns_session=a1`
read_session_cookie-set_example :
    (cut_at b';' (set_session_cookie_header (λ t. t) (codes "a1"))
      ≡ some (
        cookie_pair (λ t. t) (codes "a1"),
        codes " Path=/; Max-Age=2592000; HttpOnly; Secure; SameSite=Strict",
      ))
    × (read_session_cookie some (codes "tab=1; ns_session=a1") ≡ some (codes "a1"))
unfolding cut_at
read_session_cookie-set_example =
    read_session_cookie-set some (λ t. t) (codes "tab=1" ∷ []) (codes "a1")
      (((refl, (refl, (refl, (refl, (refl, tt))))), refl, refl), tt) ((refl, (refl, tt)), refl) refl

-- The second device signs the first one out.
delete_session-IsOwn_example :
    IsOwn dict flat_json 20000
      (codes "b2")
      (codes "a1")
      two_devices
      (delete_session dict flat_json 20000 true (codes "b2") (codes "a1") two_devices)
delete_session-IsOwn_example =
    delete_session-IsOwn dict flat_json 20000 (codes "b2") (codes "a1") two_devices
