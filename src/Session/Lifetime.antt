-- ===== src/Session/Lifetime.antt =====
-- How long a session can be read: createSession and readSession of serverSession.ts.
use pytone_digital.Prelude.{
  ℕ, ◌+◌, ◌/◌, ◌≡◌, refl, ap, ◌∙◌, inl, inr, false, Option, none, some, ltb, if◌then◌else◌,
  Bool-cases,
}
use pytone_digital.Text.{Text, is_empty}
use pytone_digital.Text.Equality.{text_eq_refl}
use pytone_digital.Effect.{returned}
use pytone_digital.Kv.{
  Kv, IsKeeping, IsUp, Codec, IsCodec, alive, decode_value, decode_value-encode, kv_get,
}
use pytone_digital.Session.{
  SessionRecord, session_ttl_sec, session_key, create_session, read_session, destroy_session,
}
use pytone_digital.Session.Keys.{session_key-eq, index_key-session_key}
use pytone_digital.Session.Writes.{create_session-get, destroy_session-get, deleted}

module _ (kv : Kv) (json : Codec SessionRecord) (R : Type 0) where
  -- A read of the store gives what the session key holds.
  pub read_session-get :
      (now : ℕ) (id : Text) (o : Option Text) (s : kv.State)
      → is_empty id ≡ false
      → kv.get (now / 1000) (session_key id) s ≡ some o
      → read_session kv json {R = R} now id s ≡ (returned (decode_value json o), s)
  unfolding read_session kv_get
  read_session-get now id o s h e = rw (h, e) refl

alive_value :
    (json : Codec SessionRecord)
    → IsCodec json
    → (now at ttl : ℕ) (r : SessionRecord)
    → decode_value json (alive now at (some ttl) (json.encode r))
      ≡ (if ltb now (at + ttl) then some r else none)
alive_value json codec now at ttl r = elim (Bool-cases (ltb now (at + ttl))) [
  | inl e ↦ rw (e, decode_value-encode json codec r) refl
  | inr e ↦ rw e refl
]

module _ (kv : Kv) (keeping : IsKeeping kv) (up : IsUp kv) (json : Codec SessionRecord)
    (codec : IsCodec json) where
  deleted_own :
      (d : Option SessionRecord) (id : Text) (o : Option (Option Text))
      → deleted kv keeping up json codec d id (session_key id) o ≡ some none
  deleted_own none id o = rw (session_key-eq id id, text_eq_refl id) refl
  deleted_own (some r) id o =
      rw (index_key-session_key id r.user_id id, session_key-eq id id, text_eq_refl id) refl

  -- A session that was created is read back, with all that was recorded, for 30 days and not
  -- longer; once it is destroyed, at any time, it is read no more.
  pub create_session-read :
      (R : Type 0) (at gone now : ℕ) (id user_id email : Text) (ua ip : Option Text) (s : kv.State)
      → is_empty id ≡ false
      → let r : SessionRecord = record {
        user_id = user_id;
        email = email;
        created_at = at;
        user_agent = ua;
        ip = ip;
      } in
        let s₁ = (create_session kv json {R = R} at id user_id email ua ip s).1 in
        let s₂ = (destroy_session kv json {R = R} gone id s₁).1 in
        (read_session kv json {R = R} now id s₁
          ≡ (returned (if ltb (now / 1000) (at / 1000 + 2592000) then some r else none), s₁))
        × (read_session kv json {R = R} now id s₂ ≡ (returned none, s₂))
  create_session-read R at gone now id user_id email ua ip s h =
      let r : SessionRecord = record {
        user_id = user_id;
        email = email;
        created_at = at;
        user_agent = ua;
        ip = ip;
      } in
      let s₁ = (create_session kv json {R = R} at id user_id email ua ip s).1 in
      let (o, e) = up.get_up (gone / 1000) (session_key id) s₁ in
      (
        read_session-get kv json R now id
              (alive (now / 1000) (at / 1000) (some session_ttl_sec) (json.encode r)) s₁ h
              (create_session-get kv keeping up json codec R at (now / 1000) id user_id email ua ip
                  s (session_key id)
                ∙ rw (index_key-session_key id user_id id, session_key-eq id id, text_eq_refl id)
                    refl)
            ∙ ap (λ x. (returned x, s₁))
                (alive_value json codec (now / 1000) (at / 1000) session_ttl_sec r),
        read_session-get kv json R now id none (destroy_session kv json {R = R} gone id s₁).1 h (
            destroy_session-get kv keeping up json codec R gone (now / 1000) id o
              (decode_value json o) s₁ (session_key id) h e refl
            ∙ deleted_own (decode_value json o) id (kv.get (now / 1000) (session_key id) s₁)),
      )
