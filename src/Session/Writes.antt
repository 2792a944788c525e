-- ===== src/Session/Writes.antt =====
-- What the store holds after createSession and destroySession of serverSession.ts.
use pytone_digital.Prelude.{ℕ, ◌/◌, ◌≡◌, refl, false, Option, none, some, if◌then◌else◌}
use pytone_digital.Text.{Text, codes, text_eq, is_empty}
use pytone_digital.Kv.{
  Kv, IsKeeping, IsUp, Codec, IsCodec, alive, kv_get, kv_put, kv_delete, decode_value,
}
use pytone_digital.Session.{
  SessionRecord, session_ttl_sec, session_key, index_key, create_session, read_session,
  destroy_session,
}

module _ (kv : Kv) (keeping : IsKeeping kv) (up : IsUp kv) (json : Codec SessionRecord)
    (codec : IsCodec json) where
  -- The store after both writes of `createSession`, read at any key.
  pub create_session-get :
      (R : Type 0) (at now : ℕ) (id user_id email : Text) (ua ip : Option Text) (s : kv.State)
      (j : Text)
      → kv.get now j (create_session kv json {R = R} at id user_id email ua ip s).1 ≡ (
          if text_eq (index_key user_id id) j
          then some (alive now (at / 1000) (some session_ttl_sec) (codes "1"))
          else if text_eq (session_key id) j
          then some (
              alive now (at / 1000) (some session_ttl_sec) (
                json.encode (record {
                  user_id = user_id;
                  email = email;
                  created_at = at;
                  user_agent = ua;
                  ip = ip;
                })))
          else kv.get now j s)
  unfolding create_session kv_put
  create_session-get R at now id user_id email ua ip s j =
      let r : SessionRecord = record {
        user_id = user_id;
        email = email;
        created_at = at;
        user_agent = ua;
        ip = ip;
      } in
      let (s₁, e₁) =
        up.put_up (at / 1000) (session_key id) (json.encode r) (some session_ttl_sec) s in
      let (s₂, e₂) =
        up.put_up (at / 1000) (index_key user_id id) (codes "1") (some session_ttl_sec) s₁ in
      rw
        (
          e₁,
          e₂,
          keeping.get-put (at / 1000) now (index_key user_id id) j (codes "1")
              (some session_ttl_sec) s₁ s₂ e₂,
          keeping.get-put (at / 1000) now (session_key id) j (json.encode r) (some session_ttl_sec)
              s s₁ e₁,
        )
        refl

  -- What is left after `destroySession`: neither of the two keys, and all else.
  abbrev pub deleted :
      Option SessionRecord → Text → Text → Option (Option Text) → Option (Option Text)
  deleted none id j o = if text_eq (session_key id) j then some none else o
  deleted (some r) id j o =
      if text_eq (index_key r.user_id id) j
      then some none
      else if text_eq (session_key id) j
      then some none
      else o

  pub destroy_session-get :
      (R : Type 0) (at now : ℕ) (id : Text) (o : Option Text) (d : Option SessionRecord)
      (s : kv.State) (j : Text)
      → is_empty id ≡ false
      → kv.get (at / 1000) (session_key id) s ≡ some o
      → decode_value json o ≡ d
      → kv.get now j (destroy_session kv json {R = R} at id s).1 ≡ deleted d id j (kv.get now j s)
  unfolding destroy_session read_session kv_delete kv_get
  destroy_session-get R at now id o none s j not_empty found decoded =
      let (s₁, e₁) = up.delete_up (at / 1000) (session_key id) s in
      rw
        (
          not_empty,
          found,
          decoded,
          e₁,
          keeping.get-delete (at / 1000) now (session_key id) j s s₁ e₁,
        )
        refl
  destroy_session-get R at now id o (some r) s j not_empty found decoded =
      let (s₁, e₁) = up.delete_up (at / 1000) (session_key id) s in
      let (s₂, e₂) = up.delete_up (at / 1000) (index_key r.user_id id) s₁ in
      rw
        (
          not_empty,
          found,
          decoded,
          e₁,
          e₂,
          keeping.get-delete (at / 1000) now (index_key r.user_id id) j s₁ s₂ e₂,
          keeping.get-delete (at / 1000) now (session_key id) j s s₁ e₁,
        )
        refl
