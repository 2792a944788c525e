-- ===== src/Session/Revoke.antt =====
-- Who can revoke a session: the DELETE route of apps/web/src/app/api/auth/sessions/[sid].
use pytone_digital.Prelude.{
  ℕ, ◌/◌, ◌≡◌, refl, sym, ◌∙◌, ◌⊎◌, inl, inr, Bool, true, false, Option, none, some, Bool-cases,
  Option-cases,
}
use pytone_digital.Text.{Text, text_eq, is_empty}
use pytone_digital.Text.Equality.{text_eq_iff}
use pytone_digital.Effect.{Outcome, returned, answered, thrown, quiet_end}
use pytone_digital.Kv.{Kv, Codec, kv_get, kv_delete, stored, decode_value}
use pytone_digital.Session.{
  SessionRecord, SessionReply, session_key, index_key, read_session, destroy_session,
  current_session, delete_session,
}

module _ (kv : Kv) (json : Codec SessionRecord) where
  -- A read throws, or gives a record or nothing, and leaves the store as it was.
  abbrev pub ReadCases : (R : Type 0) → ℕ → Text → kv.State → Type 0
  ReadCases R now id s =
      (read_session kv json {R = R} now id s ≡ (thrown, s))
      ⊎ ((read_session kv json {R = R} now id s ≡ (returned none, s))
          ⊎ ((r : SessionRecord) × (read_session kv json {R = R} now id s
                ≡ (returned (some r), s))))

  decoded_cases :
      (R : Type 0) (now : ℕ) (id : Text) (s : kv.State) (d : Option SessionRecord)
      → read_session kv json {R = R} now id s ≡ (returned d, s)
      → ReadCases R now id s
  decoded_cases R now id s none e = inr (inl e)
  decoded_cases R now id s (some r) e = inr (inr (r, e))

  pub read_session-cases : (R : Type 0) (now : ℕ) (id : Text) (s : kv.State) → ReadCases R now id s
  unfolding read_session kv_get
  read_session-cases R now id s = elim (Bool-cases (is_empty id)) [
    | inl e ↦ inr (inl (rw e refl))
    | inr e ↦ elim (Option-cases (kv.get (now / 1000) (session_key id) s)) [
      | inl n ↦ inl (rw (e, n) refl)
      | inr (o, q) ↦ decoded_cases R now id s (decode_value json o) (rw (e, q) refl)
    ]
  ]

  -- The effect of the route on the store, for each way in which it ends.
  abbrev pub IsOwn : ℕ → Text → Text → kv.State → Outcome SessionReply Bool × kv.State → Type 0
  IsOwn now current_sid target_sid s (returned out, s') =
      (c : SessionRecord) × (t : SessionRecord) × (read_session kv json {R = SessionReply} now
          current_sid s
        ≡ (returned (some c), s))
      × (read_session kv json {R = SessionReply} now target_sid s ≡ (returned (some t), s))
      × (t.user_id ≡ c.user_id)
      × (out ≡ text_eq target_sid current_sid)
      × (s' ≡ (destroy_session kv json {R = SessionReply} now target_sid s).1)
  IsOwn now current_sid target_sid s (answered r, s') = s' ≡ s
  IsOwn now current_sid target_sid s (thrown, s') = s' ≡ s

  quiet_stored :
      {R : Type 0} (s : kv.State) (o : Option kv.State)
      → quiet_end (stored kv {R = R} s o) ≡ (returned tt, (stored kv {R = R} s o).1)
  quiet_stored s none = refl
  quiet_stored s (some s') = refl

  -- Destroying a session that was just read succeeds.
  destroy_session-returned :
      (R : Type 0) (now : ℕ) (id : Text) (r : SessionRecord) (s : kv.State)
      → is_empty id ≡ false
      → read_session kv json {R = R} now id s ≡ (returned (some r), s)
      → destroy_session kv json {R = R} now id s
        ≡ (returned tt, (destroy_session kv json {R = R} now id s).1)
  unfolding destroy_session kv_delete
  destroy_session-returned R now id r s h e =
      let s₁ = (stored kv {R = R} s (kv.delete (now / 1000) (session_key id) s)).1 in
      rw
        (
          h,
          e,
          quiet_stored {R = R} s (kv.delete (now / 1000) (session_key id) s),
          quiet_stored {R = R} s₁ (kv.delete (now / 1000) (index_key r.user_id id) s₁),
        )
        refl

  found-not_empty :
      (R : Type 0) (now : ℕ) (id : Text) (r : SessionRecord) (s : kv.State)
      → read_session kv json {R = R} now id s ≡ (returned (some r), s)
      → is_empty id ≡ false
  unfolding read_session
  found-not_empty R now id r s e = elim (Bool-cases (is_empty id)) [
    | inl q ↦ nothing (sym (rw q refl) ∙ e)
    | inr q ↦ q
  ]
    where
      nothing :
          let none_ : Outcome R (Option SessionRecord) × kv.State = (returned none, s) in
          none_ ≡ (returned (some r), s) → is_empty id ≡ false
      nothing h = cc

  -- A session is revoked only by a caller whose own session belongs to the same user, and then as
  -- `destroySession` does; in every other case the store stays as it was.
  pub delete_session-IsOwn :
      (now : ℕ) (current_sid target_sid : Text) (s : kv.State)
      → IsOwn now current_sid target_sid s
          (delete_session kv json now true current_sid target_sid s)
  unfolding delete_session current_session
  delete_session-IsOwn now current_sid target_sid s =
      elim (read_session-cases SessionReply now current_sid s) [
        | inl e ↦ rw e refl
        | inr (inl e) ↦ rw e refl
        | inr (inr (c, e)) ↦ elim (read_session-cases SessionReply now target_sid s) [
          | inl q ↦ rw (e, q) refl
          | inr (inl q) ↦ rw (e, q) refl
          | inr (inr (t, q)) ↦ elim (Bool-cases (text_eq t.user_id c.user_id)) [
            | inl same ↦
                rw
                  (
                    e,
                    q,
                    same,
                    destroy_session-returned SessionReply now target_sid t s
                        (found-not_empty SessionReply now target_sid t s q) q,
                  )
                  (c, t, e, q, (text_eq_iff t.user_id c.user_id).0 same, refl, refl)
            | inr other ↦ rw (e, q, other) refl
          ]
        ]
      ]
