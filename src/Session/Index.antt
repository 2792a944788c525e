-- ===== src/Session/Index.antt =====
-- The two keys of a session agree: the index of a user never points at a session that is gone.
use pytone_digital.Prelude.{
  ℕ, ◌/◌, ◌≤◌, ◌≡◌, refl, sym, ap, ◌∙◌, subst, inl, inr, true, false, Option, none, some, arith,
  if◌then◌else◌, Bool-cases,
}
use pytone_digital.Text.{Text, codes, text_eq, is_empty}
use pytone_digital.Text.Equality.{text_eq_iff}
use pytone_digital.Kv.{
  Kv, IsKeeping, IsUp, Codec, IsCodec, alive, decode_value-encode, decode_value,
}
use pytone_digital.Session.{
  SessionRecord, session_ttl_sec, session_key, index_key, create_session, destroy_session,
}
use pytone_digital.Session.Keys.{
  IsId, session_key-eq, session_key-index_key, index_key-session_key, index_key-injective,
  is_index_key-index_key, is_session_key, is_session_key-session_key, is_index_key,
}
use pytone_digital.Kv.Frame.{SameAt}
use pytone_digital.Session.Writes.{create_session-get, destroy_session-get, deleted}

absent_value : (v : Text) → (let x : Option (Option Text) = some none in x) ≡ some (some v) → ⊥
absent_value v e = cc

alive_both :
    (now at ttl : ℕ) (a b v : Text)
    → some (alive now at (some ttl) a) ≡ some (some v)
    → some (alive now at (some ttl) b) ≡ some (some b)
alive_both now at ttl a b v e = ground arith

module _ (kv : Kv) (keeping : IsKeeping kv) (up : IsUp kv) (json : Codec SessionRecord)
    (codec : IsCodec json) where
  -- From the second `clock` on, every index entry that is alive names a live session of its user.
  abbrev pub IsIndexed : ℕ → kv.State → Type 0
  IsIndexed clock s =
      (now : ℕ) (user_id id v : Text)
      → clock ≤ now
      → IsId id
      → kv.get now (index_key user_id id) s ≡ some (some v)
      → (r : SessionRecord) × (kv.get now (session_key id) s ≡ some (some (json.encode r)))
        × (r.user_id ≡ user_id)

  -- A new session, under an id that no session had, keeps the index right.
  create_session-IsIndexed :
      (R : Type 0) (clock at : ℕ) (id user_id email : Text) (ua ip : Option Text) (s : kv.State)
      → IsId id
      → ((now : ℕ) (u : Text) → kv.get now (index_key u id) s ≡ some none)
      → IsIndexed clock s
      → IsIndexed clock (create_session kv json {R = R} at id user_id email ua ip s).1
  create_session-IsIndexed R clock at id user_id email ua ip s is_id fresh h now u j v le j_id e =
      elim (Bool-cases (text_eq (index_key user_id id) (index_key u j))) [
        | inl mine ↦ own mine (rw (mine) at before)
        | inr theirs ↦ old theirs (rw (theirs, session_key-index_key id u j) at before)
      ]
    where
      created : SessionRecord
      created = record {
        user_id = user_id;
        email = email;
        created_at = at;
        user_agent = ua;
        ip = ip;
      }

      before :
          (if text_eq (index_key user_id id) (index_key u j)
            then some (alive now (at / 1000) (some session_ttl_sec) (codes "1"))
            else if text_eq (session_key id) (index_key u j)
            then some (alive now (at / 1000) (some session_ttl_sec) (json.encode created))
            else kv.get now (index_key u j) s)
          ≡ some (some v)
      before =
          sym (
            create_session-get kv keeping up json codec R at now id user_id email ua ip s
              (index_key u j))
          ∙ e

      own :
          text_eq (index_key user_id id) (index_key u j) ≡ true
          → some (alive now (at / 1000) (some session_ttl_sec) (codes "1")) ≡ some (some v)
          → (r : SessionRecord) × (kv.get now
                (session_key j)
                (create_session kv json {R = R} at id user_id email ua ip s).1
              ≡ some (some (json.encode r)))
            × (r.user_id ≡ u)
      own mine live =
          let (same_user, same_id) =
            index_key-injective user_id u id j is_id j_id
              ((text_eq_iff (index_key user_id id) (index_key u j)).0 mine) in
          (
            created,
            create_session-get kv keeping up json codec R at now id user_id email ua ip s
                  (session_key j)
                ∙ rw
                    (
                      index_key-session_key j user_id id,
                      session_key-eq id j,
                      (text_eq_iff id j).1 same_id,
                    )
                    (alive_both now (at / 1000) session_ttl_sec (codes "1") (json.encode created) v
                      live),
            same_user,
          )

      another : kv.get now (index_key u j) s ≡ some (some v) → text_eq id j ≡ false
      another live = elim (Bool-cases (text_eq id j)) [
        | inl same ↦ absurd (
            absent_value v (
              sym (fresh now u)
              ∙ subst (λ x. kv.get now (index_key u x) s ≡ some (some v))
                  (sym ((text_eq_iff id j).0 same)) live))
        | inr q ↦ q
      ]

      old :
          text_eq (index_key user_id id) (index_key u j) ≡ false
          → kv.get now (index_key u j) s ≡ some (some v)
          → (r : SessionRecord) × (kv.get now
                (session_key j)
                (create_session kv json {R = R} at id user_id email ua ip s).1
              ≡ some (some (json.encode r)))
            × (r.user_id ≡ u)
      old theirs live =
          let (r, found, same) = h now u j v le j_id live in
          (
            r,
            create_session-get kv keeping up json codec R at now id user_id email ua ip s
                  (session_key j)
                ∙ rw (index_key-session_key j user_id id, session_key-eq id j, another live) found,
            same,
          )

  -- An index entry that is left was there before.
  deleted_live :
      (d : Option SessionRecord) (id u j v : Text) (o : Option (Option Text))
      → deleted kv keeping up json codec d id (index_key u j) o ≡ some (some v)
      → o ≡ some (some v)
  deleted_live none id u j v o e = rw (session_key-index_key id u j) at e
  deleted_live (some r) id u j v o e =
      elim (Bool-cases (text_eq (index_key r.user_id id) (index_key u j))) [
        | inl q ↦ absurd (absent_value v (rw q at e))
        | inr q ↦ rw (q, session_key-index_key id u j) at e
      ]

  -- The other sessions are left.
  deleted_session :
      (d : Option SessionRecord) (id j : Text) (o : Option (Option Text))
      → text_eq id j ≡ false
      → deleted kv keeping up json codec d id (session_key j) o ≡ o
  deleted_session none id j o h = rw (session_key-eq id j, h) refl
  deleted_session (some r) id j o h =
      rw (index_key-session_key j r.user_id id, session_key-eq id j, h) refl

  destroy_session-IsIndexed :
      (R : Type 0) (clock at : ℕ) (id : Text) (s : kv.State)
      → clock ≤ at / 1000
      → is_empty id ≡ false
      → IsIndexed clock s
      → IsIndexed (at / 1000) (destroy_session kv json {R = R} at id s).1
  destroy_session-IsIndexed R clock at id s later not_empty h now u j v le j_id e =
      let (o, e₀) = up.get_up (at / 1000) (session_key id) s in
      let left = λ (k : Text).
        destroy_session-get kv keeping up json codec R at now id o (decode_value json o) s k
          not_empty e₀ refl in
      let was =
        deleted_live (decode_value json o) id u j v (kv.get now (index_key u j) s)
          (sym (left (index_key u j)) ∙ e) in
      let (r, found, same_user) = h now u j v (omega arith) j_id was in
      elim (Bool-cases (text_eq id j)) [
        | inl same ↦ absurd (gone r ((text_eq_iff id j).0 same) found same_user)
        | inr other ↦ (
          r,
          left (session_key j)
              ∙ deleted_session (decode_value json o) id j (kv.get now (session_key j) s) other
              ∙ found,
          same_user,
        )
      ]
    where
      -- The destroyed session takes its own index entry with it.
      gone :
          (r : SessionRecord)
          → id ≡ j
          → kv.get now (session_key j) s ≡ some (some (json.encode r))
          → r.user_id ≡ u
          → ⊥
      gone r same found same_user = elim (keeping.get_steady (at / 1000) now (session_key j) s le) [
        | inl expired ↦ absent_value (json.encode r) (sym expired ∙ found)
        | inr steady ↦ absent_value v (
            sym (
              destroy_session-get kv keeping up json codec R at now id (some (json.encode r))
                (some r) s (index_key u j) not_empty
                (subst (λ x. kv.get (at / 1000) (session_key x) s ≡ some (some (json.encode r)))
                  (sym same) (sym steady ∙ found))
                (decode_value-encode json codec r)
              ∙ rw
                  ((text_eq_iff (index_key r.user_id id) (index_key u j)).1
                    (ap (λ x. index_key x id) same_user ∙ ap (index_key u) same))
                  refl)
            ∙ e)
      ]

  -- The histories of the store: sessions are created under fresh ids and destroyed as time
  -- passes, and the rest of the server writes other keys.
  pub data Reach : ℕ → kv.State → Type 1 where
    empty_store :
        (clock : ℕ) (s : kv.State)
        → ((now : ℕ) (u id : Text) → kv.get now (index_key u id) s ≡ some none)
        → Reach clock s
    created :
        (R : Type 0) (clock at : ℕ) (id user_id email : Text) (ua ip : Option Text) (s : kv.State)
        → Reach clock s
        → IsId id
        → ((now : ℕ) (u : Text) → kv.get now (index_key u id) s ≡ some none)
        → Reach clock (create_session kv json {R = R} at id user_id email ua ip s).1
    destroyed :
        (R : Type 0) (clock at : ℕ) (id : Text) (s : kv.State)
        → Reach clock s
        → clock ≤ at / 1000
        → is_empty id ≡ false
        → Reach (at / 1000) (destroy_session kv json {R = R} at id s).1
    elsewhere :
        (clock : ℕ) (s s' : kv.State)
        → Reach clock s
        → SameAt kv is_session_key s s'
        → SameAt kv is_index_key s s'
        → Reach clock s'

  -- On a store that is up, after any history, an index entry that is alive, now or later, names a
  -- live session of its user.
  pub Reach-IsIndexed : (clock : ℕ) (s : kv.State) → Reach clock s → IsIndexed clock s
  Reach-IsIndexed _ _ (empty_store clock s none_there) =
      λ now u j v le j_id e. absurd (absent_value v (sym (none_there now u j) ∙ e))
  Reach-IsIndexed _ _ (created R clock at id user_id email ua ip s reach is_id fresh) =
      create_session-IsIndexed R clock at id user_id email ua ip s is_id fresh
        (Reach-IsIndexed clock s reach)
  Reach-IsIndexed _ _ (destroyed R clock at id s reach later not_empty) =
      destroy_session-IsIndexed R clock at id s later not_empty (Reach-IsIndexed clock s reach)
  Reach-IsIndexed _ _ (elsewhere clock s s' reach same_sessions same_index) = λ now u j v le j_id e.
      let (r, found, same_user) =
        Reach-IsIndexed clock s reach now u j v le j_id
          (sym (same_index now (index_key u j) (is_index_key-index_key u j)) ∙ e) in
      (r, same_sessions now (session_key j) (is_session_key-session_key j) ∙ found, same_user)
