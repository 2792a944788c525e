-- ===== src/ChannelCache/Provenance.antt =====
-- Where the channels that the cache serves come from.
use pytone_digital.Prelude.{
  ℕ, ◌-◌, ◌<◌, ◌≡◌, refl, ap, ◌∙◌, subst, ◌≢◌, ◌⊎◌, inl, inr, Bool, true, false, ◌&&◌, Option, none,
  some, List, [], ◌∷◌, arith, ltb, ◌==◌, ==_iff, Bool-cases, length, map, All,
}
use pytone_digital.Dictionary.Values.{
  AllValues, insert-AllValues, remove-AllValues, lookup-AllValues,
}
use pytone_digital.Text.{Text, text_eq, is_empty, starts_with, codes}
use pytone_digital.Dictionary.{lookup, insert}
use pytone_digital.Runtime.{Js}
use pytone_digital.M3u.{Channel}
use pytone_digital.M3u.Playlist.{parse_m3u}
use pytone_digital.Text.Equality.{text_eq_iff}
use pytone_digital.ChannelCache.{
  served, start_load, or_fetch, max_age_ms, parse_version, CacheEntry, Stored, unreadable, entry,
  Tab, read_session_cache, write_session_cache, fresh, get_cached_channels, invalidate_cache, Reply,
  revived, map_number, unreachable, answered, parse_and_store, parse_file, parse_reply,
  fetch_and_parse, served, start_load, or_fetch, from_mem, from_session, checked_entry, is_version,
  wanted_url,
}

-- `WasRead url text` says that the text was read for the address: from the proxy, or from the
-- uploaded file.
module _ (js : Js) (json_num : js.Num → js.Num) (WasRead : Text → Text → Type 0) where
  -- The channels are what the parser makes of a text that was read for the address, or what JSON
  -- gives back for that.
  abbrev pub IsParsed : Text → List (Channel js.Num) → Type 0
  IsParsed url channels =
      (text : Text) × WasRead url text
      × ((channels ≡ (parse_m3u js text).0)
          ⊎ (channels ≡ map (revived json_num) (parse_m3u js text).0))

  IsTrue : CacheEntry js.Num → Type 0
  IsTrue e = (e.v ≢ some parse_version) ⊎ IsParsed e.url e.channels

  IsTrueStored : Stored js.Num → Type 0
  unfolding IsTrue
  IsTrueStored unreadable = Unit
  IsTrueStored (entry e) = IsTrue e

  IsTrueTab : Tab js.Num → Type 0
  unfolding IsTrue IsTrueStored
  IsTrueTab t = AllValues IsTrue t.mem × AllValues IsTrueStored t.session

  -- What the operations lead to, from a new tab on. A reload empties the memory.
  pub data Reaches : Tab js.Num → Type 0 where
    opened : (full : Bool) → Reaches (record { mem = []; session = []; full = full })
    filled : (full : Bool) (t : Tab js.Num) → Reaches t → Reaches (record t { full = full })
    reloaded : (t : Tab js.Num) → Reaches t → Reaches (record t { mem = [] })
    looked :
        (key : Text) (url : Option Text) (source : Option (Text × Text)) (now : ℕ) (t : Tab js.Num)
        → Reaches t
        → Reaches (get_cached_channels key url source now t).1
    invalidated : (key : Text) (t : Tab js.Num) → Reaches t → Reaches (invalidate_cache key t)
    fetched :
        (key url file : Text) (reply : Reply) (now : ℕ) (t : Tab js.Num)
        → Reaches t
        → (starts_with url (codes "local:") ≡ true → WasRead url file)
        → ((status : ℕ) (text : Text) → reply ≡ answered true status (some text) → WasRead url text)
        → Reaches (fetch_and_parse js json_num key url now file reply t).1

  checked-IsTrue :
      (now : ℕ) (o : Option (Stored js.Num)) (e : CacheEntry js.Num)
      → ((r : Stored js.Num) → o ≡ some r → IsTrueStored r)
      → checked_entry now o ≡ some e
      → IsTrue e
  unfolding IsTrueStored
  checked-IsTrue now none e h q = cc
  checked-IsTrue now (some unreadable) e h q = cc
  checked-IsTrue now (some (entry f)) e h q =
      elim (Bool-cases (ltb max_age_ms (now - f.fetched_at))) [
        | inl a ↦ let k = rw a at q in cc
        | inr a ↦ elim (Bool-cases (is_version f.v)) [
          | inl b ↦
              let k : some f ≡ some e = rw (a, b) at q in
              let same : f ≡ e = cc in subst IsTrue same (h (entry f) refl)
          | inr b ↦ let k = rw (a, b) at q in cc
        ]
      ]

  get_cached_channels-IsTrueTab :
      (key : Text) (url : Option Text) (source : Option (Text × Text)) (now : ℕ) (t : Tab js.Num)
      → IsTrueTab t
      → IsTrueTab (get_cached_channels key url source now t).1
  unfolding get_cached_channels read_session_cache IsTrueTab
  get_cached_channels-IsTrueTab key url source now t (m, s) = mem (lookup key t.mem)
    where
      session :
          (o : Option (CacheEntry js.Num))
          → read_session_cache key now t ≡ o
          → IsTrueTab (from_session key (wanted_url url source) t o).1
      session none q = (m, s)
      session (some e) q = (
        insert-AllValues IsTrue key e t.mem
            (checked-IsTrue now (lookup key t.session) e
              (λ r k. lookup-AllValues IsTrueStored key t.session r k s) q)
            m,
        s,
      )

      mem :
          (o : Option (CacheEntry js.Num))
          → IsTrueTab (from_mem key (wanted_url url source) now t o).1
      mem none = session (read_session_cache key now t) refl
      mem (some e) = (m, s)

  invalidate_cache-IsTrueTab :
      (key : Text) (t : Tab js.Num) → IsTrueTab t → IsTrueTab (invalidate_cache key t)
  unfolding invalidate_cache IsTrueTab
  invalidate_cache-IsTrueTab key t (m, s) =
      (remove-AllValues IsTrue key t.mem m, remove-AllValues IsTrueStored key t.session s)

  write-IsTrueTab :
      (key : Text) (e : CacheEntry js.Num) (t : Tab js.Num)
      → IsTrue (record e { channels = map (revived json_num) e.channels })
      → IsTrueTab t
      → IsTrueTab (write_session_cache json_num key e t)
  unfolding write_session_cache IsTrueTab IsTrueStored
  write-IsTrueTab key e t p (m, s) = elim (Bool-cases t.full) [
    | inl f ↦ rw f (m, s)
    | inr f ↦ rw f (
      m,
      insert-AllValues IsTrueStored key
          (entry (record e { channels = map (revived json_num) e.channels })) t.session p s,
    )
  ]

  parse_and_store-IsTrueTab :
      (key url : Text) (now : ℕ) (text : Text) (t : Tab js.Num)
      → WasRead url text
      → IsTrueTab t
      → IsTrueTab (parse_and_store js json_num key url now text t).1
  unfolding parse_and_store
  parse_and_store-IsTrueTab key url now text t r h =
      elim (Bool-cases (length (parse_m3u js text).0 == 0)) [ inl e ↦ rw e h | inr e ↦ rw e stored ]
    where
      made : CacheEntry js.Num
      made = record {
        url = url;
        fetched_at = now;
        channels = (parse_m3u js text).0;
        v = some parse_version;
      }

      with_memory : IsTrue made → IsTrueTab t → IsTrueTab (record t { mem = insert key made t.mem })
      with_memory p h = unfold IsTrueTab in (insert-AllValues IsTrue key made t.mem p h.0, h.1)

      stored :
          IsTrueTab
            (write_session_cache json_num key made (record t { mem = insert key made t.mem }))
      stored =
          let p : IsTrue made = unfold IsTrue in inr (text, r, inl refl) in
          let q : IsTrue (record made { channels = map (revived json_num) made.channels }) =
            unfold IsTrue in inr (text, r, inr refl) in
          write-IsTrueTab key made (record t { mem = insert key made t.mem }) q (with_memory p h)

  fetch_and_parse-IsTrueTab :
      (key url file : Text) (reply : Reply) (now : ℕ) (t : Tab js.Num)
      → (starts_with url (codes "local:") ≡ true → WasRead url file)
      → ((status : ℕ) (text : Text) → reply ≡ answered true status (some text) → WasRead url text)
      → IsTrueTab t
      → IsTrueTab (fetch_and_parse js json_num key url now file reply t).1
  unfolding fetch_and_parse
  fetch_and_parse-IsTrueTab key url file reply now t f r h =
      elim (Bool-cases (starts_with url (codes "local:"))) [
        | inl e ↦ rw e (of_file (f e))
        | inr e ↦ rw e (of_reply reply r)
      ]
    where
      of_file : WasRead url file → IsTrueTab (parse_file js json_num key url now file t).1
      of_file w =
          unfold parse_file in
          elim (Bool-cases (is_empty file)) [
            | inl e ↦ rw e h
            | inr e ↦ rw e (parse_and_store-IsTrueTab key url now file t w h)
          ]

      of_reply :
          (reply : Reply)
          → ((status : ℕ) (text : Text)
              → reply ≡ answered true status (some text)
              → WasRead url text)
          → IsTrueTab (parse_reply js json_num key url now reply t).1
      of_reply (unreachable message) r = unfold parse_reply in h
      of_reply (answered false status body) r = unfold parse_reply in h
      of_reply (answered true status none) r = unfold parse_reply in h
      of_reply (answered true status (some text)) r =
          unfold parse_reply in parse_and_store-IsTrueTab key url now text t (r status text refl) h

  Reaches-IsTrueTab : (t : Tab js.Num) → Reaches t → IsTrueTab t
  Reaches-IsTrueTab _ (opened full) = unfold IsTrueTab in (tt, tt)
  Reaches-IsTrueTab _ (filled full t r) = whole full t (Reaches-IsTrueTab t r)
    where
      whole : (full : Bool) (t : Tab js.Num) → IsTrueTab t → IsTrueTab (record t { full = full })
      whole full t h = unfold IsTrueTab in h
  Reaches-IsTrueTab _ (reloaded t r) = emptied t (Reaches-IsTrueTab t r)
    where
      emptied : (t : Tab js.Num) → IsTrueTab t → IsTrueTab (record t { mem = [] })
      emptied t h = unfold IsTrueTab in (tt, h.1)
  Reaches-IsTrueTab _ (looked key url source now t r) =
      get_cached_channels-IsTrueTab key url source now t (Reaches-IsTrueTab t r)
  Reaches-IsTrueTab _ (invalidated key t r) =
      invalidate_cache-IsTrueTab key t (Reaches-IsTrueTab t r)
  Reaches-IsTrueTab _ (fetched key url file reply now t r f g) =
      fetch_and_parse-IsTrueTab key url file reply now t f g (Reaches-IsTrueTab t r)

  current-version : (v : Option ℕ) → is_version v ≡ true → v ≡ some parse_version
  current-version none h = cc
  current-version (some n) h = ap some ((==_iff n parse_version).0 h)

  -- What passes the test of freshness for an address was parsed from a text of that address.
  fresh-IsParsed :
      (url : Text) (e : CacheEntry js.Num) (cs : List (Channel js.Num))
      → IsTrue e
      → fresh (some url) e ≡ some cs
      → IsParsed url cs
  unfolding fresh IsTrue
  fresh-IsParsed url e cs true_entry h = elim (Bool-cases (is_version e.v && text_eq e.url url)) [
    | inl x ↦ passed true_entry (both x) (rw x at h)
    | inr x ↦ let k = rw x at h in cc
  ]
    where
      both :
          is_version e.v && text_eq e.url url ≡ true
          → (is_version e.v ≡ true) × (text_eq e.url url ≡ true)
      both x = (ground arith, ground arith)

      passed :
          (e.v ≢ some parse_version) ⊎ IsParsed e.url e.channels
          → (is_version e.v ≡ true) × (text_eq e.url url ≡ true)
          → some e.channels ≡ some cs
          → IsParsed url cs
      passed (inl old) (v, u) k = absurd (old (current-version e.v v))
      passed (inr (text, r, q)) (v, u) k =
          let same : e.channels ≡ cs = cc in
          subst (IsParsed url) same
            (text, subst (λ url. WasRead url text) ((text_eq_iff e.url url).0 u) r, q)

  get_cached_channels-IsParsed :
      (key url : Text) (source : Option (Text × Text)) (now : ℕ) (t : Tab js.Num)
      (cs : List (Channel js.Num))
      → IsTrueTab t
      → (get_cached_channels key (some url) source now t).0 ≡ some cs
      → IsParsed url cs
  unfolding get_cached_channels read_session_cache IsTrueTab
  get_cached_channels-IsParsed key url source now t cs (m, s) h = mem (lookup key t.mem) refl h
    where
      session :
          (o : Option (CacheEntry js.Num))
          → read_session_cache key now t ≡ o
          → (from_session key (some url) t o).0 ≡ some cs
          → IsParsed url cs
      session none q h = cc
      session (some e) q h =
          fresh-IsParsed url e cs
            (checked-IsTrue now (lookup key t.session) e
              (λ r k. lookup-AllValues IsTrueStored key t.session r k s) q)
            h

      mem :
          (o : Option (CacheEntry js.Num))
          → lookup key t.mem ≡ o
          → (from_mem key (some url) now t o).0 ≡ some cs
          → IsParsed url cs
      mem none q h = session (read_session_cache key now t) refl h
      mem (some e) q h = fresh-IsParsed url e cs (lookup-AllValues IsTrue key t.mem e q m) h

  -- JSON keeps the numbers that are finite.
  abbrev pub IsFiniteNumber : Option js.Num → Type 0
  IsFiniteNumber none = Unit
  IsFiniteNumber (some x) = js.is_finite x ≡ true

  abbrev pub IsFinite : Channel js.Num → Type 0
  IsFinite c =
      (js.is_finite c.number ≡ true)
      × IsFiniteNumber c.catchup_days
      × IsFiniteNumber c.catchup_correction

  -- What a load serves: what the parser makes of a text that was read for the address, as it is
  -- or as JSON gives it back, which is the same where all its numbers are finite; and at least
  -- one channel.
  abbrev pub IsServed : Text → List (Channel js.Num) → Type 0
  IsServed url cs =
      (text : Text) × WasRead url text
      × ((cs ≡ (parse_m3u js text).0) ⊎ (cs ≡ map (revived json_num) (parse_m3u js text).0))
      × (All IsFinite (parse_m3u js text).0 → cs ≡ (parse_m3u js text).0)
      × (0 < length cs)

  module _ (json_finite : (x : js.Num) → js.is_finite x ≡ true → json_num x ≡ x) where
    number-revived : (o : Option js.Num) → IsFiniteNumber o → map_number json_num o ≡ o
    number-revived none h = refl
    number-revived (some x) h = ap some (json_finite x h)

    channel-revived : (c : Channel js.Num) → IsFinite c → revived json_num c ≡ c
    channel-revived c (h, d, k) =
        rw
          (
            json_finite c.number h,
            number-revived c.catchup_days d,
            number-revived c.catchup_correction k,
          )
          refl

    list-revived : (cs : List (Channel js.Num)) → All IsFinite cs → map (revived json_num) cs ≡ cs
    list-revived [] h = refl
    list-revived (c ∷ cs) (h, k) =
        ap (λ d. d ∷ map (revived json_num) cs) (channel-revived c h)
        ∙ ap (λ ds. c ∷ ds) (list-revived cs k)

    parsed-IsServed :
        (url : Text) (cs : List (Channel js.Num))
        → IsParsed url cs
        → 0 < length cs
        → IsServed url cs
    parsed-IsServed url cs (text, r, inl e) n = (text, r, inl e, (λ h. e), n)
    parsed-IsServed url cs (text, r, inr e) n =
        (text, r, inr e, (λ h. e ∙ list-revived (parse_m3u js text).0 h), n)

    -- However the tab came to be in its state, through reloads, loads of other playlists, by other
    -- users and in whatever order: channels that a load serves from the cache are what the parser
    -- makes of a text that was read for the address that is configured now, as it is or as it
    -- comes back from JSON, which is the same when all the numbers of its channels are finite; and
    -- there is at least one. JSON gives finite numbers back as they are.
    pub start_load-IsParsed :
        (key url title : Text) (now : ℕ) (t t' : Tab js.Num) (cs : List (Channel js.Num))
        → Reaches t
        → start_load js key (some (url, title)) now t ≡ (served cs, t')
        → IsServed url cs
    unfolding start_load
    start_load-IsParsed key url title now t t' cs r h =
        answered_by (get_cached_channels key (some url) (some (url, title)) now t).0 refl
          (ap (λ p. p.0) h)
      where
        answered_by :
            (o : Option (List (Channel js.Num)))
            → (get_cached_channels key (some url) (some (url, title)) now t).0 ≡ o
            → or_fetch js url o ≡ served cs
            → IsServed url cs
        answered_by none q k = cc
        answered_by (some []) q k = cc
        answered_by (some (d ∷ ds)) q k =
            let same : d ∷ ds ≡ cs = cc in
            subst (IsServed url) same (
              parsed-IsServed url (d ∷ ds)
                (get_cached_channels-IsParsed key url (some (url, title)) now t (d ∷ ds)
                  (Reaches-IsTrueTab t r) q)
                (omega arith))
