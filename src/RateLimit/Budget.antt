-- ===== src/RateLimit/Budget.antt =====
-- How many requests of one window rateLimit.ts lets through, and when it says to come back.
use pytone_digital.Prelude.{
  ℕ, ◌+◌, ◌-◌, ◌*◌, ◌/◌, ◌<◌, min, ◌≡◌, refl, ap, ◌∙◌, inl, inr, true, false, Option, none, some,
  List, [], ◌∷◌, arith, ltb, leb, ◌==◌, if◌then◌else◌, ltb→lt, lt→ltb, Bool-cases, length, All,
}
use native.Mathlib.Nat.{lt-div-mul-add, div-mul-le_self}
use pytone_digital.Text.{Text, is_empty, is_digit, is_space, trim_start}
use pytone_digital.Text.Decimal.{show, read_base, show-digits, show-not_empty, read_base-show}
use pytone_digital.Kv.{Kv, IsKeeping, IsUp}
use pytone_digital.Text.Equality.{text_eq_refl}
use pytone_digital.RateLimit.{
  positive, leading_digits, parse_sign, count_of, reaches, limit_key, kept_state, after_read,
  rate_limit,
}

leading_digits-digits : (s : Text) → All (λ c. is_digit c ≡ true) s → leading_digits s ≡ s
unfolding leading_digits
leading_digits-digits [] h = refl
leading_digits-digits (c ∷ s) (p, h) = rw (p, leading_digits-digits s h) refl

digit-unspaced : (c : ℕ) → is_digit c ≡ true → is_space c ≡ false
digit-unspaced c h = ground arith

digit-not_minus : (c : ℕ) → is_digit c ≡ true → (c == b'-') ≡ false
digit-not_minus c h = ground arith

digit-not_plus : (c : ℕ) → is_digit c ≡ true → (c == b'+') ≡ false
digit-not_plus c h = ground arith

parse_sign-digits :
    (s : Text)
    → All (λ c. is_digit c ≡ true) s
    → is_empty s ≡ false
    → parse_sign (trim_start s) ≡ positive (read_base 10 s)
unfolding parse_sign trim_start
parse_sign-digits [] h e = ground arith
parse_sign-digits (c ∷ s) (p, h) e =
    rw
      (
        digit-unspaced c p,
        digit-not_minus c p,
        digit-not_plus c p,
        leading_digits-digits (c ∷ s) (p, h),
      )
      refl

-- A count that was written is read back.
count_of-show : (n : ℕ) → count_of (some (show n)) ≡ positive n
unfolding count_of
count_of-show n =
    parse_sign-digits (show n) (show-digits n) (show-not_empty n) ∙ ap positive (read_base-show n)

-- A count in a refusal's way, and the second at which the window ends.
after_read-retry :
    (kv : Kv) (now : ℕ) (key : Text) (limit window_sec : ℕ) (s : kv.State)
    (o : Option (Option Text))
    → now < (now / window_sec + 1) * window_sec
    → (after_read kv now key limit window_sec s o).0.ok ≡ false
    → now + (after_read kv now key limit window_sec s o).0.retry_after
      ≡ (now / window_sec + 1) * window_sec
unfolding after_read
after_read-retry kv now key limit window_sec s none ends h = ground arith
after_read-retry kv now key limit window_sec s (some raw) ends h =
    elim (Bool-cases (reaches (count_of raw) limit)) [
      | inl r ↦ rw r (omega arith)
      | inr r ↦ ground arith
    ]

-- A refusal tells the caller to come back exactly when the next window begins.
pub rate_limit-retry :
    (kv : Kv) (now_ms : ℕ) (bucket id : Text) (limit window_sec : ℕ) (s : kv.State)
    → 0 < window_sec
    → (rate_limit kv now_ms bucket id limit window_sec s).0.ok ≡ false
    → now_ms / 1000 + (rate_limit kv now_ms bucket id limit window_sec s).0.retry_after
      ≡ (now_ms / 1000 / window_sec + 1) * window_sec
unfolding rate_limit after_read
rate_limit-retry kv now_ms bucket id limit window_sec s h refused =
    after_read-retry kv (now_ms / 1000) (limit_key bucket id (now_ms / 1000 / window_sec)) limit
      window_sec s (kv.get (now_ms / 1000) (limit_key bucket id (now_ms / 1000 / window_sec)) s)
      (omega (arith, lt-div-mul-add {a = now_ms / 1000} {b = window_sec} h)) refused

module _ (kv : Kv) (bucket id : Text) (limit window_sec window : ℕ) where
  -- Every read in the window gives the count.
  abbrev pub HasCount : ℕ → kv.State → Type 0
  HasCount n s =
      (now : ℕ)
      → now / window_sec ≡ window
      → (o : Option Text) × (kv.get now (limit_key bucket id window) s ≡ some o)
        × (count_of o ≡ positive n)

  -- The number of requests, at these times, that are let through.
  abbrev pub admitted : List ℕ → kv.State → ℕ
  admitted [] s = 0
  admitted (t ∷ ts) s =
      let (r, s') = rate_limit kv t bucket id limit window_sec s in
      (if r.ok then 1 else 0) + admitted ts s'

  abbrev pub IsInWindow : ℕ → Type 0
  IsInWindow t = t / 1000 / window_sec ≡ window

module _ (kv : Kv) (keeping : IsKeeping kv) (up : IsUp kv) (bucket id : Text)
    (limit window_sec window : ℕ) (positive_window : 0 < window_sec) where
  in_time :
      (now now' : ℕ)
      → now / window_sec ≡ window
      → now' / window_sec ≡ window
      → now' < now + (window_sec + 5)
  in_time now now' h k = omega (
    arith,
    rw h at (div-mul-le_self now window_sec),
    rw k at (lt-div-mul-add {a = now'} {b = window_sec} positive_window),
  )

  HasCount-put :
      (n now : ℕ) (s : kv.State)
      → now / window_sec ≡ window
      → HasCount kv bucket id limit window_sec window (n + 1) (
          kept_state kv s
            (kv.put now (limit_key bucket id window) (show (n + 1)) (some (window_sec + 5)) s))
  HasCount-put n now s h now' k =
      let key = limit_key bucket id window in
      let (s', e) = up.put_up now key (show (n + 1)) (some (window_sec + 5)) s in
      (
        some (show (n + 1)),
        rw e (
            keeping.get-put now now' key key (show (n + 1)) (some (window_sec + 5)) s s' e
            ∙ rw (text_eq_refl key, lt→ltb now' (now + (window_sec + 5)) (in_time now now' h k))
                refl),
        count_of-show (n + 1),
      )

  admitted_step :
      (n t : ℕ) (s : kv.State)
      → HasCount kv bucket id limit window_sec window n s
      → IsInWindow kv bucket id limit window_sec window t
      → (ltb n limit ≡ true
          → ((rate_limit kv t bucket id limit window_sec s).0.ok ≡ true)
            × HasCount kv bucket id limit window_sec window
                (n + 1)
                (rate_limit kv t bucket id limit window_sec s).1)
        × (ltb n limit ≡ false
            → ((rate_limit kv t bucket id limit window_sec s).0.ok ≡ false)
              × HasCount kv bucket id limit window_sec window n
                  (rate_limit kv t bucket id limit window_sec s).1)
  unfolding rate_limit after_read
  admitted_step n t s holds h =
      let (o, e, c) = holds (t / 1000) h in
      (
        λ below. rw (h, e, c, reach_true n below) (refl, HasCount-put n (t / 1000) s h),
        λ above. rw (h, e, c, reach_false n above) (refl, holds),
      )
    where
      reach_true : (k : ℕ) → ltb k limit ≡ true → leb limit k ≡ false
      reach_true k q = ground arith

      reach_false : (k : ℕ) → ltb k limit ≡ false → leb limit k ≡ true
      reach_false k q = ground arith

  -- For requests of one window that come one after another, each of which reads the counter after
  -- the one before it has written it, on a store that is up and whose writes are seen by the next
  -- read: when `n` have been counted before, those let through are as many as the limit leaves.
  -- Requests that overlap, or that reach copies of the store that do not see each other's writes
  -- yet, are outside the statement.
  pub admitted_lem :
      (n : ℕ) (ts : List ℕ) (s : kv.State)
      → HasCount kv bucket id limit window_sec window n s
      → All (IsInWindow kv bucket id limit window_sec window) ts
      → admitted kv bucket id limit window_sec window ts s ≡ min (length ts) (limit - n)
  admitted_lem n [] s holds h = omega arith
  admitted_lem n (t ∷ ts) s holds (h, k) = elim (Bool-cases (ltb n limit)) [
    | inl below ↦
        let (good, next) = (admitted_step n t s holds h).0 below in
        rw good (
          omega (
            arith,
            ltb→lt n limit below,
            admitted_lem (n + 1) ts (rate_limit kv t bucket id limit window_sec s).1 next k,
          ))
    | inr above ↦
        let (bad, next) = (admitted_step n t s holds h).1 above in
        rw bad (
          ground (arith, admitted_lem n ts (rate_limit kv t bucket id limit window_sec s).1 next k))
  ]
