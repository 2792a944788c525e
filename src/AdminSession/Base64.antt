-- ===== src/AdminSession/Base64.antt =====
-- Base64 with the letters of URLs, in adminSession.ts: what is encoded is decoded again.
use pytone_digital.Prelude.{
  ℕ, zero, suc, ◌+◌, ◌-◌, ◌%◌, ◌<◌, ◌≡◌, refl, sym, ap, ◌∙◌, subst, Bool, true, false, ◌&&◌, ◌||◌,
  none, some, List, [], ◌∷◌, ◌++◌, map, reverse, arith, leb, ◌==◌, length, All, All-append,
}
use mathlib.Core.List.{reverse-cons, reverse-append, reverse-reverse}
use pytone_digital.Text.{Text, is_empty, cut_at}
use pytone_digital.AdminSession.{
  Crypto, url_unit, plain_unit, skip_pads, drop_pads, pads, b64u_enc, b64u_dec,
}

-- A letter of base64.
abbrev pub is_letter : ℕ → Bool
is_letter c =
    (leb b'A' c && leb c b'Z')
    || ((leb b'a' c && leb c b'z') || ((leb b'0' c && leb c b'9') || (c == b'+' || c == b'/')))

-- `btoa` gives letters and up to three pads, a multiple of four units in all, and no letters only
-- for no bytes; `atob` reads that back.
abbrev pub IsPadded : List ℕ → Text → Type 0
IsPadded bytes t =
    (body : Text) × (n : ℕ) × (t ≡ body ++ pads n)
    × (n < 4)
    × ((length body + n) % 4 ≡ 0)
    × All (λ c. is_letter c ≡ true) body
    × (is_empty body ≡ is_empty bytes)

pub record IsBase64 (crypto : Crypto) : Type 0 where
  pub btoa-IsPadded : (bytes : List ℕ) → IsPadded bytes (crypto.btoa bytes)
  pub atob-btoa : (bytes : List ℕ) → crypto.atob (crypto.btoa bytes) ≡ some bytes

plain-url : (c : ℕ) → is_letter c ≡ true → plain_unit (url_unit c) ≡ c
plain-url c h = ground arith

url-letter : (c : ℕ) → is_letter c ≡ true → (url_unit c == b'=') ≡ false
url-letter c h = ground arith

map_plain-url :
    (body : Text) → All (λ c. is_letter c ≡ true) body → map plain_unit (map url_unit body) ≡ body
map_plain-url [] h = refl
map_plain-url (c ∷ body) (p, h) = rw (plain-url c p, map_plain-url body h) refl

map-pads : (n : ℕ) → map url_unit (pads n) ≡ pads n
unfolding pads
map-pads zero = refl
map-pads (suc n) = ap (λ s. b'=' ∷ s) (map-pads n)

map_plain-pads : (n : ℕ) → map plain_unit (pads n) ≡ pads n
unfolding pads
map_plain-pads zero = refl
map_plain-pads (suc n) = ap (λ s. b'=' ∷ s) (map_plain-pads n)

map-length : (f : ℕ → ℕ) (s : Text) → length (map f s) ≡ length s
map-length f [] = refl
map-length f (c ∷ s) = ap suc (map-length f s)

map-both : (f : ℕ → ℕ) (s t : Text) → map f (s ++ t) ≡ map f s ++ map f t
map-both f [] t = refl
map-both f (c ∷ s) t = ap (λ r. f c ∷ r) (map-both f s t)

pads-snoc : (n : ℕ) → pads n ++ b'=' ∷ [] ≡ b'=' ∷ pads n
unfolding pads
pads-snoc zero = refl
pads-snoc (suc n) = ap (λ s. b'=' ∷ s) (pads-snoc n)

reverse-pads : (n : ℕ) → reverse (pads n) ≡ pads n
unfolding pads
reverse-pads zero = refl
reverse-pads (suc n) =
    reverse-cons b'=' (pads n) ∙ ap (λ s. s ++ b'=' ∷ []) (reverse-pads n) ∙ pads-snoc n

skip_pads-pads : (n : ℕ) (t : Text) → skip_pads (pads n ++ t) ≡ skip_pads t
unfolding pads skip_pads
skip_pads-pads zero t = refl
skip_pads-pads (suc n) t = skip_pads-pads n t

abbrev IsBare : Text → Type 0
IsBare s = All (λ c. (c == b'=') ≡ false) s

skip_pads-bare : (s : Text) → IsBare s → skip_pads s ≡ s
unfolding skip_pads
skip_pads-bare [] h = refl
skip_pads-bare (c ∷ s) (p, h) = rw p refl

reverse-IsBare : (s : Text) → IsBare s → IsBare (reverse s)
reverse-IsBare [] h = tt
reverse-IsBare (c ∷ s) (p, h) =
    subst IsBare (sym (reverse-cons c s))
      (All-append (λ c. (c == b'=') ≡ false) (reverse s) (c ∷ []) (reverse-IsBare s h) (p, tt))

drop_pads-bare : (s : Text) (n : ℕ) → IsBare s → drop_pads (s ++ pads n) ≡ s
unfolding drop_pads
drop_pads-bare s n h =
    ap (λ t. reverse (skip_pads t))
      (reverse-append s (pads n) ∙ ap (λ t. t ++ reverse s) (reverse-pads n))
    ∙ ap reverse (skip_pads-pads n (reverse s) ∙ skip_pads-bare (reverse s) (reverse-IsBare s h))
    ∙ reverse-reverse s

url-IsBare : (s : Text) → All (λ c. is_letter c ≡ true) s → IsBare (map url_unit s)
url-IsBare [] h = tt
url-IsBare (c ∷ s) (p, h) = (url-letter c p, url-IsBare s h)

url_no_dot : (c : ℕ) → is_letter c ≡ true → (url_unit c == b'.') ≡ false
url_no_dot c h = ground arith

url_undotted : (s : Text) → All (λ c. is_letter c ≡ true) s → cut_at b'.' (map url_unit s) ≡ none
unfolding cut_at
url_undotted [] h = refl
url_undotted (c ∷ s) (p, h) = rw (url_no_dot c p, url_undotted s h) refl

module _ (crypto : Crypto) (base : IsBase64 crypto) where
  enc_body :
      (bytes : List ℕ) (body : Text) (n : ℕ)
      → crypto.btoa bytes ≡ body ++ pads n
      → All (λ c. is_letter c ≡ true) body
      → b64u_enc crypto bytes ≡ map url_unit body
  unfolding b64u_enc
  enc_body bytes body n e letters =
      rw e refl
      ∙ ap drop_pads
          (map-both url_unit body (pads n) ∙ ap (λ t. map url_unit body ++ t) (map-pads n))
      ∙ drop_pads-bare (map url_unit body) n (url-IsBare body letters)

  -- What is encoded is decoded again.
  pub b64u_dec-enc : (bytes : List ℕ) → b64u_dec crypto (b64u_enc crypto bytes) ≡ some bytes
  unfolding b64u_dec
  b64u_dec-enc bytes =
      let (body, n, e, small, whole, letters, full) = base.btoa-IsPadded bytes in
      ap (b64u_dec crypto) (enc_body bytes body n e letters)
      ∙ ap (λ k. crypto.atob (map plain_unit (map url_unit body ++ pads k)))
          (ap (λ l. (4 - l % 4) % 4) (map-length url_unit body)
            ∙ same_pads (length body) n small whole)
      ∙ ap crypto.atob (
          map-both plain_unit (map url_unit body) (pads n)
          ∙ ap (λ t. t ++ map plain_unit (pads n)) (map_plain-url body letters)
          ∙ ap (λ t. body ++ t) (map_plain-pads n)
          ∙ sym e)
      ∙ base.atob-btoa bytes
    where
      same_pads : (l n : ℕ) → n < 4 → (l + n) % 4 ≡ 0 → (4 - l % 4) % 4 ≡ n
      same_pads l n h k = omega arith

  -- The text holds no dot, and it is empty for no bytes only.
  pub b64u_enc-undotted :
      (bytes : List ℕ)
      → (cut_at b'.' (b64u_enc crypto bytes) ≡ none)
        × (is_empty (b64u_enc crypto bytes) ≡ is_empty bytes)
  b64u_enc-undotted bytes =
      let (body, n, e, small, whole, letters, full) = base.btoa-IsPadded bytes in
      let is_body = enc_body bytes body n e letters in
      (
        ap (cut_at b'.') is_body ∙ url_undotted body letters,
        ap is_empty is_body ∙ map_empty body ∙ full,
      )
    where
      map_empty : (s : Text) → is_empty (map url_unit s) ≡ is_empty s
      map_empty [] = refl
      map_empty (c ∷ s) = refl
