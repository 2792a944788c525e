-- ===== src/Session/Cookie.antt =====
-- The cookie of a session: `readSessionCookie` and the two headers of serverSession.ts. The two
-- functions that escape text for a URL are arguments; `none` is a text that cannot be decoded.
use pytone_digital.Prelude.{
  ◌≡◌, refl, ◌∙◌, false, Option, none, some, List, [], ◌∷◌, ◌++◌, if◌then◌else◌, All, All-append,
}
use pytone_digital.Text.Cut.{
  cut_at-append, cut_at-append_none, split_at_unit-append, split_at_unit-whole,
}
use pytone_digital.Text.Trim.{IsUnspaced, trim-unspaced, trim-space}
use pytone_digital.Text.{Text, codes, text_eq, trim, cut_at, split_at_unit, is_space}

abbrev pub session_cookie : Text
session_cookie = codes "ns_session"

-- `part.trim().split('=')`: the key, and the rest joined again.
abbrev pub key_value : Option (Text × Text) → Text → Text × Text
key_value none part = (part, [])
key_value (some (k, v)) part = (k, v)

-- The loop over the parts; the result is `none` when decoding throws.
unfoldable pub find_cookie : (Text → Option Text) → List Text → Option Text
find_cookie decode [] = some []
find_cookie decode (part ∷ parts) =
    let p = trim part in
    let (k, v) = key_value (cut_at b'=' p) p in
    let rest = find_cookie decode parts in if text_eq k session_cookie then decode v else rest

-- `readSessionCookie` of the cookie header, which is empty when there is none.
unfoldable pub read_session_cookie : (Text → Option Text) → Text → Option Text
read_session_cookie decode header = find_cookie decode (split_at_unit b';' header)

unfoldable pub set_session_cookie_header : (Text → Text) → Text → Text
set_session_cookie_header encode id =
    session_cookie
    ++ (b'=' ∷ (encode id ++ codes "; Path=/; Max-Age=2592000; HttpOnly; Secure; SameSite=Strict"))

unfoldable pub clear_session_cookie_header : Text
clear_session_cookie_header =
    codes "ns_session=; Path=/; Max-Age=0; HttpOnly; Secure; SameSite=Strict"

-- Another cookie of the header: no separator and no space in it, and another name.
abbrev pub IsOther : Text → Type 0
IsOther p =
    IsUnspaced p
    × (cut_at b';' p ≡ none)
    × (text_eq (key_value (cut_at b'=' p) p).0 session_cookie ≡ false)

-- The header as the browser writes it: other cookies before the cookie.
abbrev pub header_with : List Text → Text → Text
header_with [] cookie = cookie
header_with (p ∷ ps) cookie = p ++ b';' ∷ b' ' ∷ header_with ps cookie

-- What the browser sends back of `setSessionCookieHeader`: the part before the attributes.
abbrev pub cookie_pair : (Text → Text) → Text → Text
cookie_pair encode id = session_cookie ++ (b'=' ∷ encode id)

find_cookie-other :
    (decode : Text → Option Text) (p : Text) (ps : List Text)
    → IsOther p
    → (find_cookie decode (p ∷ ps) ≡ find_cookie decode ps)
      × (find_cookie decode ((b' ' ∷ p) ∷ ps) ≡ find_cookie decode ps)
unfolding find_cookie
find_cookie-other decode p ps (unspaced, whole, other) =
    (rw (trim-unspaced p unspaced, other) refl, rw (trim-space p unspaced, other) refl)

-- An escaped text holds no separator and no space.
abbrev pub IsEscaped : Text → Type 0
IsEscaped v = IsUnspaced v × (cut_at b';' v ≡ none)

pair-IsUnspaced : (v : Text) → IsUnspaced v → IsUnspaced (session_cookie ++ (b'=' ∷ v))
pair-IsUnspaced v h =
    All-append (λ c. is_space c ≡ false) (session_cookie ++ (b'=' ∷ [])) v
      (refl, (refl, (refl, (refl, (refl, (refl, (refl, (refl, (refl, (refl, (refl, tt))))))))))) h

pair-whole : (v : Text) → cut_at b';' v ≡ none → cut_at b';' (session_cookie ++ (b'=' ∷ v)) ≡ none
unfolding cut_at
pair-whole v h = cut_at-append_none b';' (session_cookie ++ (b'=' ∷ [])) v refl h

space-whole : (p : Text) → cut_at b';' p ≡ none → cut_at b';' (b' ' ∷ p) ≡ none
unfolding cut_at
space-whole p h = cut_at-append_none b';' (b' ' ∷ []) p refl h

pair-cut : (v : Text) → cut_at b'=' (session_cookie ++ (b'=' ∷ v)) ≡ some (session_cookie, v)
unfolding cut_at
pair-cut v = cut_at-append b'=' session_cookie v refl

module _ (decode : Text → Option Text) (v : Text) (escaped : IsEscaped v) where
  abbrev pair : Text
  pair = session_cookie ++ (b'=' ∷ v)

  find_cookie-pair :
      (find_cookie decode (pair ∷ []) ≡ decode v)
      × (find_cookie decode ((b' ' ∷ pair) ∷ []) ≡ decode v)
  unfolding find_cookie
  find_cookie-pair = (
    rw (trim-unspaced pair (pair-IsUnspaced v escaped.0), pair-cut v) refl,
    rw (trim-space pair (pair-IsUnspaced v escaped.0), pair-cut v) refl,
  )

  find_cookie-spaced :
      (ps : List Text)
      → All IsOther ps
      → find_cookie decode (split_at_unit b';' (b' ' ∷ header_with ps pair)) ≡ decode v
  find_cookie-spaced [] h =
      rw (split_at_unit-whole b';' (b' ' ∷ pair) (space-whole pair (pair-whole v escaped.1)))
        (find_cookie-pair.1)
  find_cookie-spaced (p ∷ ps) (h, k) =
      rw (split_at_unit-append b';' (b' ' ∷ p) (b' ' ∷ header_with ps pair) (space-whole p h.1)) (
        (find_cookie-other decode p (split_at_unit b';' (b' ' ∷ header_with ps pair)) h).1
        ∙ find_cookie-spaced ps k)

  find_cookie-header :
      (ps : List Text)
      → All IsOther ps
      → find_cookie decode (split_at_unit b';' (header_with ps pair)) ≡ decode v
  find_cookie-header [] h =
      rw (split_at_unit-whole b';' pair (pair-whole v escaped.1)) (find_cookie-pair.0)
  find_cookie-header (p ∷ ps) (h, k) =
      rw (split_at_unit-append b';' p (b' ' ∷ header_with ps pair) h.1) (
        (find_cookie-other decode p (split_at_unit b';' (b' ' ∷ header_with ps pair)) h).0
        ∙ find_cookie-spaced ps k)

-- The browser keeps the part of the header before the attributes. The id is read back from the
-- header that the browser then sends, whatever other cookies stand before it.
pub read_session_cookie-set :
    (decode : Text → Option Text) (encode : Text → Text) (others : List Text) (id : Text)
    → All IsOther others
    → IsEscaped (encode id)
    → decode (encode id) ≡ some id
    → (cut_at b';' (set_session_cookie_header encode id)
        ≡ some (
          cookie_pair encode id,
          codes " Path=/; Max-Age=2592000; HttpOnly; Secure; SameSite=Strict",
        ))
      × (read_session_cookie decode (header_with others (cookie_pair encode id)) ≡ some id)
unfolding read_session_cookie set_session_cookie_header
read_session_cookie-set decode encode others id h escaped inverse = (
  cut_at-append b';' (cookie_pair encode id)
      (codes " Path=/; Max-Age=2592000; HttpOnly; Secure; SameSite=Strict")
      (pair-whole (encode id) escaped.1),
  find_cookie-header decode (encode id) escaped others h ∙ inverse,
)
