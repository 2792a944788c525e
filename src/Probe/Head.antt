-- ===== src/Probe/Head.antt =====
-- `fetchHead`, `looksLikeManifest` and `pickMediaUri` of the probe route. What `safeFetch` gives is
-- an argument: `none` when it throws, for whatever reason.
use pytone_digital.Prelude.{
  ℕ, Bool, true, false, not, ◌&&◌, ◌||◌, Option, none, some, List, [], ◌∷◌, ◌++◌, ltb, leb, ◌==◌,
  if◌then◌else◌, length, get_elem?,
}
use pytone_digital.Text.{
  Text, codes, is_empty, trim, ascii_lower, starts_with, includes, split_lines,
}
use pytone_digital.Text.Search.{strip_prefix}

pub data FetchOutcome : Type 0 where
  ok : ℕ → Text → FetchOutcome
  refused : ℕ → FetchOutcome
  unknown : FetchOutcome

-- A body that is read piece by piece, each decoded on its own, until it ends or breaks off.
pub data Body : Type 0 where
  ended broken : Body
  piece : Text → Body → Body

pub record Served : Type 0 where
  pub status : ℕ
  pub body : Option Body

abbrev longer : ℕ → Text → Option Text → Option Text
longer cap text more = if ltb (length text) cap then more else some text

-- The loop of reads from `text` on; `none` when a read throws.
unfoldable pub read_body : ℕ → Text → Body → Option Text
read_body cap text ended = some text
read_body cap text broken = longer cap text none
read_body cap text (piece t b) = longer cap text (read_body cap (text ++ t) b)

abbrev read_outcome : ℕ → Option Text → FetchOutcome
read_outcome status none = unknown
read_outcome status (some text) = ok status text

abbrev body_outcome : ℕ → ℕ → Option Body → FetchOutcome
body_outcome cap status none = ok status []
body_outcome cap status (some b) = read_outcome status (read_body cap [] b)

-- What `fetchHead` answers, with the cap of the read.
unfoldable pub head_outcome : ℕ → Option Served → FetchOutcome
unfolding read_body
head_outcome cap none = unknown
head_outcome cap (some r) =
    if r.status == 416
    then ok 416 []
    else if not (leb 200 r.status && ltb r.status 300) && not (r.status == 206)
    then refused r.status
    else body_outcome cap r.status r.body

unfoldable pub looks_like_manifest : Text → Bool
looks_like_manifest text = includes text (codes "#EXTM3U") || includes text (codes "#EXT-X-")

-- The lines that are URIs; of a master playlist only the first.
unfoldable pub uris_of : Bool → List Text → List Text
uris_of is_master [] = []
uris_of is_master (raw ∷ lines) =
    let line = trim raw in
    let rest = uris_of is_master lines in
    if is_empty line || starts_with line (codes "#")
    then rest
    else if is_master
    then line ∷ []
    else line ∷ rest

-- `uris[uris.length - 2]` where there are two, else the first.
unfoldable pub last_but_one : List Text → Option Text
last_but_one [] = none
last_but_one (u ∷ []) = some u
last_but_one (u ∷ v ∷ []) = some u
last_but_one (u ∷ v ∷ w ∷ us) = last_but_one (v ∷ w ∷ us)

unfoldable pub chosen_uri : Bool → List Text → Option Text
unfolding last_but_one
chosen_uri is_master uris = if is_master then get_elem? uris 0 else last_but_one uris

abbrev resolved : (Text → Text → Option Text) → Text → Option Text → Option Text
resolved resolve base none = none
resolved resolve base (some uri) = if is_empty uri then none else resolve uri base

-- `resolve` is `new URL(uri, base).toString()`.
unfoldable pub pick_media_uri : (Text → Text → Option Text) → Text → Text → Option Text
unfolding chosen_uri uris_of
pick_media_uri resolve manifest base =
    let is_master = includes (ascii_lower manifest) (codes "#ext-x-stream-inf") in
    resolved resolve base (chosen_uri is_master (uris_of is_master (split_lines manifest)))

abbrev ends_path : Option Text → Bool
ends_path none = false
ends_path (some []) = true
ends_path (some (c ∷ _)) = c == b'?'

-- `/\.m3u8(\?|$)/i`
unfoldable pub is_playlist_url : Text → Bool
is_playlist_url [] = false
is_playlist_url (c ∷ s) =
    ends_path (strip_prefix (codes ".m3u8") (ascii_lower (c ∷ s))) || is_playlist_url s
