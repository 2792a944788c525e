-- ===== src/Epg/Names.antt =====
-- The names of channels in epg.ts: `normaliseChannelName`, `stripQualityTags`, `iterChannels` and
-- `indexChannelNames`. `lower` is `toLowerCase()`, and `in_name` tells the code points that
-- `[\p{L}\p{N}]` matches.
use pytone_digital.Prelude.{
  ℕ, zero, suc, ◌+◌, ◌-◌, ◌*◌, Bool, true, false, ◌&&◌, ◌||◌, Option, none, some, List, [], ◌∷◌,
  ◌++◌, foldl, leb, if◌then◌else◌, length, any,
}
use pytone_digital.Epg.Elements.{Tag, or_skip, loop_elements}
use pytone_digital.Prelude.Chain.{◌>>=◌}
use pytone_digital.Text.{Text, codes, text_eq, is_empty, is_digit, trim, ascii_lower}
use pytone_digital.Text.Search.{Element, strip_prefix}
use pytone_digital.Dictionary.{lookup, insert}
use pytone_digital.Epg.Entities.{decode_entities, unwrap_cdata}
use pytone_digital.Epg.Attributes.{scan_attributes}

-- What a match of one alternative of `QUALITY_TAIL` leaves.
abbrev after_plain : Text → Text → List Text
after_plain s tag = or_skip (strip_prefix tag s) []

unfoldable pub digit_rests : Text → List Text
digit_rests [] = []
digit_rests (c ∷ s) = let more = s ∷ digit_rests s in if is_digit c then more else []

abbrev one_digit : Text → List Text
one_digit [] = []
one_digit (c ∷ s) = if is_digit c then s ∷ [] else []

abbrev after_ch : Option Text → List Text
after_ch none = []
after_ch (some s) = digit_rests s

abbrev after_alt : Option Text → List Text
after_alt none = []
after_alt (some s) = s ∷ one_digit s

abbrev pub quality_tags : List Text
quality_tags =
    codes "hd"
    ∷ codes "fhd"
    ∷ codes "uhd"
    ∷ codes "sd"
    ∷ codes "4k"
    ∷ codes "hevc"
    ∷ codes "h265"
    ∷ codes "h264"
    ∷ codes "hdr"
    ∷ codes "dolby"
    ∷ codes "atmos"
    ∷ codes "backup"
    ∷ codes "tr"
    ∷ codes "en"
    ∷ codes "us"
    ∷ codes "uk"
    ∷ codes "il"
    ∷ codes "isr"
    ∷ []

abbrev after_tags : Text → List Text → List Text
after_tags s [] = []
after_tags s (tag ∷ tags) = after_plain s tag ++ after_tags s tags

-- Every text that can be left when one alternative has matched at the start.
unfoldable pub tag_rests : Text → List Text
unfolding digit_rests strip_prefix
tag_rests s =
    after_ch (strip_prefix (codes "ch") s)
    ++ after_alt (strip_prefix (codes "alt") s)
    ++ after_tags s quality_tags

-- Whether the whole text is one alternative after another, at least one; on fuel for the length.
unfoldable pub is_tail_in : ℕ → Text → Bool
unfolding tag_rests
is_tail_in zero s = false
is_tail_in (suc fuel) s = any (λ rest. is_empty rest || is_tail_in fuel rest) (tag_rests s)

unfoldable pub is_tail : Text → Bool
unfolding is_tail_in
is_tail s = is_tail_in (length s) s

-- `name.replace(QUALITY_TAIL, '')`: from the first place on from which the tail runs to the end.
unfoldable pub drop_tail : Text → Text
unfolding is_tail
drop_tail [] = []
drop_tail (c ∷ s) = let rest = drop_tail s in if is_tail (c ∷ s) then [] else c ∷ rest

unfoldable pub strip_quality_tags : Text → Text
unfolding drop_tail
strip_quality_tags name =
    let stripped = drop_tail name in if leb 3 (length stripped) then stripped else name

-- The text of one child, if it is not blank; the outer `none` is thrown.
abbrev pub read_name : Element → Option (Option Text)
read_name e = do
  decoded ← decode_entities (unwrap_cdata e.inner)
  some (if is_empty (trim decoded) then none else some (trim decoded))

abbrev pub name_tag : Tag
name_tag = record {
  bounded = false;
  open_ = codes "<display-name";
  close = codes "</display-name>";
}

unfoldable pub read_names : Text → Option (List Text)
unfolding loop_elements
read_names inner = loop_elements name_tag read_name inner

-- The value of the first `id`, or the empty text.
unfoldable pub id_of : List (Text × Text) → Text
id_of [] = []
id_of ((k, v) ∷ rest) = if text_eq (ascii_lower k) (codes "id") then v else id_of rest

abbrev pub channel_tag : Tag
channel_tag = record { bounded = true; open_ = codes "<channel"; close = codes "</channel>" }

-- One channel, `some none` when it has no id.
unfoldable pub read_channel : Element → Option (Option (Text × List Text))
unfolding id_of read_names
read_channel e =
    let id = id_of (scan_attributes e.attributes) in
    if is_empty id then some none else do names ← read_names e.inner; some (some (id, names))

unfoldable pub iter_channels : Text → Option (List (Text × List Text))
unfolding loop_elements read_channel
iter_channels xml = loop_elements channel_tag read_channel xml

abbrev pub NameIndex : Type 0
NameIndex = List (Text × Text)

-- `if (!out.has(name)) out.set(name, id)`
unfoldable pub set_new : Text → Text → NameIndex → NameIndex
set_new name id out = elim (lookup name out) [ none ↦ insert name id out | some _ ↦ out ]

-- `out.has(stripped)` is asked after the first write.
unfoldable pub add_stripped : Text → Text → NameIndex → NameIndex
unfolding set_new
add_stripped norm id out =
    let stripped = strip_quality_tags norm in
    if text_eq stripped norm then out else set_new stripped id out

module _ (lower : Text → Text) (in_name : ℕ → Bool) where
  -- The code points of a text that pass, each with its one or two units; a surrogate that stands
  -- alone is a code point that is no letter.
  unfoldable pub keep_letters : Text → Text
  keep_letters [] = []
  keep_letters (c ∷ []) = if in_name c then c ∷ [] else []
  keep_letters (c ∷ d ∷ s) =
      let pair =
        (if in_name (0x10000 + (c - 0xd800) * 1024 + (d - 0xdc00)) then c ∷ d ∷ [] else [])
        ++ keep_letters s in
      let single = (if in_name c then c ∷ [] else []) ++ keep_letters (d ∷ s) in
      if leb 0xd800 c && leb c 0xdbff && leb 0xdc00 d && leb d 0xdfff then pair else single

  unfoldable pub normalise_channel_name : Text → Text
  unfolding keep_letters
  normalise_channel_name name = keep_letters (lower name)

  -- One display name of a channel.
  unfoldable pub add_name : Text → NameIndex → Text → NameIndex
  unfolding set_new add_stripped
  add_name id out name =
      let norm = normalise_channel_name name in
      if is_empty norm then out else add_stripped norm id (set_new norm id out)

  unfoldable pub add_channel : NameIndex → Text × List Text → NameIndex
  unfolding add_name
  add_channel out (id, names) = foldl (add_name id) out names

  unfoldable pub index_channel_names : Text → Option NameIndex
  unfolding add_channel
  index_channel_names xml = do channels ← iter_channels xml; some (foldl add_channel [] channels)
