-- ===== src/M3u/Numbers.antt =====
-- The order of the channels of a playlist, and when it is that of their numbers.
use pytone_digital.Prelude.{◌≡◌, Bool, true, false, ◌||◌, Option, none, some, List, [], ◌∷◌}
use pytone_digital.Text.{Text}
use pytone_digital.Runtime.{Js}
use pytone_digital.M3u.{Channel, Entry}
use pytone_digital.M3u.ExtInf.{parse_ext_inf}
use pytone_digital.M3u.Order.{IsSorted}
use pytone_digital.M3u.Playlist.{Line, blank, header, ext_inf, vlc_option, directive, url}

-- Whether an entry that becomes a channel has a number: an `#EXTINF` line with one, before whose URL
-- line no other `#EXTINF` line stands. The first argument says that such a line is waiting.
abbrev gives {ℓ} : {A : Type ℓ} → Option A → Bool
gives none = false
gives (some _) = true

module _ (js : Js) where
  pub gave_number : Bool → List Line → Bool
  gave_number waiting [] = false
  gave_number waiting (ext_inf l ∷ ls) = gave_number (gives (parse_ext_inf js l).tvg_chno) ls
  gave_number waiting (url u ∷ ls) = waiting || gave_number false ls
  gave_number waiting (blank ∷ ls) = gave_number waiting ls
  gave_number waiting (header h ∷ ls) = gave_number waiting ls
  gave_number waiting (vlc_option o ∷ ls) = gave_number waiting ls
  gave_number waiting (directive ∷ ls) = gave_number waiting ls

  waits_numbered : Option (Entry js.Num) → Bool
  waits_numbered none = false
  waits_numbered (some e) = gives e.tvg_chno

  -- How the channels of a playlist are ordered, where `file` are its channels in the order of the
  -- file.
  abbrev pub IsOrderedAs : Bool → List (Channel js.Num) → List (Channel js.Num) → Type 0
  IsOrderedAs true cs file = IsSorted js cs
  IsOrderedAs false cs file = cs ≡ file
