-- ===== src/Digest/Client.antt =====
-- The digest gives a channel the programmes that the client would find for it.
use pytone_digital.Prelude.{
  ℕ, ◌≡◌, refl, sym, ◌≢◌, inl, inr, Bool, Option, none, some, List, [], ◌∷◌, if◌then◌else◌,
  Bool-cases,
}
use pytone_digital.Text.{Text, text_eq, is_empty}
use pytone_digital.Text.Equality.{text_eq_iff}
use pytone_digital.Dictionary.{lookup}
use pytone_digital.M3u.{Channel}
use pytone_digital.Epg.{Programme}
use pytone_digital.Epg.Names.{normalise_channel_name, strip_quality_tags}
use pytone_digital.Epg.Now.{EpgIndex, through, or_list, by_name_programmes, programmes_for}
use pytone_digital.Digest.{or_stripped, matched_programmes}

module _ (lower : Text → Text) (in_name : ℕ → Bool) (idx : EpgIndex) where
  or_list-nil : (ps : List Programme) → or_list ps [] ≡ ps
  or_list-nil [] = refl
  or_list-nil (p ∷ ps) = refl

  or_list-found : (ps later : List Programme) → ps ≢ [] → or_list ps later ≡ ps
  or_list-found [] later h = absurd (h refl)
  or_list-found (p ∷ ps) later h = refl

  by_name-client :
      (norm : Text) (o : Option Text)
      → lookup norm idx.by_name ≡ o
      → ((cid : Text) → o ≡ some cid → through idx.by_id o ≢ [])
      → through idx.by_id (or_stripped o (lookup (strip_quality_tags norm) idx.by_name))
        ≡ or_list (through idx.by_id o) (
            if text_eq (strip_quality_tags norm) norm
            then []
            else by_name_programmes idx (strip_quality_tags norm))
  unfolding by_name_programmes
  by_name-client norm none q h = elim (Bool-cases (text_eq (strip_quality_tags norm) norm)) [
    | inl e ↦ rw (e, (text_eq_iff (strip_quality_tags norm) norm).0 e, q) refl
    | inr e ↦ rw e refl
  ]
  by_name-client norm (some cid) q h =
      sym (or_list-found (through idx.by_id (some cid)) _ (h cid refl))

  -- The digest gives a channel the programmes that the client finds for it, by its ids or by its
  -- name, provided that the full name of the channel does not stand for a channel id that has no
  -- programmes.
  pub matched_programmes-client :
      {N : Type 0} (ch : Channel N)
      → ((cid : Text)
          → lookup (normalise_channel_name lower in_name ch.name) idx.by_name ≡ some cid
          → by_name_programmes idx (normalise_channel_name lower in_name ch.name) ≢ [])
      → matched_programmes lower in_name ch idx.by_id idx.by_name
        ≡ programmes_for lower in_name idx ch
  unfolding matched_programmes programmes_for by_name_programmes
  matched_programmes-client ch h =
      elim (Bool-cases (is_empty (normalise_channel_name lower in_name ch.name))) [
        | inl e ↦ rw e refl
        | inr e ↦
            rw
              (
                e,
                by_name-client (normalise_channel_name lower in_name ch.name)
                    (lookup (normalise_channel_name lower in_name ch.name) idx.by_name) refl h,
              )
              refl
      ]
