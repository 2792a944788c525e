-- ===== src/Session/Keys.antt =====
-- The keys of the store that sessions use, and how they differ from one another.
use pytone_digital.Prelude.{
  ◌≡◌, refl, sym, ap, ◌∙◌, ◌≢◌, inl, inr, Bool, true, false, none, [], ◌∷◌, ◌++◌, arith,
  Option-cases, drop,
}
use pytone_digital.Text.{Text, codes, text_eq, starts_with, cut_at}
use pytone_digital.Session.{session_key, index_key}

abbrev pub is_session_key : Text → Bool
is_session_key k = starts_with k (codes "session:")

abbrev pub is_index_key : Text → Bool
is_index_key k = starts_with k (codes "user_sessions:")

pub is_session_key-session_key : (id : Text) → is_session_key (session_key id) ≡ true
unfolding starts_with session_key
is_session_key-session_key id = refl

pub is_index_key-index_key : (u id : Text) → is_index_key (index_key u id) ≡ true
unfolding starts_with index_key
is_index_key-index_key u id = refl

pub is_index_key-session_key : (id : Text) → is_index_key (session_key id) ≡ false
unfolding starts_with session_key
is_index_key-session_key id = refl

pub is_session_key-index_key : (u id : Text) → is_session_key (index_key u id) ≡ false
unfolding starts_with index_key
is_session_key-index_key u id = refl

pub session_key-eq : (a b : Text) → text_eq (session_key a) (session_key b) ≡ text_eq a b
unfolding session_key
session_key-eq a b = refl

pub session_key-index_key : (a u b : Text) → text_eq (session_key a) (index_key u b) ≡ false
unfolding session_key index_key
session_key-index_key a u b = refl

pub index_key-session_key : (a u b : Text) → text_eq (index_key u b) (session_key a) ≡ false
unfolding session_key index_key
index_key-session_key a u b = refl

-- An id holds no colon.
abbrev pub IsId : Text → Type 0
IsId id = cut_at b':' id ≡ none

colon_inside : (v b : Text) → cut_at b':' (v ++ b':' ∷ b) ≢ none
unfolding cut_at
colon_inside [] b h = ground arith
colon_inside (c ∷ v) b h = elim (Option-cases (cut_at b':' (v ++ b':' ∷ b))) [
  | inl e ↦ colon_inside v b e
  | inr (p, e) ↦ ground arith
]

split_eq : (u v a b : Text) → IsId a → IsId b → u ++ b':' ∷ a ≡ v ++ b':' ∷ b → (u ≡ v) × (a ≡ b)
split_eq [] [] a b h k e = (refl, cc)
split_eq [] (c ∷ v) a b h k e =
    absurd (colon_inside v b (sym (ap (cut_at b':') (ap (drop 1) e)) ∙ h))
split_eq (c ∷ u) [] a b h k e = absurd (colon_inside u a (ap (cut_at b':') (ap (drop 1) e) ∙ k))
split_eq (c ∷ u) (d ∷ v) a b h k e =
    let (p, q) = split_eq u v a b h k (ap (drop 1) e) in (cons_eq p, q)
  where
    cons_eq : u ≡ v → c ∷ u ≡ d ∷ v
    cons_eq p = cc

-- With ids that hold no colon, an index key names one user and one id.
pub index_key-injective :
    (u v a b : Text) → IsId a → IsId b → index_key u a ≡ index_key v b → (u ≡ v) × (a ≡ b)
unfolding index_key
index_key-injective u v a b h k e = split_eq u v a b h k (ap (drop 14) e)
