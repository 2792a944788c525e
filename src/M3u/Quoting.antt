-- ===== src/M3u/Quoting.antt =====
-- An `#EXTINF` line as providers write it, and what `parseExtInf` reads of it.
use mathlib.Core.List.{append_assoc, append-nil}
use pytone_digital.Prelude.{
  ℕ, ◌≡◌, refl, ◌≢◌, true, false, some, [], ◌∷◌, ◌++◌, arith, All, List, foldl, ◌∙◌, Bool-cases,
  ◌==◌, ap, inl, inr,
}
use pytone_digital.Text.{Text, trim, codes}
use pytone_digital.M3u.ExtInf.{cut_unquoted, split_ext_inf, parse_ext_inf, set_attribute, named}
use pytone_digital.M3u.Attributes.{
  is_key_unit, scan_from, scan_attributes, in_key, in_value, key_step,
}
use pytone_digital.Runtime.{Js}

abbrev pub IsQuoteFree : Text → Type 0
IsQuoteFree s = All (λ c. c ≢ b'"') s

-- A text whose quotes are closed and whose commas all stand inside quotes.
pub data IsHead : Text → Type 0 where
  done : IsHead []
  plain : (c : ℕ) {s : Text} → c ≢ b'"' → c ≢ b',' → IsHead s → IsHead (c ∷ s)
  quoted :
      (body : Text) {s t : Text}
      → IsQuoteFree body
      → IsHead s
      → t ≡ b'"' ∷ (body ++ b'"' ∷ s)
      → IsHead t

cut_unquoted-body :
    (body s : Text) {l r : Text}
    → IsQuoteFree body
    → cut_unquoted false s ≡ some (l, r)
    → cut_unquoted true (body ++ b'"' ∷ s) ≡ some (body ++ b'"' ∷ l, r)
unfolding cut_unquoted
cut_unquoted-body [] s h e = ground arith
cut_unquoted-body (c ∷ body) s (n, h) e = ground (arith, cut_unquoted-body body s h e)

cut_unquoted-head :
    {head : Text} (name : Text)
    → IsHead head
    → cut_unquoted false (head ++ b',' ∷ name) ≡ some (head, name)
unfolding cut_unquoted
cut_unquoted-head name done = refl
cut_unquoted-head name (plain c n m h) = ground (arith, cut_unquoted-head name h)
cut_unquoted-head name (quoted body {s} q h e) = rw (
  e,
  append_assoc body (b'"' ∷ s) (b',' ∷ name),
  cut_unquoted-body body (s ++ b',' ∷ name) q (cut_unquoted-head name h),
)

-- The separator is the first comma outside quotes, whatever commas the quoted values hold.
pub split_ext_inf-head :
    (head name : Text) → IsHead head → split_ext_inf (head ++ b',' ∷ name) ≡ (head, trim name)
unfolding split_ext_inf
split_ext_inf-head head name h = rw (cut_unquoted-head name h)

-- A key and a value that can be written attrs an attribute.
pub record IsAttribute (a : Text × Text) : Type 0 where
  pub key_units : All (λ c. is_key_unit c ≡ true) a.0
  pub key_ne_nil : a.0 ≢ []
  pub value_units : IsQuoteFree a.1

-- ` key="value"` for each attribute.
pub render_attributes : List (Text × Text) → Text
render_attributes [] = []
render_attributes ((k, v) ∷ attrs) =
    b' ' ∷ (k ++ b'=' ∷ b'"' ∷ (v ++ b'"' ∷ render_attributes attrs))

pub render_ext_inf : List (Text × Text) → Text → Text
render_ext_inf attrs name = codes "#EXTINF:-1" ++ (render_attributes attrs ++ b',' ∷ name)

key_unit-plain : (c : ℕ) → is_key_unit c ≡ true → (c ≢ b'"') × (c ≢ b',')
key_unit-plain c h = (λ e. ground arith, λ e. ground arith)

IsHead-key : (k : Text) {s : Text} → All (λ c. is_key_unit c ≡ true) k → IsHead s → IsHead (k ++ s)
IsHead-key [] h t = t
IsHead-key (c ∷ k) (p, h) t =
    plain c (key_unit-plain c p).0 (key_unit-plain c p).1 (IsHead-key k h t)

render_attributes-IsHead :
    (attrs : List (Text × Text)) → All IsAttribute attrs → IsHead (render_attributes attrs)
unfolding render_attributes
render_attributes-IsHead [] h = done
render_attributes-IsHead ((k, v) ∷ attrs) (a, h) = plain b' ' (omega arith) (omega arith) (
    IsHead-key k a.key_units (
      plain b'=' (omega arith) (omega arith)
        (quoted v a.value_units (render_attributes-IsHead attrs h) refl)))

key_step-key : (acc : Text) (c : ℕ) → is_key_unit c ≡ true → key_step acc c ≡ in_key (acc ++ c ∷ [])
unfolding key_step
key_step-key [] c p = ground arith
key_step-key (a ∷ acc) c p = ground arith

scan_from-key :
    (acc k s : Text)
    → All (λ c. is_key_unit c ≡ true) k
    → scan_from (in_key acc) (k ++ s) ≡ scan_from (in_key (acc ++ k)) s
unfolding scan_from
scan_from-key acc [] s h = rw append-nil
scan_from-key acc (c ∷ k) s (p, h) =
    ap (λ m. scan_from m (k ++ s)) (key_step-key acc c p)
    ∙ scan_from-key (acc ++ c ∷ []) k s h
    ∙ simp append_assoc

scan_from-value :
    (key acc v s : Text)
    → IsQuoteFree v
    → scan_from (in_value key acc) (v ++ b'"' ∷ s) ≡ (key, acc ++ v) ∷ scan_from (in_key []) s
unfolding scan_from
scan_from-value key acc [] s h = simp append-nil
scan_from-value key acc (c ∷ v) s (p, h) = elim (Bool-cases (c == b'"')) [
  | inl e ↦ absurd (p (ground arith))
  | inr e ↦ rw e (scan_from-value key (acc ++ c ∷ []) v s h ∙ simp append_assoc)
]

scan_from-eq :
    (key s : Text)
    → key ≢ []
    → scan_from (in_key key) (b'=' ∷ b'"' ∷ s) ≡ scan_from (in_value key []) s
unfolding scan_from
scan_from-eq [] s h = absurd (h refl)
scan_from-eq (k ∷ key) s h = refl

scan_from-space : (acc s : Text) → scan_from (in_key acc) (b' ' ∷ s) ≡ scan_from (in_key []) s
unfolding scan_from
scan_from-space [] s = refl
scan_from-space (a ∷ acc) s = refl

scan_from-render :
    (acc : Text) (attrs : List (Text × Text))
    → All IsAttribute attrs
    → scan_from (in_key acc) (render_attributes attrs) ≡ attrs
unfolding render_attributes
scan_from-render acc [] h = unfold scan_from in refl
scan_from-render acc ((k, v) ∷ attrs) (a, h) = rw (
  scan_from-space,
  scan_from-key [] k _ a.key_units,
  scan_from-eq k _ a.key_ne_nil,
  scan_from-value k [] v (render_attributes attrs) a.value_units,
  scan_from-render [] attrs h,
)

prefix-IsHead : {s : Text} → IsHead s → IsHead (codes "#EXTINF:-1" ++ s)
prefix-IsHead h = plain _ (omega arith) (omega arith) (
    plain _ (omega arith) (omega arith) (
      plain _ (omega arith) (omega arith) (
        plain _ (omega arith) (omega arith) (
          plain _ (omega arith) (omega arith) (
            plain _ (omega arith) (omega arith) (
              plain _ (omega arith) (omega arith) (
                plain _ (omega arith) (omega arith) (
                  plain _ (omega arith) (omega arith)
                    (plain _ (omega arith) (omega arith) h)))))))))

scan_attributes-render :
    (attrs : List (Text × Text))
    → All IsAttribute attrs
    → scan_attributes (codes "#EXTINF:-1" ++ render_attributes attrs) ≡ attrs
unfolding scan_attributes
scan_attributes-render attrs h = scan_from-render (codes "-1") attrs h

-- An `#EXTINF` line with any attributes, whose values hold any commas, is read back: the name is
-- what stands behind the separator, and the switch sees every attribute, in order.
pub parse_ext_inf-render :
    (js : Js) (attrs : List (Text × Text)) (name : Text)
    → All IsAttribute attrs
    → parse_ext_inf js (render_ext_inf attrs name)
      ≡ foldl (set_attribute js) (named js (trim name)) attrs
unfolding parse_ext_inf render_ext_inf
parse_ext_inf-render js attrs name h =
    let whole =
      split_ext_inf-head (codes "#EXTINF:-1" ++ render_attributes attrs) name
        (prefix-IsHead (render_attributes-IsHead attrs h)) in
    rw (whole, scan_attributes-render attrs h)
