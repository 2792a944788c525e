-- ===== src/Kv.antt =====
-- The key-value store of the server, the interface KVNamespace of apps/web/src/lib/cfEnv.ts. The
-- store itself is a service: its state and its answers are a parameter, with the documented
-- behaviour as laws.
pub mod Dict
pub mod Flat
pub mod Frame
use pytone_digital.Prelude.{
  ℕ, zero, suc, ◌+◌, ◌-◌, ◌*◌, ◌/◌, ◌%◌, ◌^◌, ◌≤◌, ◌<◌, min, max, String, ◌≡◌, refl, sym, ap, ◌∙◌,
  subst, ◌≡⟨◌⟩◌, ◌∎, ◌≢◌, ◌↔◌, ◌⊎◌, inl, inr, Bool, true, false, not, ◌&&◌, ◌||◌, Option, none,
  some, List, [], ◌∷◌, ◌++◌, map, foldl, reverse, arith, ltb, leb, ◌==◌, if◌then◌else◌, ltb→lt,
  lt→ltb, le→ltb_false, leb→le, le→leb, ==_iff, Bool-cases, Option-cases, length, get_elem?, take,
  drop, keep, any, all, length-append, length-keep-le, All, All-append, All-append_left,
  All-append_right,
}
use pytone_digital.Text.{Text, text_eq, is_empty}
use pytone_digital.Effect.{M, Outcome, returned, answered, thrown}

pub record Page : Type 0 where
  pub names : List Text
  pub list_complete : Bool
  pub cursor : Option Text

-- What a call answers at a time in seconds; `none` when it throws. A missing or expired key is
-- read as `some none`. The numbers are the time to live and the limit of a page.
pub record Kv : Type 1 where
  pub State : Type 0
  pub get : ℕ → Text → State → Option (Option Text)
  pub put : ℕ → Text → Text → Option ℕ → State → Option State
  pub delete : ℕ → Text → State → Option State
  pub list : ℕ → Text → Option Text → ℕ → State → Option Page

-- What is left at `now` of a value that was put at `at`.
abbrev pub alive : ℕ → ℕ → Option ℕ → Text → Option Text
alive now at none v = some v
alive now at (some ttl) v = if ltb now (at + ttl) then some v else none

-- A call that succeeds changes its own key only; a value lives as long as it was asked to. The
-- service documents this for reads at the location of the write; at another location a write may
-- be seen up to a minute later.
pub record IsKeeping (kv : Kv) : Type 0 where
  pub get-put :
      (at now : ℕ) (k j v : Text) (ttl : Option ℕ) (s s' : kv.State)
      → kv.put at k v ttl s ≡ some s'
      → kv.get now j s' ≡ (if text_eq k j then some (alive now at ttl v) else kv.get now j s)
  pub get-delete :
      (at now : ℕ) (k j : Text) (s s' : kv.State)
      → kv.delete at k s ≡ some s'
      → kv.get now j s' ≡ (if text_eq k j then some none else kv.get now j s)
  -- As time passes a value stays or expires.
  pub get_steady :
      (now later : ℕ) (k : Text) (s : kv.State)
      → now ≤ later
      → (kv.get later k s ≡ some none) ⊎ (kv.get later k s ≡ kv.get now k s)

-- All calls succeed.
pub record IsUp (kv : Kv) : Type 0 where
  pub get_up : (now : ℕ) (k : Text) (s : kv.State) → (o : Option Text) × (kv.get now k s ≡ some o)
  pub put_up :
      (now : ℕ) (k v : Text) (ttl : Option ℕ) (s : kv.State)
      → (s' : kv.State) × (kv.put now k v ttl s ≡ some s')
  pub delete_up :
      (now : ℕ) (k : Text) (s : kv.State) → (s' : kv.State) × (kv.delete now k s ≡ some s')

-- How a value is written as text and read back: `JSON.stringify` and `JSON.parse`.
pub record Codec (A : Type 0) : Type 0 where
  pub encode : A → Text
  pub decode : Text → Option A

pub record IsCodec {A : Type 0} (c : Codec A) : Type 0 where
  pub decode-encode : (a : A) → c.decode (c.encode a) ≡ some a
  pub encode-not_empty : (a : A) → is_empty (c.encode a) ≡ false

-- `raw ? parse(raw) : null`, where a failing parse gives null too.
abbrev pub decode_value : {A : Type 0} → Codec A → Option Text → Option A
decode_value c none = none
decode_value c (some []) = none
decode_value c (some (x ∷ raw)) = c.decode (x ∷ raw)

decode_value-full :
    {A : Type 0} (c : Codec A) (t : Text)
    → is_empty t ≡ false
    → decode_value c (some t) ≡ c.decode t
decode_value-full c [] h = cc
decode_value-full c (x ∷ t) h = refl

pub decode_value-encode :
    {A : Type 0} (c : Codec A) → IsCodec c → (a : A) → decode_value c (some (c.encode a)) ≡ some a
decode_value-encode c codec a =
    decode_value-full c (c.encode a) (codec.encode-not_empty a) ∙ codec.decode-encode a

module _ (kv : Kv) {R : Type 0} where
  abbrev pub got : kv.State → Option (Option Text) → Outcome R (Option Text) × kv.State
  got s none = (thrown, s)
  got s (some o) = (returned o, s)

  abbrev pub stored : kv.State → Option kv.State → Outcome R (Unit {0}) × kv.State
  stored s none = (thrown, s)
  stored s (some s') = (returned tt, s')

  unfoldable pub kv_get : ℕ → Text → M kv.State R (Option Text)
  kv_get now k s = got s (kv.get now k s)

  unfoldable pub kv_put : ℕ → Text → Text → Option ℕ → M kv.State R (Unit {0})
  kv_put now k v ttl s = stored s (kv.put now k v ttl s)

  unfoldable pub kv_delete : ℕ → Text → M kv.State R (Unit {0})
  kv_delete now k s = stored s (kv.delete now k s)
