-- ===== src/Health/Evidence.antt =====
-- The store as a map from channels to records, and what the reports do to it.
use pytone_digital.Prelude.{
  ℕ, ◌≤◌, ◌≡◌, refl, ap, ◌∙◌, inl, inr, Bool, true, false, Option, none, some, List, [], ◌∷◌, arith,
  if◌then◌else◌, Bool-cases,
}
use pytone_digital.Text.{Text, is_empty, text_eq}
use pytone_digital.Text.Equality.{text_eq_iff}
use pytone_digital.Dictionary.{lookup, lookup-insert, IsUnique, insert-IsUnique}
use pytone_digital.Health.{
  HealthRecord, HealthSource, Store, Stored, absent, unreadable, entries, World, is_fresh,
  fresh_entries, store_of, is_current, read, write, to_stored,
}
use pytone_digital.Health.Reports.{
  ok_record, report_ok, record_or_new, fail_record, report_fail, get_record, write_record,
}

-- What is left of a record when the store is read at time `t`.
unfoldable pub keep_fresh : ℕ → Option HealthRecord → Option HealthRecord
keep_fresh t none = none
keep_fresh t (some r) = if is_fresh t r then some r else none

-- A record that an operation wrote, or else the one that was there.
abbrev pub or_kept : Option HealthRecord → Option HealthRecord → Option HealthRecord
or_kept none kept = kept
or_kept (some r) kept = some r

abbrev flat : Option (Option HealthRecord) → Option HealthRecord
flat none = none
flat (some o) = o

abbrev HasUniqueKeys : Stored → Type 0
HasUniqueKeys (entries es) = IsUnique es
HasUniqueKeys _ = Unit

-- A browser whose storage can be written, with a store of the current version.
pub record IsReady (w : World) : Type 0 where
  pub browser : w.in_browser ≡ true
  pub writable : w.full ≡ false
  pub current : is_current w.schema ≡ true
  pub unique : HasUniqueKeys w.health

lookup-fresh_entries-none :
    (t : ℕ) (j : Text) (es : List (Text × Option HealthRecord))
    → lookup j es ≡ none
    → lookup j (fresh_entries t es) ≡ none
unfolding lookup fresh_entries
lookup-fresh_entries-none t j [] h = refl
lookup-fresh_entries-none t j ((i, none) ∷ es) h = ground (arith, lookup-fresh_entries-none t j es)
lookup-fresh_entries-none t j ((i, some r) ∷ es) h =
    ground (arith, lookup-fresh_entries-none t j es)

lookup-fresh_entries :
    (t : ℕ) (j : Text) (es : List (Text × Option HealthRecord))
    → IsUnique es
    → lookup j (fresh_entries t es) ≡ keep_fresh t (flat (lookup j es))
unfolding lookup fresh_entries keep_fresh
lookup-fresh_entries t j [] u = refl
lookup-fresh_entries t j ((i, none) ∷ es) (n, u) =
    ground (arith, lookup-fresh_entries t j es u, lookup-fresh_entries-none t j es, text_eq_iff i j)
lookup-fresh_entries t j ((i, some r) ∷ es) (n, u) =
    ground (arith, lookup-fresh_entries t j es u, lookup-fresh_entries-none t j es, text_eq_iff i j)

lookup-to_stored : (j : Text) (s : Store) → flat (lookup j (to_stored s)) ≡ lookup j s
unfolding lookup
lookup-to_stored j [] = refl
lookup-to_stored j ((i, r) ∷ s) = ground (arith, lookup-to_stored j s)

to_stored-none : (j : Text) (s : Store) → lookup j s ≡ none → lookup j (to_stored s) ≡ none
unfolding lookup
to_stored-none j [] h = refl
to_stored-none j ((i, r) ∷ s) h = ground (arith, to_stored-none j s)

to_stored-IsUnique : (s : Store) → IsUnique s → IsUnique (to_stored s)
to_stored-IsUnique [] u = tt
to_stored-IsUnique ((i, r) ∷ s) (n, u) = (to_stored-none i s n, to_stored-IsUnique s u)

fresh_entries-IsUnique :
    (t : ℕ) (es : List (Text × Option HealthRecord)) → IsUnique es → IsUnique (fresh_entries t es)
unfolding fresh_entries
fresh_entries-IsUnique t [] u = tt
fresh_entries-IsUnique t ((i, none) ∷ es) (n, u) = fresh_entries-IsUnique t es u
fresh_entries-IsUnique t ((i, some r) ∷ es) (n, u) = elim (Bool-cases (is_fresh t r)) [
  | inl e ↦ rw e (lookup-fresh_entries-none t i es n, fresh_entries-IsUnique t es u)
  | inr e ↦ rw e (fresh_entries-IsUnique t es u)
]

store_of-IsUnique : (t : ℕ) (h : Stored) → HasUniqueKeys h → IsUnique (store_of t h)
unfolding store_of
store_of-IsUnique t absent u = tt
store_of-IsUnique t unreadable u = tt
store_of-IsUnique t (entries es) u = fresh_entries-IsUnique t es u

-- A record that is fresh at a later time was fresh before.
pub keep_fresh-keep_fresh :
    (s t : ℕ) (o : Option HealthRecord) → s ≤ t → keep_fresh t (keep_fresh s o) ≡ keep_fresh t o
unfolding keep_fresh is_fresh
keep_fresh-keep_fresh s t none h = refl
keep_fresh-keep_fresh s t (some r) h = ground arith

module _ (now : ℕ) (w : World) (ok : IsReady w) where
  pub read-ready : read now w ≡ (store_of now w.health, w)
  unfolding read
  read-ready = rw (ok.browser, ok.current)

  -- The store after a write, read at any time.
  get_record-write :
      (t : ℕ) (j : Text) (s : Store)
      → IsUnique s
      → get_record t j (write s w) ≡ keep_fresh t (lookup j s)
  unfolding get_record read write store_of
  get_record-write t j s u = rw (
    ok.browser,
    ok.writable,
    ok.current,
    lookup-fresh_entries t j (to_stored s) (to_stored-IsUnique s u),
    lookup-to_stored j s,
  )

  write-IsReady : (s : Store) → IsUnique s → IsReady (write s w)
  unfolding write
  write-IsReady s u =
      rw (ok.browser, ok.writable)
        (record {
          browser = refl;
          writable = refl;
          current = ok.current;
          unique = to_stored-IsUnique s u;
        })

-- A later reading sees what an earlier one saw, as far as it is fresh still.
pub store_of-later :
    (now t : ℕ) (j : Text) (h : Stored)
    → HasUniqueKeys h
    → now ≤ t
    → lookup j (store_of t h) ≡ keep_fresh t (lookup j (store_of now h))
unfolding store_of
store_of-later now t j absent u le = unfold lookup keep_fresh in refl
store_of-later now t j unreadable u le = unfold lookup keep_fresh in refl
store_of-later now t j (entries es) u le = rw (
  lookup-fresh_entries t j es u,
  lookup-fresh_entries now j es u,
  keep_fresh-keep_fresh now t (flat (lookup j es)) le,
)

pub get_record-ready :
    (t : ℕ) (j : Text) (w : World) → IsReady w → get_record t j w ≡ lookup j (store_of t w.health)
unfolding get_record
get_record-ready t j w ok = rw (read-ready t w ok)

get_record-write_record :
    (now t : ℕ) (id j : Text) (w : World) (o : Option HealthRecord)
    → IsReady w
    → now ≤ t
    → get_record t j (write_record id (store_of now w.health) o w)
      ≡ keep_fresh t (
          if text_eq id j
          then or_kept o (lookup id (store_of now w.health))
          else lookup j (store_of now w.health))
unfolding write_record
get_record-write_record now t id j w none ok le =
    get_record-ready t j w ok
    ∙ store_of-later now t j w.health ok.unique le
    ∙ ap (keep_fresh t) (same (text_eq_iff id j).0)
  where
    same :
        (text_eq id j ≡ true → id ≡ j)
        → lookup j (store_of now w.health) ≡ (
            if text_eq id j
            then lookup id (store_of now w.health)
            else lookup j (store_of now w.health))
    same f = ground arith
get_record-write_record now t id j w (some r) ok le =
    get_record-write now w ok t j _
      (insert-IsUnique id _ _ (store_of-IsUnique now w.health ok.unique))
    ∙ ap (keep_fresh t) (lookup-insert id j _ _)

-- A success, in terms of the record that it finds: what any later reading sees.
pub get_record-report_ok :
    (now t : ℕ) (id j : Text) (source : HealthSource) (w : World)
    → IsReady w
    → is_empty id ≡ false
    → now ≤ t
    → get_record t j (report_ok now id source w)
      ≡ keep_fresh t (
          if text_eq id j
          then or_kept (ok_record now source (get_record now id w)) (get_record now id w)
          else get_record now j w)
unfolding report_ok
get_record-report_ok now t id j source w ok e le =
    rw (read-ready now w ok, e, get_record-ready now id w ok, get_record-ready now j w ok)
      (get_record-write_record now t id j w _ ok le)

pub report_ok-IsReady :
    (now : ℕ) (id : Text) (source : HealthSource) (w : World)
    → IsReady w
    → IsReady (report_ok now id source w)
unfolding report_ok
report_ok-IsReady now id source w ok = elim (Bool-cases (is_empty id)) [
  | inl e ↦ rw e ok
  | inr e ↦
      rw (e, read-ready now w ok)
        (written (ok_record now source (lookup id (store_of now w.health))))
]
  where
    written : (o : Option HealthRecord) → IsReady (write_record id (store_of now w.health) o w)
    written none = unfold write_record in ok
    written (some r) =
        unfold write_record in
        write-IsReady now w ok _ (insert-IsUnique id _ _ (store_of-IsUnique now w.health ok.unique))

-- A failure likewise.
pub get_record-report_fail :
    (now t : ℕ) (id j : Text) (source : HealthSource) (permanent : Bool) (w : World)
    → IsReady w
    → is_empty id ≡ false
    → get_record t j (report_fail now id source permanent w).0
      ≡ keep_fresh t (
          if text_eq id j
          then some (fail_record now source permanent (record_or_new (get_record now id w)))
          else get_record now j w)
unfolding report_fail get_record
get_record-report_fail now t id j source permanent w ok e =
    rw (read-ready now w ok, e)
      (get_record-write now w ok t j _
          (insert-IsUnique id _ _ (store_of-IsUnique now w.health ok.unique))
        ∙ ap (keep_fresh t) (lookup-insert id j _ _))

pub report_fail-IsReady :
    (now : ℕ) (id : Text) (source : HealthSource) (permanent : Bool) (w : World)
    → IsReady w
    → IsReady (report_fail now id source permanent w).0
unfolding report_fail
report_fail-IsReady now id source permanent w ok = elim (Bool-cases (is_empty id)) [
  | inl e ↦ rw e ok
  | inr e ↦
      rw (e, read-ready now w ok)
        (write-IsReady now w ok _
          (insert-IsUnique id _ _ (store_of-IsUnique now w.health ok.unique)))
]
