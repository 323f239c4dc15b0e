-- ===== src/Logging/Supported.antt =====
-- The supported fields: each has a value, and `unsupported` finds those that have none.
use mathlib.Core.Path.{subst}
use ticket_graph.Prelude.{
  ℕ, String, ◌≡◌, refl, ◌∙◌, ◌≢◌, inl, inr, Bool, true, false, not, ◌&&◌, List, [], ◌∷◌, arith, All,
  All-impl, Bool-cases, ◌==◌, nat_eq, string_eq, ==_iff, ==_refl, text_order, sort_by, insert_by,
}
use ticket_graph.Result.{Result, ok, err, is_ok, ◌>>=◌}
use ticket_graph.Sql.{select_where, exists_where}
use ticket_graph.Sql.Laws.{exists-select, All-of_select-nil}
use ticket_graph.Sql.Pick.{All-exists_self}
use ticket_graph.Sql.Rows.{exists-none}
use ticket_graph.Migrations.{to_set, listed, is_text}
use ticket_graph.Scripts.Sets.{listed-to_set, All-to_set}
use ticket_graph.Logging.{
  Library, Handler, LogRecord, supported_fields, value, values_of, format_record, emit,
  filter_record, unsupported,
}

listed-All {κ} :
    (P : String → Type κ) (f : String) (xs : List String) → All P xs → listed f xs ≡ true → P f
unfolding exists_where
listed-All P f [] h here = absurd cc
listed-All P f (x ∷ xs) h here = elim (Bool-cases (x == f)) [
  | inl same ↦ subst P ((==_iff x f).0 same) h.0
  | inr other ↦ listed-All P f xs h.1 (rw other at here)
]

is_ok-bind {ℓ κ} :
    {A : Type ℓ} {B : Type κ} (first : Result A) (next : A → Result B)
    → is_ok first ≡ true
    → ((a : A) → is_ok (next a) ≡ true)
    → is_ok (first >>= next) ≡ true
is_ok-bind (ok a) next e h = h a
is_ok-bind (err x) next e h = absurd (cc e)

value-supported :
    (format_time : ℕ → String) (r : LogRecord) (f : String)
    → is_ok r.message ≡ true
    → listed f supported_fields ≡ true
    → is_ok (value format_time r f) ≡ true
unfolding value
value-supported format_time r f says =
    listed-All (λ g. is_ok (value format_time r g) ≡ true) f supported_fields
      (
        refl,
        (
          refl,
          (
            refl,
            (
              is_ok-bind r.message _ says (λ text. refl),
              (refl, (refl, (refl, (refl, (refl, tt))))),
            ),
          ),
        ),
      )

-- Each field is one of the supported.
abbrev pub all_supported : List String → Bool
all_supported [] = true
all_supported (f ∷ fields) = listed f supported_fields && all_supported fields

values_of-supported :
    (format_time : ℕ → String) (r : LogRecord) (fields : List String)
    → is_ok r.message ≡ true
    → all_supported fields ≡ true
    → is_ok (values_of format_time r fields) ≡ true
unfolding values_of
values_of-supported format_time r [] says e = refl
values_of-supported format_time r (f ∷ fields) says e =
    is_ok-bind (value format_time r f) _ (value-supported format_time r f says (ground (arith, e)))
      (λ v.
        is_ok-bind (values_of format_time r fields) _
          (values_of-supported format_time r fields says (ground (arith, e))) (λ rest. refl))

pub emit-supported :
    (lib : Library) (current : String) (h : Handler) (r : LogRecord)
    → is_ok r.message ≡ true
    → all_supported h.fields ≡ true
    → is_ok (emit lib current h r) ≡ true
unfolding emit format_record
emit-supported lib current h r says e =
    is_ok-bind (values_of lib.format_time (filter_record current r) h.fields) _
      (values_of-supported lib.format_time (filter_record current r) h.fields says e) (λ vs. refl)

all_supported-All :
    (fields : List String)
    → all_supported fields ≡ true
    → All (λ f. listed f supported_fields ≡ true) fields
all_supported-All [] e = tt
all_supported-All (f ∷ fields) e = (ground (arith, e), all_supported-All fields (ground (arith, e)))

All-all_supported :
    (fields : List String)
    → All (λ f. listed f supported_fields ≡ true) fields
    → all_supported fields ≡ true
All-all_supported [] h = refl
All-all_supported (f ∷ fields) h = rw (h.0) (All-all_supported fields h.1)

abbrev is_unsupported : String → Bool
is_unsupported f = not (listed f supported_fields)

pub unsupported-none :
    (fields : List String) → all_supported fields ≡ true → unsupported fields ≡ []
unfolding unsupported sort_by
unsupported-none fields e =
    rw
      (exists-select is_unsupported (to_set fields) (
        exists-none is_unsupported (to_set fields) (
          All-to_set (λ f. is_unsupported f ≡ false) fields
            (All-impl (λ f. listed f supported_fields ≡ true) (λ f. is_unsupported f ≡ false) fields
              (λ f h. rw h refl) (all_supported-All fields e)))))
      refl

insert_by-nil : (x : String) (xs : List String) → insert_by text_order x xs ≢ []
unfolding insert_by
insert_by-nil x [] e = cc
insert_by-nil x (y ∷ ys) e = elim (Bool-cases (text_order.le x y)) [
  | inl first ↦ cc (rw first at e)
  | inr later ↦ cc (rw later at e)
]

sort_by-nil : (xs : List String) → sort_by text_order xs ≡ [] → xs ≡ []
unfolding sort_by
sort_by-nil [] e = refl
sort_by-nil (x ∷ xs) e = absurd (insert_by-nil x (sort_by text_order xs) e)

pub unsupported-all : (fields : List String) → unsupported fields ≡ [] → all_supported fields ≡ true
unfolding unsupported
unsupported-all fields e =
    let each : All (λ f. is_unsupported f ≡ false) (to_set fields) =
      All-of_select-nil is_unsupported (to_set fields)
        (sort_by-nil (select_where is_unsupported (to_set fields)) e) in
    All-all_supported fields (
      All-impl (λ f. listed f fields ≡ true) (λ f. listed f supported_fields ≡ true) fields
        (λ f here. unmarked f (
          listed-All (λ g. is_unsupported g ≡ false) f (to_set fields) each
            (listed-to_set f fields ∙ here)))
        (All-exists_self is_text fields (λ v. ==_refl v)))
  where
    unmarked : (f : String) → is_unsupported f ≡ false → listed f supported_fields ≡ true
    unmarked f h = ground (arith, h)
