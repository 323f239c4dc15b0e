-- ===== src/Logging/Accepts.antt =====
-- Which settings setup_logging accepts, and that a handler which it sets up writes the records.
use mathlib.Core.Path.{subst}
use ticket_graph.Prelude.{
  ℕ, String, ◌≡◌, refl, sym, ◌⊎◌, inl, inr, true, false, Option, none, some, List, [], ◌∷◌,
  Bool-cases, is_some, nat_eq, string_eq,
}
use ticket_graph.Result.{Error, is_ok, value_error, Result-cases}
use ticket_graph.Logging.{
  Library, Defaults, Root, Handler, LogRecord, emit, setup_logging, install, unsupported, text_or,
  list_or, to_format, Format, install_fields, install_format, ◌<>◌, Result, ok, err,
}
use ticket_graph.Logging.Supported.{
  all_supported, emit-supported, unsupported-none, unsupported-all,
}

-- What a level leaves of the root logger: the level that it stands for, or an exception.
abbrev pub Levelled : Result ℕ → Root → Option Error × Root → Type 0
Levelled (ok n) root result = (result.0 ≡ none) × (result.1.level ≡ n)
Levelled (err e) root result = (result.0 ≡ some e) × (result.1.level ≡ root.level)

-- One handler of this format for these fields, which writes the record, and the level.
abbrev pub Installed :
    Library
    → String
    → LogRecord
    → Format
    → List String
    → Result ℕ
    → Root
    → Option Error × Root
    → Type 0
Installed lib current r format fields checked root result =
    (result.1.handlers ≡ record { format = format; fields = fields } ∷ [])
    × (is_ok (emit lib current (record { format = format; fields = fields }) r) ≡ true)
    × Levelled checked root result

-- an exception, and nothing is changed
abbrev pub Refused : Root → Option Error × Root → Type 0
Refused root result = (is_some result.0 ≡ true) × (result.1 ≡ root)

-- What is made of the format of a name, if it is one, the fields, and the level.
abbrev pub SetUp :
    Library
    → String
    → LogRecord
    → Option Format
    → List String
    → Result ℕ
    → Root
    → Option Error × Root
    → Type 0
SetUp lib current r (some format) fields checked root result =
    ((all_supported fields ≡ true) × Installed lib current r format fields checked root result)
    ⊎ ((all_supported fields ≡ false) × Refused root result)
SetUp lib current r none fields checked root result = Refused root result

install-Levelled :
    (lib : Library) (defaults : Defaults) (h : Handler) (level : String) (root : Root)
    → ((install lib defaults h level root).1.handlers ≡ h ∷ [])
      × Levelled (lib.check_level level) root (install lib defaults h level root)
unfolding install
install-Levelled lib defaults h level root = elim (Result-cases (lib.check_level level)) [
  | inl (n, known) ↦ rw (known, install) (refl, (refl, refl))
  | inr (x, unknown) ↦ rw (unknown, install) (refl, (refl, refl))
]

install-Installed :
    (lib : Library) (current : String) (r : LogRecord) (defaults : Defaults) (format : Format)
    (fields : List String) (level : String) (root : Root)
    → is_ok r.message ≡ true
    → all_supported fields ≡ true
    → Installed lib current r format fields
        (lib.check_level level)
        root
        (install lib defaults (record { format = format; fields = fields }) level root)
install-Installed lib current r defaults format fields level root says e =
    let h : Handler = record { format = format; fields = fields } in
    let (handlers, levelled) = install-Levelled lib defaults h level root in
    (handlers, emit-supported lib current h r says e, levelled)

module _ (lib : Library) (current : String) (r : LogRecord) (defaults : Defaults) (format : Format)
    (fields : List String) (level : String) (root : Root) (says : is_ok r.message ≡ true) where
  accepted :
      unsupported fields ≡ []
      → install_fields lib defaults format fields level root
        ≡ install lib defaults (record { format = format; fields = fields }) level root
  unfolding install_fields install
  accepted none_left = rw (none_left, install_fields) refl

  refused :
      (f : String) (fs : List String)
      → unsupported fields ≡ f ∷ fs
      → install_fields lib defaults format fields level root
        ≡ (some (value_error ("Unsupported log field: " <> f)), root)
  unfolding install_fields
  refused f fs found = rw (found, install_fields) refl

  install_fields-SetUp :
      SetUp lib current r
        (some format)
        fields
        (lib.check_level level)
        root
        (install_fields lib defaults format fields level root)
  install_fields-SetUp = by_fields (unsupported fields) refl
    where
      by_fields :
          (left : List String)
          → unsupported fields ≡ left
          → SetUp lib current r
              (some format)
              fields
              (lib.check_level level)
              root
              (install_fields lib defaults format fields level root)
      by_fields [] none_left =
          let e = unsupported-all fields none_left in
          inl (
            e,
            subst (λ x. Installed lib current r format fields (lib.check_level level) root x)
                (sym (accepted none_left))
                (install-Installed lib current r defaults format fields level root says e),
          )
      by_fields (f ∷ fs) found = inr (
        elim (Bool-cases (all_supported fields)) [
          | inl e ↦ absurd (cc (unsupported-none fields e, found))
          | inr e ↦ e
        ],
        subst (Refused root) (sym (refused f fs found)) (refl, refl),
      )

-- setup_logging accepts exactly the formats json and text, in any case, with supported fields, and a
-- level that is one: it then raises nothing, sets the level, and leaves a single handler of this
-- format and these fields, which in any context writes every record whose `getMessage` raises
-- nothing. A level that is none raises after the handler was put there, and leaves the old level.
-- Otherwise it raises and changes nothing.
pub setup_logging-SetUp :
    (lib : Library) (current : String) (r : LogRecord) (defaults : Defaults)
    (log_format level : Option String) (fields : Option (List String)) (root : Root)
    → is_ok r.message ≡ true
    → SetUp lib current r
        (to_format (lib.lower (text_or log_format defaults.log_format)))
        (list_or fields defaults.log_fields)
        (lib.check_level (text_or level defaults.log_level))
        root
        (setup_logging lib defaults log_format level fields root)
unfolding setup_logging
setup_logging-SetUp lib current r defaults log_format level fields root says =
    chosen (to_format (lib.lower (text_or log_format defaults.log_format)))
  where
    chosen :
        (format : Option Format)
        → SetUp lib current r format
            (list_or fields defaults.log_fields)
            (lib.check_level (text_or level defaults.log_level))
            root
            (install_format lib defaults
              (lib.lower (text_or log_format defaults.log_format))
              format
              (list_or fields defaults.log_fields)
              (text_or level defaults.log_level)
              root)
    chosen none = (refl, refl)
    chosen (some format) =
        install_fields-SetUp lib current r defaults format (list_or fields defaults.log_fields)
          (text_or level defaults.log_level) root says
