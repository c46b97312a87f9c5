-- ===== src/Jptrace/Warning.antt =====
-- internal/jptrace/warning.go: warnings that are kept in an attribute of the span.
use jaeger.Prelude.{String, List, [], ◌∷◌, ◌++◌, ◌≡◌, refl, ◌≢◌, Option, none, some, ap, string_eq}
use jaeger.Prelude.Map.{lookup, insert, lookup-insert_self, lookup-insert_ne}
use jaeger.Otlp.{Value, Values, Span, ValueText}
use jaeger.Otlp.Values.{nil, cons}

-- internal/jptrace/attributes.go
abbrev pub warnings_attribute : String
warnings_attribute = "@jaeger@warnings"

-- `w.AppendEmpty().SetStr(warning)` for each text.
unfoldable pub append_strs : Values → List String → Values
append_strs nil [] = nil
append_strs nil (w ∷ ws) = cons (Value.str w) (append_strs nil ws)
append_strs (cons v vs) ws = cons v (append_strs vs ws)

module _ (text : ValueText) where
  open text use {as_string, get_str, get_str-str}

  -- The slice that the warnings go to: `w` before the last loop of AddWarnings.
  unfoldable pub warnings_slice : Option Value → Values
  warnings_slice none = nil
  warnings_slice (some (Value.slice vs)) = vs
  warnings_slice (some v) = cons (Value.str (as_string v)) nil

  -- AddWarnings
  unfoldable pub add_warnings : Span → List String → Span
  unfolding warnings_slice append_strs
  add_warnings span ws = record span {
    attributes =
        insert warnings_attribute
          (Value.slice
            (append_strs (warnings_slice (lookup warnings_attribute span.attributes)) ws))
          span.attributes;
  }

  unfoldable pub strs : Values → List String
  strs nil = []
  strs (cons v vs) = get_str v ∷ strs vs

  unfoldable pub read_warnings : Option Value → Option (List String)
  unfolding strs
  read_warnings none = none
  read_warnings (some (Value.slice vs)) = some (strs vs)
  read_warnings (some v) = some (as_string v ∷ [])

  -- GetWarnings; `none` is Go's nil slice.
  unfoldable pub get_warnings : Span → Option (List String)
  unfolding read_warnings
  get_warnings span = read_warnings (lookup warnings_attribute span.attributes)

  -- A nil slice holds no warnings.
  abbrev pub warnings_or_nil : Option (List String) → List String
  warnings_or_nil none = []
  warnings_or_nil (some ws) = ws

  strs-append_strs : (vs : Values) (ws : List String) → strs (append_strs vs ws) ≡ strs vs ++ ws
  unfolding strs append_strs
  strs-append_strs nil [] = refl
  strs-append_strs nil (w ∷ ws) = rw (get_str-str w, strs-append_strs nil ws) refl
  strs-append_strs (cons v vs) ws = ap (◌∷◌ (get_str v)) (strs-append_strs vs ws)

  strs-warnings_slice :
      (o : Option Value) → strs (warnings_slice o) ≡ warnings_or_nil (read_warnings o)
  unfolding strs warnings_slice read_warnings
  strs-warnings_slice none = refl
  strs-warnings_slice (some (Value.slice vs)) = refl
  strs-warnings_slice (some (Value.str s)) = rw get_str-str refl
  strs-warnings_slice (some _) = rw get_str-str refl

  -- What was added is read back after what was there, whatever type the attribute had.
  pub get_warnings-add_warnings :
      (span : Span) (ws : List String)
      → get_warnings (add_warnings span ws) ≡ some (warnings_or_nil (get_warnings span) ++ ws)
  unfolding get_warnings add_warnings
  get_warnings-add_warnings span ws =
      rw lookup-insert_self (rw strs-append_strs (rw strs-warnings_slice refl))

  -- Every other attribute keeps its value.
  pub lookup-add_warnings :
      (span : Span) (ws : List String) (k : String)
      → warnings_attribute ≢ k
      → lookup k (add_warnings span ws).attributes ≡ lookup k span.attributes
  unfolding add_warnings
  lookup-add_warnings span ws k h = lookup-insert_ne warnings_attribute k _ span.attributes h
