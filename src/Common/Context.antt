-- ===== src/Common/Context.antt =====
-- What the program reads of a `context.Context`: its values, the span that is active in it, and
-- the metadata maps that it carries. A metadata map is a Go map, so a context holds its address.
use triple.Base.{ℕ, String, List, [], Option, none, some, Exit, returned, panicked}
use triple.Base.Dict.{Dict, lookup}
use triple.Common.Error.{Value, nil_value, text}

-- metadata.Md
abbrev pub Md : Type 0
Md = Dict (List String)

pub record Context : Type 0 where
  pub values : Dict Value
  pub active_span : Option ℕ
  pub outgoing : Option ℕ
  pub incoming : Option ℕ

-- `ctx.Value(key)`, which is nil for a key that is not there.
unfoldable pub value_of : Context → String → Value
value_of ctx key = elim (lookup key ctx.values) [ some v ↦ v | none ↦ nil_value ]

unfoldable pub background : Context
background = record { values = []; active_span = none; outgoing = none; incoming = none }

-- `.(string)`
unfoldable pub assert_text : Value → Exit String
assert_text (text s) = returned s
assert_text v = panicked
