-- ===== src/Json/Python.antt =====
-- What Python answers: the methods of `str`, `int`, `str`, equality of values and `urlparse`, as
-- parameters. `none` stands for an exception.
use csharp_llm_benchmark.Prelude.{ℕ, Option, none, some, [], ◌∷◌, Bool, true, false, not, any, ◌==◌}
use csharp_llm_benchmark.Prelude.Text.{Text}
use csharp_llm_benchmark.Prelude.Int.{ℤ, pos, int_eq}
use csharp_llm_benchmark.Json.Fields.{
  Json, null, boolean, integer, real, text, array, object, nil, cons, end, field, has, items,
}

-- How `int(value)` ends: with a number, a TypeError or ValueError, or an OverflowError.
pub data Converted : Type 0 where
  converted : ℤ → Converted
  refused : Converted
  overflowed : Converted

pub record Python : Type 0 where
  pub strip : Text → Text
  pub lower : Text → Text
  pub upper : Text → Text
  pub casefold : Text → Text
  pub is_digit : Text → Bool
  -- `int(s)` of a text
  pub digits : Text → Option ℕ
  pub int : Json → Converted
  pub str : Json → Text
  -- Whether a number with a fraction is zero
  pub is_zero : Text → Bool
  -- `a == b`
  pub same : Json → Json → Bool
  -- `part in whole`
  pub substring : Text → Text → Bool
  -- `urlparse(url).hostname`, inside `none` for no name
  pub hostname : Text → Option (Option Text)

abbrev pub empty_text : Text → Bool
empty_text [] = true
empty_text (c ∷ t) = false

module _ (py : Python) where
  -- `bool(value)`
  abbrev pub truthy : Json → Bool
  truthy null = false
  truthy (boolean b) = b
  truthy (integer z) = not (z == pos 0)
  truthy (real t) = not (py.is_zero t)
  truthy (text t) = not (empty_text t)
  truthy (array nil) = false
  truthy (array (cons v vs)) = true
  truthy (object end) = false
  truthy (object (field k v fs)) = true

  -- `value in container`; a container that is none is a TypeError, and so is a value that has no
  -- hash, in a dictionary.
  abbrev pub contains : Json → Json → Option Bool
  contains (array vs) value = some (any (py.same value) (items vs))
  contains (text whole) (text part) = some (py.substring part whole)
  contains (object fs) (text key) = some (has key fs)
  contains (object fs) (array vs) = none
  contains (object fs) (object gs) = none
  contains (object fs) value = some false
  contains _ value = none
