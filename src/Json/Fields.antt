-- ===== src/Json/Fields.antt =====
-- JSON values. A number with a fraction or an exponent is kept as its text.
use csharp_llm_benchmark.Prelude.{
  ◌≡◌, refl, Option, none, some, List, [], ◌∷◌, arith, Bool, true, false, ◌==◌, ◌||◌, Bool-cases,
  inl, inr, if◌then◌else◌,
}
use csharp_llm_benchmark.Prelude.Text.{Text, text_eq}
use csharp_llm_benchmark.Prelude.Int.{ℤ}

mutual
  pub data Json : Type 0 where
    null : Json
    boolean : Bool → Json
    integer : ℤ → Json
    real : Text → Json
    text : Text → Json
    array : Items → Json
    object : Fields → Json

  pub data Items : Type 0 where
    nil : Items
    cons : Json → Items → Items

  pub data Fields : Type 0 where
    end : Fields
    field : Text → Json → Fields → Fields

-- `data.get(key)`
abbrev pub get : Text → Fields → Option Json
get key end = none
get key (field k v rest) = let other = get key rest in if k == key then some v else other

-- `data[key] = value`: in place, or at the end.
abbrev pub put : Text → Json → Fields → Fields
put key value end = field key value end
put key value (field k v rest) =
    let other = put key value rest in if k == key then field k value rest else field k v other

-- `data.pop(key, None)`
abbrev pub drop : Text → Fields → Fields
drop key end = end
drop key (field k v rest) = let other = drop key rest in if k == key then other else field k v other

-- `key in data`
abbrev pub has : Text → Fields → Bool
has key end = false
has key (field k v rest) = k == key || has key rest

-- `data.get(key, default)`
abbrev pub get_or : Text → Json → Fields → Json
get_or key default fs = elim (get key fs) [ none ↦ default | some value ↦ value ]

abbrev pub items : Items → List Json
items nil = []
items (cons v rest) = v ∷ items rest

text_refl : (k : Text) → (k == k) ≡ true
text_refl k = (text_eq.beq_iff k k).1 refl

pub get-put : (key : Text) (value : Json) (fs : Fields) → get key (put key value fs) ≡ some value
get-put key value end = rw (text_refl key) refl
get-put key value (field k v rest) = ground (arith, get-put key value rest)

pub get-put_other :
    (key other : Text) (value : Json) (fs : Fields)
    → (key == other) ≡ false
    → get other (put key value fs) ≡ get other fs
get-put_other key other value end h = rw h refl
get-put_other key other value (field k v rest) h = elim (Bool-cases (k == key)) [
  | inl e ↦
      let same : k ≡ key = (text_eq.beq_iff k key).0 e in
      let h' : (k == other) ≡ false = rw same h in ground arith
  | inr e ↦ ground (arith, get-put_other key other value rest h)
]

pub get-drop : (key : Text) (fs : Fields) → get key (drop key fs) ≡ none
get-drop key end = refl
get-drop key (field k v rest) = elim (Bool-cases (k == key)) [
  | inl e ↦ rw (e) (get-drop key rest)
  | inr e ↦ rw (e, e) (get-drop key rest)
]

pub get_or-some :
    (key : Text) (default value : Json) (fs : Fields)
    → get key fs ≡ some value
    → get_or key default fs ≡ value
get_or-some key default value fs h = rw (h, get_or) refl

pub get_or-none :
    (key : Text) (default : Json) (fs : Fields)
    → get key fs ≡ none
    → get_or key default fs ≡ default
get_or-none key default fs h = rw (h, get_or) refl
