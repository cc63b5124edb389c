-- ===== src/Json.antt =====
-- The values that Python's `json.loads` returns, and what the scripts do with them: `isinstance`,
-- `dict.get`, `str`.
use Prim.Native.String
use chromium_compile.Prelude.{
  ℕ, zero, suc, ◌+◌, ◌/◌, ◌%◌, String, Bool, true, false, Option, none, some, List, [], ◌∷◌, ◌≡◌,
  refl, ◌==◌, ltb, eqb, if◌then◌else◌,
}

-- `neg n` is the integer -(n + 1); `real` carries the text of a number with a fraction or exponent.
mutual
  pub data Json : Type 0 where
    null : Json
    bool : Bool → Json
    int neg : ℕ → Json
    real str : String → Json
    arr : Items → Json
    obj : Fields → Json

  pub data Items : Type 0 where
    end : Items
    item : Json → Items → Items

  pub data Fields : Type 0 where
    done : Fields
    field : String → Json → Fields → Fields

abbrev pub to_list : Items → List Json
to_list end = []
to_list (item j js) = j ∷ to_list js

abbrev pub of_list : List Json → Items
of_list [] = end
of_list (j ∷ js) = item j (of_list js)

abbrev later : Option Json → Option Json → Option Json
later (some w) v = some w
later none v = v

-- `d.get(key)`; of two fields with one name `json.loads` keeps the later.
unfoldable pub get : String → Fields → Option Json
get key done = none
get key (field k v fs) = later (get key fs) (if k == key then some v else none)

-- `isinstance(value, dict)`, `isinstance(value, list)`
abbrev pub as_object : Json → Option Fields
as_object (obj fs) = some fs
as_object _ = none

abbrev pub as_list : Json → Option (List Json)
as_list (arr js) = some (to_list js)
as_list _ = none

-- `[item for item in items if isinstance(item, dict)]`
unfoldable pub objects : List Json → List Fields
objects [] = []
objects (obj fs ∷ js) = fs ∷ objects js
objects (_ ∷ js) = objects js

-- Python's truth of a value that may be missing
unfoldable pub truthy : Option Json → Bool
truthy none = false
truthy (some null) = false
truthy (some (bool b)) = b
truthy (some (int zero)) = false
truthy (some (str s)) = if s == "" then false else true
truthy (some (arr end)) = false
truthy (some (obj done)) = false
truthy (some _) = true

-- An f-string, or a sum of texts
unfoldable pub concat : List String → String
concat [] = ""
concat (s ∷ ss) = String.◌++◌ s (concat ss)

digit_text : ℕ → String
digit_text d =
    if eqb d 0
    then "0"
    else if eqb d 1
    then "1"
    else if eqb d 2
    then "2"
    else if eqb d 3
    then "3"
    else if eqb d 4
    then "4"
    else if eqb d 5
    then "5"
    else if eqb d 6
    then "6"
    else if eqb d 7
    then "7"
    else if eqb d 8
    then "8"
    else "9"

show_from : ℕ → ℕ → String → String
show_from zero n text = text
show_from (suc fuel) n text =
    let text' = String.◌++◌ (digit_text (n % 10)) text in
    let rest = show_from fuel (n / 10) text' in if ltb n 10 then text' else rest

-- `str(n)` of a number; n + 1 rounds are more than its digits.
unfoldable pub show : ℕ → String
unfolding show_from digit_text
show n = show_from (suc n) n ""

-- `str(value)`, with the texts of floats and containers given by `repr`
unfoldable pub py_str : (Json → String) → Json → String
unfolding show
py_str repr null = "None"
py_str repr (bool true) = "True"
py_str repr (bool false) = "False"
py_str repr (int n) = show n
py_str repr (neg n) = String.◌++◌ "-" (show (n + 1))
py_str repr (str s) = s
py_str repr j = repr j

-- `str(d.get(key, ""))`
unfoldable pub get_str : (Json → String) → String → Fields → String
unfolding get py_str
get_str repr key fs = elim (get key fs) [ none ↦ "" | some j ↦ py_str repr j ]

show_test : concat (show 8688377641 ∷ ":" ∷ show 0 ∷ []) ≡ "8688377641:0"
unfolding concat show
show_test = refl
