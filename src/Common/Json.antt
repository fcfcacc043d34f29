-- ===== src/Common/Json.antt =====
-- core/json.ts: JSON values and their readers. Numbers are the non-negative integers that the
-- program reads (ids, counts, sizes and times).
use Prim.Native.Nat.{ℕ}
use Prim.Native.String.{String}
use mathlib.Core.Bool.{Bool, true, false}
use mathlib.Core.Option.{Option, none, some}
use mathlib.Core.List.{List, [], ◌∷◌}
use forum_relay.Common.Tests.{◌==◌, string_eq, if◌then◌else◌}

mutual
  pub data Json : Type 0 where
    null : Json
    bool : Bool → Json
    num : ℕ → Json
    str : String → Json
    arr : Items → Json
    obj : Fields → Json

  pub data Items : Type 0 where
    nil : Items
    cons : Json → Items → Items

  pub data Fields : Type 0 where
    end : Fields
    field : String → Json → Fields → Fields

-- `value[key]`; `none` is `undefined`.
unfoldable pub get : String → Fields → Option Json
get key end = none
get key (field k v rest) = if k == key then some v else get key rest

abbrev pub items : Items → List Json
items nil = []
items (cons v vs) = v ∷ items vs

-- `isJsonObject`
abbrev pub is_json_object : Json → Bool
is_json_object (obj fs) = true
is_json_object _ = false

abbrev string_of : Option Json → Option String
string_of (some (str s)) = some s
string_of _ = none

abbrev number_of : Option Json → Option ℕ
number_of (some (num n)) = some n
number_of _ = none

-- `jsonString`
unfoldable pub json_string : Json → String → Option String
unfolding get
json_string (obj fs) key = string_of (get key fs)
json_string _ key = none

-- `jsonNumber`
unfoldable pub json_number : Json → String → Option ℕ
unfolding get
json_number (obj fs) key = number_of (get key fs)
json_number _ key = none
