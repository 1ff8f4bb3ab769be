-- ===== src/Go/Json.antt =====
-- encoding/json as the program uses it: a struct of texts, integers and maps goes to an object, and
-- an object is read into a struct. The text form of the object in between is left out.
pub mod Laws
use Prim.Native.Char.{code}
use provider_temporal.Base.{
  ℕ, ◌+◌, ◌≡◌, refl, String, Bool, true, false, ◌&&◌, Option, none, some, List, [], ◌∷◌,
  if◌then◌else◌, leb, nat_eq, ◌==◌,
}
use provider_temporal.Base.Int.{ℤ, pos, negsuc}

mutual
  pub data Json : Type 0 where
    null : Json
    bool : Bool → Json
    number : ℤ → Json
    text : String → Json
    object : Members → Json

  pub data Members : Type 0 where
    end : Members
    member : String → Json → Members → Members

-- A Go map[string]string, by its entries in ascending order of keys; `none` is the nil map.
abbrev pub StringMap : Type 0
StringMap = Option (List (String × String))

-- Writing. `put` drops the field that `omitempty` omits.
abbrev pub put : String → Option Json → Members → Members
put k none ms = ms
put k (some v) ms = member k v ms

abbrev pub text_omitempty : String → Option Json
text_omitempty s = if s == "" then none else some (text s)

abbrev pub is_zero : ℤ → Bool
is_zero (pos n) = nat_eq n 0
is_zero (negsuc n) = false

abbrev pub int_omitempty : ℤ → Option Json
int_omitempty z = if is_zero z then none else some (number z)

abbrev pub text_pointer_omitempty : Option String → Option Json
text_pointer_omitempty none = none
text_pointer_omitempty (some s) = some (text s)

unfoldable pub entries : List (String × String) → Members
entries [] = end
entries ((k, v) ∷ m) = member k (text v) (entries m)

abbrev pub map_json : StringMap → Json
map_json none = null
map_json (some m) = object (entries m)

abbrev pub map_pointer_omitempty : Option StringMap → Option Json
map_pointer_omitempty none = none
map_pointer_omitempty (some m) = some (map_json m)

-- Reading. An object's key names a field whose tag it equals but for the case of ASCII letters.
abbrev fold_code : ℕ → ℕ
fold_code c = if leb b'A' c && leb c b'Z' then c + 32 else c

unfoldable pub same_key : String → String → Bool
same_key String.[] String.[] = true
same_key String.[] (String.◌∷◌ d t) = false
same_key (String.◌∷◌ c s) String.[] = false
same_key (String.◌∷◌ c s) (String.◌∷◌ d t) =
    nat_eq (fold_code (code c)) (fold_code (code d)) && same_key s t

-- A field is read by folding over the members that name it; `none` is a type error, which stays.
module _ {A : Type 0} (assign : A → Json → Option A) where
  abbrev pub update : Option A → Json → Option A
  update none v = none
  update (some a) v = assign a v

  unfoldable pub read : String → Option A → Members → Option A
  read k a end = a
  read k a (member j v ms) = read k (if same_key k j then update a v else a) ms

-- null leaves a value as it is, and makes a pointer nil.
abbrev pub assign_text : String → Json → Option String
assign_text old (text s) = some s
assign_text old null = some old
assign_text old _ = none

abbrev pub assign_bool : Bool → Json → Option Bool
assign_bool old (bool b) = some b
assign_bool old null = some old
assign_bool old _ = none

abbrev pub assign_int : ℤ → Json → Option ℤ
assign_int old (number z) = some z
assign_int old null = some old
assign_int old _ = none

abbrev pub assign_text_pointer : Option String → Json → Option (Option String)
assign_text_pointer old (text s) = some (some s)
assign_text_pointer old null = some none
assign_text_pointer old _ = none

abbrev cons_entry :
    String → Json → Option (List (String × String)) → Option (List (String × String))
cons_entry k (text v) (some m) = some ((k, v) ∷ m)
cons_entry k null (some m) = some ((k, "") ∷ m)
cons_entry k _ _ = none

unfoldable pub read_entries : Members → Option (List (String × String))
read_entries end = some []
read_entries (member k v ms) = cons_entry k v (read_entries ms)

-- Into a *map[string]string that is nil before: the struct is fresh.
abbrev pub assign_map_pointer : Option StringMap → Json → Option (Option StringMap)
assign_map_pointer old null = some none
assign_map_pointer old (object ms) = elim (read_entries ms) [
  | none ↦ none
  | some m ↦ some (some (some m))
]
assign_map_pointer old _ = none
