-- ===== src/Collections/Json.antt =====
-- localstack-core/localstack/utils/collections.py: values read, set and picked by paths. A path is a
-- list of nodes; what an error leaves of a dict that is being set is not modelled.
use Prim.Native.Char.{Char, code}
use text.Mathlib.Text.{starts_with}
use localstack_bb.Base.{
  ℕ, zero, suc, ◌+◌, ◌-◌, ◌*◌, String, Bool, true, false, ◌&&◌, ◌||◌, not, Option, none, some, List,
  [], ◌∷◌, if◌then◌else◌, str_eq, ◌==◌, leb, ltb,
}
use localstack_bb.Base.Result.{Result, ok, err, ◌>>=◌}
use localstack_bb.Base.Text.{is_decimal, decimal_zeros}

mutual
  pub data Value : Type 0 where
    null : Value
    boolean : Bool → Value
    number : ℕ → Value
    string : String → Value
    list : Items → Value
    dict : Entries → Value

  pub data Items : Type 0 where
    no_items : Items
    item : Value → Items → Items

  pub data Entries : Type 0 where
    no_entries : Entries
    entry : String → Value → Entries → Entries

pub data PathError : Type 0 where
  attribute_error type_error runtime_error : PathError

unfoldable pub entry_of : String → Entries → Option Value
entry_of k no_entries = none
entry_of k (entry j v e) = let rest = entry_of k e in if str_eq j k then some v else rest

unfoldable pub put_entry : String → Value → Entries → Entries
put_entry k v no_entries = entry k v no_entries
put_entry k v (entry j w e) =
    let rest = put_entry k v e in if str_eq j k then entry j v e else entry j w rest

unfoldable pub item_at : ℕ → Items → Value
item_at i no_items = null
item_at zero (item v vs) = v
item_at (suc i) (item v vs) = item_at i vs

-- Whether a value is true in a condition.
abbrev pub truthy : Value → Bool
truthy null = false
truthy (boolean b) = b
truthy (number n) = not (n == 0)
truthy (string s) = not (str_eq s "")
truthy (list no_items) = false
truthy (list (item _ _)) = true
truthy (dict no_entries) = false
truthy (dict (entry _ _ _)) = true

-- The value of a decimal digit, by the zero of its script.
unfoldable pub digit_value : List ℕ → Char → ℕ
digit_value [] c = 0
digit_value (z ∷ zs) c =
    let rest = digit_value zs c in
    if leb z (code c) && ltb (code c) (z + 10) then code c - z else rest

-- `re.compile("^\\d+$").search(node)` and `int(node)`: `$` also matches before a last line feed.
unfoldable pub read_digits : Bool → ℕ → String → Option ℕ
read_digits any_yet n String.[] = if any_yet then some n else none
read_digits any_yet n (String.◌∷◌ c s) =
    let rest = read_digits true (n * 10 + digit_value decimal_zeros c) s in
    if is_decimal c then rest else (if any_yet && code c == 10 && str_eq s "" then some n else none)

abbrev pub read_index : String → Option ℕ
read_index node = read_digits false 0 node

abbrev pub value_or_null : Option Value → Value
value_or_null none = null
value_or_null (some v) = v

abbrev pub get_index : ℕ → Value → Value
get_index i (list vs) = item_at i vs
get_index i _ = null

-- A text is compared with the length of a list, which raises.
abbrev pub get_key : String → Value → Result PathError Value
get_key k (dict e) = ok (value_or_null (entry_of k e))
get_key k (list vs) = err type_error
get_key k _ = ok null

-- One turn of the loop of `get_safe`.
abbrev pub get_node : String → Value → Result PathError Value
get_node node v =
    if str_eq node "$"
    then ok v
    else elim (read_index node) [ none ↦ get_key node v | some i ↦ ok (get_index i v) ]

unfoldable pub get_path : List String → Value → Result PathError Value
get_path [] v = ok v
get_path (node ∷ nodes) v = get_node node v >>= get_path nodes

abbrev pub or_value : Value → Value → Value
or_value v default = if truthy v then v else default

abbrev pub rooted : List String → Bool
rooted [] = false
rooted (node ∷ nodes) = str_eq node "$"

-- `get_safe`
unfoldable pub get_safe : Value → List String → Value → Result PathError Value
get_safe (dict (entry k v e)) path default =
    if rooted path
    then (get_path path (dict (entry k v e)) >>= λ u. ok (or_value u default))
    else err attribute_error
get_safe _ path default = ok default

-- `node in items`, for a text.
unfoldable pub has_text : String → Items → Bool
has_text node no_items = false
has_text node (item (string s) vs) = str_eq s node || has_text node vs
has_text node (item _ vs) = has_text node vs

-- `node in s`, for a text.
unfoldable pub has_substring : String → String → Bool
has_substring node String.[] = str_eq node ""
has_substring node (String.◌∷◌ c s) = starts_with (String.◌∷◌ c s) node || has_substring node s

abbrev pub child_of : Option Value → Value
child_of none = dict no_entries
child_of (some v) = v

-- A node that is not the last one, where `set` is the rest of the loop. A list or a text that has
-- the node passes the first test and fails the second.
abbrev pub set_inner : String → (Value → Result PathError Value) → Value → Result PathError Value
set_inner node set (dict e) =
    set (child_of (entry_of node e)) >>= λ child. ok (dict (put_entry node child e))
set_inner node set (list vs) = if has_text node vs then err runtime_error else err type_error
set_inner node set (string s) = if has_substring node s then err runtime_error else err type_error
set_inner node set _ = err type_error

abbrev pub set_last : String → Value → Value → Result PathError Value
set_last node value (dict e) = ok (dict (put_entry node value e))
set_last node value _ = err type_error

unfoldable pub set_path : Value → List String → Value → Result PathError Value
set_path value [] v = ok v
set_path value (node ∷ []) v = if str_eq node "$" then ok v else set_last node value v
set_path value (node ∷ next ∷ nodes) v =
    if str_eq node "$"
    then set_path value (next ∷ nodes) v
    else set_inner node (set_path value (next ∷ nodes)) v

-- `set_safe_mutable`
unfoldable pub set_safe_mutable : Value → List String → Value → Result PathError Value
set_safe_mutable (dict e) path value =
    if rooted path then set_path value path (dict e) else err attribute_error
set_safe_mutable _ path value = err attribute_error

abbrev pub pick_one : Value → List String → Value → Result PathError Value
pick_one picked path null = ok picked
pick_one picked path v = set_safe_mutable picked path v

-- `pick_attributes`
unfoldable pub pick_onto : Value → List (List String) → Value → Result PathError Value
pick_onto dictionary [] picked = ok picked
pick_onto dictionary (path ∷ paths) picked =
    get_safe dictionary path null >>= pick_one picked path >>= pick_onto dictionary paths

unfoldable pub pick_attributes : Value → List (List String) → Result PathError Value
pick_attributes dictionary paths = pick_onto dictionary paths (dict no_entries)
