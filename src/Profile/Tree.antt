-- ===== src/Profile/Tree.antt =====
-- The nested dictionaries of a technical projection, with the traversals of
-- services/profile_resolution.py. A path is the parts of a dotted field path.
pub mod Paths
pub mod Keeps
use bike_doc.Prelude.{
  ℕ, ◌+◌, ◌==◌, String, Bool, true, false, not, ◌&&◌, ◌||◌, List, [], ◌∷◌, str_eq, if◌then◌else◌,
}

-- A JSON value without lists; a missing key reads as null.
mutual
  pub data Json : Type 0 where
    null : Json
    text : String → Json
    number : ℕ → Json
    flag : Bool → Json
    dict : Fields → Json

  pub data Fields : Type 0 where
    nil : Fields
    cons : String → Json → Fields → Fields

abbrev pub Path_ : Type 0
Path_ = List String

abbrev pub is_dict : Json → Bool
is_dict (dict f) = true
is_dict _ = false

abbrev pub is_null : Json → Bool
is_null null = true
is_null _ = false

-- `value == "..."`
abbrev pub is_text : Json → String → Bool
is_text (text s) t = str_eq s t
is_text _ t = false

-- dict.get
unfoldable pub get_field : String → Fields → Json
get_field k nil = null
get_field k (cons l v f) = if str_eq l k then v else get_field k f

abbrev pub has_field : String → Fields → Bool
has_field k nil = false
has_field k (cons l v f) = str_eq l k || has_field k f

-- An assignment to a key: it keeps its place, or is the last.
unfoldable pub set_field : String → Json → Fields → Fields
set_field k v nil = cons k v nil
set_field k v (cons l w f) =
    let rest : Fields = set_field k v f in if str_eq l k then cons l v f else cons l w rest

-- dict.pop with a default
unfoldable pub remove_field : String → Fields → Fields
remove_field k nil = nil
remove_field k (cons l w f) =
    let rest : Fields = remove_field k f in if str_eq l k then rest else cons l w rest

-- technical_value
unfoldable pub technical_value : Path_ → Json → Json
unfolding get_field
technical_value [] j = j
technical_value (p ∷ ps) (dict f) = technical_value ps (get_field p f)
technical_value (p ∷ ps) null = null
technical_value (p ∷ ps) (text s) = null
technical_value (p ∷ ps) (number n) = null
technical_value (p ∷ ps) (flag y) = null

-- The walk of with_technical_value to its leaf: what is no dictionary on the way becomes one.
unfoldable pub set_value : Path_ → Json → Json → Json
unfolding get_field set_field
set_value [] v j = v
set_value (p ∷ ps) v (dict f) = dict (set_field p (set_value ps v (get_field p f)) f)
set_value (p ∷ ps) v null = dict (cons p (set_value ps v null) nil)
set_value (p ∷ ps) v (text s) = dict (cons p (set_value ps v null) nil)
set_value (p ∷ ps) v (number n) = dict (cons p (set_value ps v null) nil)
set_value (p ∷ ps) v (flag y) = dict (cons p (set_value ps v null) nil)

-- The same change at a key that has a dictionary, and none elsewhere.
unfoldable pub change_child : String → Json → Fields → Fields
unfolding get_field set_field
change_child p new f = if is_dict (get_field p f) then set_field p new f else f

-- _remove_technical_value
unfoldable pub remove_value : Path_ → Json → Json
unfolding get_field remove_field change_child
remove_value [] j = j
remove_value (p ∷ []) (dict f) = dict (remove_field p f)
remove_value (p ∷ q ∷ ps) (dict f) = dict (change_child p (remove_value (q ∷ ps) (get_field p f)) f)
remove_value (p ∷ ps) null = null
remove_value (p ∷ ps) (text s) = text s
remove_value (p ∷ ps) (number n) = number n
remove_value (p ∷ ps) (flag y) = flag y

abbrev pub keep_unless_empty : String → Fields → Fields → Fields
keep_unless_empty k nil rest = remove_field k rest
keep_unless_empty k (cons l v f) rest = cons k (dict (cons l v f)) rest

-- _remove_empty_descendants
unfoldable pub remove_empty_descendants : Fields → Fields
unfolding remove_field
remove_empty_descendants nil = nil
remove_empty_descendants (cons k (dict g) f) =
    keep_unless_empty k (remove_empty_descendants g) (remove_empty_descendants f)
remove_empty_descendants (cons k null f) = cons k null (remove_empty_descendants f)
remove_empty_descendants (cons k (text s) f) = cons k (text s) (remove_empty_descendants f)
remove_empty_descendants (cons k (number n) f) = cons k (number n) (remove_empty_descendants f)
remove_empty_descendants (cons k (flag y) f) = cons k (flag y) (remove_empty_descendants f)

-- The dictionary at a path, pruned in place.
unfoldable pub prune_at : Path_ → Json → Json
unfolding get_field change_child remove_empty_descendants
prune_at [] (dict f) = dict (remove_empty_descendants f)
prune_at [] null = null
prune_at [] (text s) = text s
prune_at [] (number n) = number n
prune_at [] (flag y) = flag y
prune_at (p ∷ ps) (dict f) = dict (change_child p (prune_at ps (get_field p f)) f)
prune_at (p ∷ ps) null = null
prune_at (p ∷ ps) (text s) = text s
prune_at (p ∷ ps) (number n) = number n
prune_at (p ∷ ps) (flag y) = flag y

-- _has_resolved_specification
unfoldable pub has_resolved_specification : Fields → Bool
has_resolved_specification nil = false
has_resolved_specification (cons k (dict g) f) =
    (not (str_eq k "presence") && has_resolved_specification g) || has_resolved_specification f
has_resolved_specification (cons k null f) = has_resolved_specification f
has_resolved_specification (cons k (text s) f) =
    not (str_eq k "presence") || has_resolved_specification f
has_resolved_specification (cons k (number n) f) =
    not (str_eq k "presence") || has_resolved_specification f
has_resolved_specification (cons k (flag y) f) =
    not (str_eq k "presence") || has_resolved_specification f

abbrev pub size : Fields → ℕ
size nil = 0
size (cons k v f) = size f + 1

-- The `==` of Python: dictionaries are equal whatever the order of their keys.
unfoldable mutual
  unfolding get_field

  pub json_eq : Json → Json → Bool
  json_eq null null = true
  json_eq (text s) (text t) = str_eq s t
  json_eq (number m) (number n) = m == n
  json_eq (flag a) (flag y) = (a && y) || not (a || y)
  json_eq (dict f) (dict g) = (size f == size g) && is_within f g
  json_eq _ _ = false

  is_within : Fields → Fields → Bool
  is_within nil g = true
  is_within (cons k v f) g = has_field k g && json_eq v (get_field k g) && is_within f g
