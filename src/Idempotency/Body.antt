-- ===== src/Idempotency/Body.antt =====
-- ui/backend/internal/httpapi/idempotency.go: the body of a keyed request, as the decoder of
-- encoding/json reads it, and `strictBody`, which turns it into what is fingerprinted.
-- strings.EqualFold, mime.ParseMediaType and the text that json.Marshal writes are parameters; that
-- it writes the members of a map in the order of their names is part of the model.
pub mod Order
pub mod Canonical
pub mod Strict
pub mod Sample
use ldapium.Prelude.{
  ℕ, Bool, true, false, ◌&&◌, ◌||◌, not, Option, none, some, List, [], ◌∷◌, ◌++◌, if◌then◌else◌,
  any,
}
use ldapium.Prelude.Bytes.{Bytes, codes}
use ldapium.Prelude.Eq.{bytes_eq, ◌==◌}
use ldapium.Listing.{compare_bytes, is_less}

-- A JSON value; a number is its literal (`UseNumber`), and an object has its members as they stand.
mutual
  pub data Json : Type 0 where
    null : Json
    boolean : Bool → Json
    number : Bytes → Json
    text : Bytes → Json
    array : Items → Json
    object : Members → Json

  pub data Items : Type 0 where
    no_items : Items
    item : Json → Items → Items

  pub data Members : Type 0 where
    no_members : Members
    member : Bytes → Json → Members → Members

-- `walkNoDuplicates`, which fails where this is false: no object, at any depth, names a member
-- twice. `seen` are the names before.
module _ (equal_fold : Bytes → Bytes → Bool) where
  unfoldable mutual
    pub no_duplicates : Json → Bool
    no_duplicates null = true
    no_duplicates (boolean b) = true
    no_duplicates (number n) = true
    no_duplicates (text s) = true
    no_duplicates (array vs) = no_duplicates_items vs
    no_duplicates (object ms) = no_duplicates_members [] ms

    pub no_duplicates_items : Items → Bool
    no_duplicates_items no_items = true
    no_duplicates_items (item v vs) = no_duplicates v && no_duplicates_items vs

    pub no_duplicates_members : List Bytes → Members → Bool
    no_duplicates_members seen no_members = true
    no_duplicates_members seen (member k v ms) =
        not (any (equal_fold k) seen)
        && (no_duplicates v && no_duplicates_members (seen ++ k ∷ []) ms)

-- The members of a map are written in the order of their names.
unfoldable pub insert_member : Bytes → Json → Members → Members
unfolding compare_bytes
insert_member j v no_members = member j v no_members
insert_member j v (member k w ms) =
    if is_less (compare_bytes k j)
    then member k w (insert_member j v ms)
    else member j v (member k w ms)

-- The value decoded into `any`, as it is written again.
unfoldable mutual
  unfolding insert_member

  pub canonical : Json → Json
  canonical null = null
  canonical (boolean b) = boolean b
  canonical (number n) = number n
  canonical (text s) = text s
  canonical (array vs) = array (canonical_items vs)
  canonical (object ms) = object (canonical_members ms)

  pub canonical_items : Items → Items
  canonical_items no_items = no_items
  canonical_items (item v vs) = item (canonical v) (canonical_items vs)

  pub canonical_members : Members → Members
  canonical_members no_members = no_members
  canonical_members (member k v ms) = insert_member k (canonical v) (canonical_members ms)

-- What the body holds: nothing or blanks; no JSON value; or one, with more after it or not.
pub data Content : Type 0 where
  blank broken : Content
  value : Json → (more : Bool) → Content

-- strings.EqualFold, and the text of a value whose maps are in order.
pub record Encoding : Type 0 where
  pub equal_fold : Bytes → Bytes → Bool
  pub marshal : Json → Bytes

is_json_type : Option Bytes → Bool
is_json_type none = false
is_json_type (some mt) =
    mt == codes "application/json" || mt == codes "application/merge-patch+json"

strict_value : Encoding → Option Bytes → Content → Option Bytes
unfolding is_json_type
strict_value enc media_type blank = some []
strict_value enc media_type broken = none
strict_value enc media_type (value v more) =
    if is_json_type media_type && no_duplicates enc.equal_fold v && not more
    then some (enc.marshal (canonical v))
    else none

is_blank : Content → Bool
is_blank blank = true
is_blank broken = false
is_blank (value v more) = false

-- `strictBody`; `none` is its one error, and a media type that does not parse.
unfoldable pub strict_body : Encoding → Bytes → Option Bytes → Content → Option Bytes
unfolding strict_value is_blank no_duplicates
strict_body enc method media_type content =
    if method == codes "DELETE"
    then if is_blank content then some [] else none
    else strict_value enc media_type content

password_field : (Bytes → Bytes → Bool) → Members → Option Json
password_field equal_fold no_members = none
password_field equal_fold (member k v ms) =
    if equal_fold k (codes "password") then some v else password_field equal_fold ms

-- `Password` after the value was read into it; a value that is no text is an error.
is_left_empty : Option Json → Bool
is_left_empty none = true
is_left_empty (some null) = true
is_left_empty (some (text s)) = s == []
is_left_empty (some (boolean b)) = false
is_left_empty (some (number n)) = false
is_left_empty (some (array vs)) = false
is_left_empty (some (object ms)) = false

-- `generatesPassword` of a body that `strictBody` lets through.
unfoldable pub generates_password : (Bytes → Bytes → Bool) → Content → Bool
unfolding password_field is_left_empty
generates_password equal_fold blank = true
generates_password equal_fold broken = false
generates_password equal_fold (value null more) = true
generates_password equal_fold (value (object ms) more) =
    is_left_empty (password_field equal_fold ms)
generates_password equal_fold (value (boolean b) more) = false
generates_password equal_fold (value (number n) more) = false
generates_password equal_fold (value (text s) more) = false
generates_password equal_fold (value (array vs) more) = false
