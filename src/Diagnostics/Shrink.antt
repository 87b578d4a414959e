-- ===== src/Diagnostics/Shrink.antt =====
-- The size of the details as JSON (internal/application/client_diagnostics.go): the largest entries are
-- dropped until the rest is within the limit.
use Prim.Native.Nat.{Ordering}
use Prim.Native.String.{compare}
use deciscope_api.Base.{
  String, ℕ, Bool, true, false, ◌&&◌, ◌||◌, Option, none, some, List, [], ◌∷◌, str_eq,
  if◌then◌else◌, ltb, leb, ◌==◌,
}
use deciscope_api.Diagnostics.Limits.{Limits}
use deciscope_api.Diagnostics.Details.{
  Value, text, flag, object, array, Fields, no_fields, field, Items, no_items, item, Patterns,
  set_field, sanitize_value,
}

pub record SizedKey : Type 0 where
  pub key : String
  pub size : ℕ

-- `left <= right` on texts.
is_upto : String → String → Bool
is_upto left right = elim (compare left right) [ Ordering.gt ↦ false | _ ↦ true ]

-- Whether `right` stays behind `left`.
unfoldable pub stays : SizedKey → SizedKey → Bool
unfolding is_upto
stays left right =
    ltb right.size left.size || (left.size == right.size && is_upto left.key right.key)

-- The inner loop, on the entries to the left from right to left.
unfoldable pub sink : SizedKey → List SizedKey → List SizedKey
unfolding stays
sink right [] = right ∷ []
sink right (left ∷ before) =
    let moved = left ∷ sink right before in
    if stays left right then right ∷ left ∷ before else moved

-- The outer loop, with the sorted entries from right to left.
unfoldable pub sort_back : List SizedKey → List SizedKey → List SizedKey
sort_back [] before = before
sort_back (k ∷ ks) before = sort_back ks (sink k before)

unfoldable pub turn : List SizedKey → List SizedKey → List SizedKey
turn [] after = after
turn (k ∷ before) after = turn before (k ∷ after)

-- `delete(result, key)`
unfoldable pub remove_field : String → Fields → Fields
remove_field key no_fields = no_fields
remove_field key (field k v fs) =
    let rest = remove_field key fs in if str_eq k key then rest else field k v rest

unfoldable pub text_items : List String → Items
text_items [] = no_items
text_items (k ∷ ks) = item (text k) (text_items ks)

unfoldable pub with_dropped : Fields × List String → Fields
unfolding text_items
with_dropped (fs, []) = fs
with_dropped (fs, k ∷ ks) = set_field "_droppedKeys" (array (text_items (k ∷ ks))) fs

-- `size` is the number of bytes that json.Marshal gives for a value, if it gives any.
module _ (patterns : Patterns) (size : Value → Option ℕ) (limits : Limits) where
  unfoldable pub size_or : ℕ → Option ℕ → ℕ
  size_or fallback none = fallback
  size_or fallback (some n) = n

  unfoldable pub within : Option ℕ → Bool
  within none = false
  within (some n) = leb n limits.max_details

  unfoldable pub sized_keys : Fields → List SizedKey
  unfolding size_or
  sized_keys no_fields = []
  sized_keys (field k v fs) =
      record { key = k; size = size_or limits.max_details (size v) } ∷ sized_keys fs

  -- What is kept, and the keys that are dropped.
  unfoldable pub drop_keys : List SizedKey → Fields → Fields × List String
  unfolding within remove_field
  drop_keys [] fs = (fs, [])
  drop_keys (k ∷ ks) fs =
      let (kept, dropped) = drop_keys ks (remove_field k.key fs) in
      if within (size (object fs)) then (fs, []) else (kept, k.key ∷ dropped)

  unfoldable pub shrink_fields : Fields → Fields × List String
  unfolding turn sort_back sized_keys drop_keys
  shrink_fields fs = drop_keys (turn (sort_back (sized_keys fs) []) []) fs

  unfoldable pub shrink_details : Fields → Fields × Bool
  unfolding shrink_fields with_dropped
  shrink_details fs = (with_dropped (shrink_fields fs), true)

  unfoldable pub fit_details : Value × Bool → Fields × Bool
  unfolding shrink_details within
  fit_details (object fs, truncated) = elim (size (object fs)) [
    | none ↦ (field "_unencodable" (flag true) no_fields, true)
    | some n ↦ if leb n limits.max_details then (fs, truncated) else shrink_details fs
  ]
  fit_details (_, truncated) = (no_fields, true)

  unfoldable pub sanitize_details : Fields → Fields × Bool
  unfolding fit_details sanitize_value
  sanitize_details no_fields = (no_fields, false)
  sanitize_details (field k v fs) =
      fit_details (sanitize_value patterns limits (object (field k v fs)) (ℕ.suc limits.max_depth))
