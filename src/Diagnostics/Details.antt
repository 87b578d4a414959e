-- ===== src/Diagnostics/Details.antt =====
-- The values in the details of a diagnostic event, and their sanitizing
-- (internal/application/client_diagnostics.go). A map is the list of its entries in the order of the
-- keys, in which the code visits them (sortedKeys).
use deciscope_api.Base.{
  String, ℕ, zero, suc, Bool, true, false, not, ◌&&◌, ◌||◌, List, [], ◌∷◌, if◌then◌else◌, str_eq,
  is_blank, to_lower, contains_any, filter_runes, leb,
}
use Prim.Native.Char.{code}
use deciscope_api.Diagnostics.Limits.{Limits, clamp_text}

mutual
  pub data Value : Type 0 where
    null : Value
    text : String → Value
    flag : Bool → Value
    -- a number, by its JSON text
    number : String → Value
    object : Fields → Value
    array : Items → Value
    -- a value of a type that does not come from JSON
    foreign : Value

  pub data Fields : Type 0 where
    no_fields : Fields
    field : String → Value → Fields → Fields

  pub data Items : Type 0 where
    no_items : Items
    item : Value → Items → Items

abbrev pub redacted_placeholder : String
redacted_placeholder = "[redacted]"

abbrev redacted_key_substrings : List String
redacted_key_substrings =
    "authorization" ∷ "token" ∷ "cookie" ∷ "password" ∷ "passwd" ∷ "secret" ∷ "apikey"
    ∷ "credential" ∷ "bearer" ∷ "jwt" ∷ "privatekey" ∷ "email" ∷ "mail" ∷ "transcript" ∷ "utterance"
    ∷ "speech" ∷ "label" ∷ "title" ∷ "summary" ∷ "text" ∷ "content" ∷ []

abbrev metric_key_suffixes : List String
metric_key_suffixes = "length" ∷ "count" ∷ "chars" ∷ "bytes" ∷ "size" ∷ []

abbrev is_plain : ℕ → Bool
is_plain c = (leb 97 c && leb c 122) || (leb 48 c && leb c 57)

unfoldable pub normalize_key : String → String
unfolding to_lower filter_runes
normalize_key key = filter_runes (λ c. not (is_plain (code c))) (λ c. c) (to_lower key)

unfoldable pub is_numeric : Value → Bool
is_numeric (number n) = true
is_numeric _ = false

-- `strings.HasSuffix`
has_suffix : String → String → Bool
has_suffix String.[] suffix = is_blank suffix
has_suffix (String.◌∷◌ c s) suffix = str_eq (String.◌∷◌ c s) suffix || has_suffix s suffix

has_any_suffix : String → List String → Bool
unfolding has_suffix
has_any_suffix s [] = false
has_any_suffix s (suffix ∷ others) = has_suffix s suffix || has_any_suffix s others

unfoldable pub should_redact_key : String → Value → Bool
unfolding normalize_key contains_any is_numeric has_any_suffix
should_redact_key key value =
    let normalized = normalize_key key in
    if not (contains_any normalized redacted_key_substrings)
    then false
    else not (is_numeric value && has_any_suffix normalized metric_key_suffixes)

unfoldable pub is_null : Value → Bool
is_null null = true
is_null _ = false

-- `result[key] = value`, in the order of the keys that the loop writes.
unfoldable pub set_field : String → Value → Fields → Fields
set_field key value no_fields = field key value no_fields
set_field key value (field k v fs) =
    if str_eq k key then field k value fs else field k v (set_field key value fs)

-- What the three regular expressions leave of a text (`ReplaceAllString`).
pub record Patterns : Type 0 where
  pub scrub_jwt : String → String
  pub scrub_bearer : String → String
  pub scrub_email : String → String

unfoldable pub scrub_secrets : Patterns → String → String
scrub_secrets patterns s =
    if is_blank s then s else patterns.scrub_email (patterns.scrub_bearer (patterns.scrub_jwt s))

module _ (patterns : Patterns) (limits : Limits) where
  unfoldable pub sanitize_text : String → Value × Bool
  unfolding scrub_secrets clamp_text
  sanitize_text s =
      let scrubbed = scrub_secrets patterns s in
      let clamped = clamp_text scrubbed limits.max_string in
      (text clamped, not (str_eq clamped scrubbed))

  -- The entry of one key in the result, after that of the others before it.
  unfoldable pub put_entry : String → Value → Value × Bool → Fields × Bool → Fields × Bool
  unfolding should_redact_key is_null set_field clamp_text
  put_entry key value (sanitized, cut) (result, truncated) =
      let safe = clamp_text key limits.max_identifier in
      if should_redact_key key value
      then (set_field safe (text redacted_placeholder) result, truncated)
      else if is_null sanitized && not (is_null value)
      then (result, truncated || cut)
      else (set_field safe sanitized result, truncated || cut)

  unfoldable mutual
    unfolding sanitize_text put_entry

    -- `deeper` is the depth that is left, and 0 beyond the deepest.
    pub sanitize_value : Value → ℕ → Value × Bool
    sanitize_value v zero = (null, true)
    sanitize_value null (suc deeper) = (null, false)
    sanitize_value (text s) (suc deeper) = sanitize_text s
    sanitize_value (flag b) (suc deeper) = (flag b, false)
    sanitize_value (number n) (suc deeper) = (number n, false)
    sanitize_value (object fs) (suc deeper) =
        let (result, truncated) = sanitize_fields fs deeper limits.max_keys (no_fields, false) in
        (object result, truncated)
    sanitize_value (array is) (suc deeper) =
        let (result, truncated) = sanitize_items is deeper limits.max_items in
        (array result, truncated)
    sanitize_value foreign (suc deeper) = (null, true)

    pub sanitize_fields : Fields → ℕ → ℕ → Fields × Bool → Fields × Bool
    sanitize_fields no_fields deeper room done = done
    sanitize_fields (field k v fs) deeper zero (result, truncated) = (result, true)
    sanitize_fields (field k v fs) deeper (suc room) done =
        sanitize_fields fs deeper room (put_entry k v (sanitize_value v deeper) done)

    pub sanitize_items : Items → ℕ → ℕ → Items × Bool
    sanitize_items no_items deeper room = (no_items, false)
    sanitize_items (item v is) deeper zero = (no_items, true)
    sanitize_items (item v is) deeper (suc room) =
        let (sanitized, cut) = sanitize_value v deeper in
        let (others, truncated) = sanitize_items is deeper room in
        (item sanitized others, cut || truncated)
