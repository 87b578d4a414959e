-- ===== src/Diagnostics/Bounds.antt =====
-- The size of the details that are kept (internal/application/client_diagnostics.go).
use Prim.Native.Char.{len_utf8}
use deciscope_api.Base.{
  ◌≡◌, refl, String, ℕ, zero, suc, ◌+◌, ◌-◌, ◌≤◌, ◌<◌, Bool, false, not, ◌&&◌, leb, str_eq, arith,
  if-case,
}
use deciscope_api.Diagnostics.Limits.{Limits, byte_length, fitting, clamp_text}
use deciscope_api.Diagnostics.Details.{
  Value, null, text, flag, number, object, array, foreign, Fields, no_fields, field, Items,
  no_items, item, Patterns, redacted_placeholder, should_redact_key, is_null, set_field,
  scrub_secrets, sanitize_text, put_entry, sanitize_value, sanitize_fields, sanitize_items,
}

fitting-le : (room : ℕ) (s : String) → byte_length (fitting room s) ≤ room
unfolding byte_length fitting
fitting-le room String.[] = omega arith
fitting-le room (String.◌∷◌ c s) =
    let rest = fitting-le (room - len_utf8 c) s in
    if-case (λ t. byte_length t ≤ room) (leb (len_utf8 c) room) _ _
      (λ fits. ground (arith, fits, rest)) (λ _. omega arith)

-- A text that is cut to a positive number of bytes has at most as many.
pub clamp_text-le : (s : String) (limit : ℕ) → 0 < limit → byte_length (clamp_text s limit) ≤ limit
unfolding clamp_text
clamp_text-le s limit h = ground (arith, fitting-le limit s)

abbrev pub count_fields : Fields → ℕ
count_fields no_fields = 0
count_fields (field k v fs) = suc (count_fields fs)

abbrev pub count_items : Items → ℕ
count_items no_items = 0
count_items (item v is) = suc (count_items is)

-- A value within the limits, with `deeper` levels below it: the texts, the keys, and the numbers of
-- the entries of each map and of the elements of each array.
module _ (limits : Limits) where
  abbrev mutual
    pub Bounded : ℕ → Value → Type 0
    Bounded deeper null = Unit
    Bounded zero (text s) = s ≡ redacted_placeholder
    Bounded (suc deeper) (text s) = byte_length s ≤ limits.max_string
    Bounded zero (flag b) = ⊥
    Bounded zero (number n) = ⊥
    Bounded zero (object fs) = ⊥
    Bounded zero (array is) = ⊥
    Bounded deeper foreign = ⊥
    Bounded (suc deeper) (flag b) = Unit
    Bounded (suc deeper) (number n) = Unit
    Bounded (suc deeper) (object fs) = BoundedFields deeper fs × (count_fields fs ≤ limits.max_keys)
    Bounded (suc deeper) (array is) = BoundedItems deeper is × (count_items is ≤ limits.max_items)

    pub BoundedFields : ℕ → Fields → Type 0
    BoundedFields deeper no_fields = Unit
    BoundedFields deeper (field k v fs) =
        (byte_length k ≤ limits.max_identifier) × Bounded deeper v × BoundedFields deeper fs

    pub BoundedItems : ℕ → Items → Type 0
    BoundedItems deeper no_items = Unit
    BoundedItems deeper (item v is) = Bounded deeper v × BoundedItems deeper is

module _ (patterns : Patterns) (limits : Limits) (named : 0 < limits.max_identifier)
    (room_to_redact : byte_length redacted_placeholder ≤ limits.max_string) where
  Bounded-text : (deeper : ℕ) → Bounded limits deeper (text redacted_placeholder)
  Bounded-text zero = refl
  Bounded-text (suc deeper) = room_to_redact

  Bounded-null : (deeper : ℕ) → Bounded limits deeper null
  Bounded-null zero = tt
  Bounded-null (suc deeper) = tt

  set_field-Bounded :
      (deeper : ℕ) (key : String) (v : Value) (fs : Fields)
      → byte_length key ≤ limits.max_identifier
      → Bounded limits deeper v
      → BoundedFields limits deeper fs
      → BoundedFields limits deeper (set_field key v fs)
        × (count_fields (set_field key v fs) ≤ suc (count_fields fs))
  unfolding set_field
  set_field-Bounded deeper key v no_fields k b h = ((k, b, tt), omega arith)
  set_field-Bounded deeper key v (field j w fs) k b h =
      let (rest, more) = set_field-Bounded deeper key v fs k b h.2 in
      if-case
        (λ result.
          BoundedFields limits deeper result × (count_fields result ≤ suc (suc (count_fields fs))))
        (str_eq j key) (field j v fs) (field j w (set_field key v fs))
        (λ _. ((h.0, b, h.2), omega arith)) (λ _. ((h.0, h.1, rest), omega (arith, more)))

  put_entry-Bounded :
      (deeper : ℕ) (key : String) (value sanitized : Value) (cut : Bool) (fs : Fields)
      (truncated : Bool)
      → Bounded limits deeper sanitized
      → BoundedFields limits deeper fs
      → BoundedFields limits deeper
          (put_entry patterns limits key value (sanitized, cut) (fs, truncated)).0
        × (count_fields (put_entry patterns limits key value (sanitized, cut) (fs, truncated)).0
            ≤ suc (count_fields fs))
  unfolding put_entry
  put_entry-Bounded deeper key value sanitized cut fs truncated b h =
      let P = λ (r : Fields × Bool).
        BoundedFields limits deeper r.0 × (count_fields r.0 ≤ suc (count_fields fs)) in
      let safe = clamp_text key limits.max_identifier in
      let k = clamp_text-le key limits.max_identifier named in
      if-case P (should_redact_key key value) _ _
        (λ _.
          set_field-Bounded deeper safe (text redacted_placeholder) fs k (Bounded-text deeper) h)
        (λ _.
          if-case P (is_null sanitized && not (is_null value)) _ _ (λ _. (h, omega arith))
            (λ _. set_field-Bounded deeper safe sanitized fs k b h))

  mutual
    unfolding sanitize_value sanitize_text

    sanitize_value-Bounded :
        (v : Value) (deeper : ℕ) → Bounded limits deeper (sanitize_value patterns limits v deeper).0
    sanitize_value-Bounded v zero = tt
    sanitize_value-Bounded null (suc deeper) = tt
    sanitize_value-Bounded (text s) (suc deeper) =
        clamp_text-le (scrub_secrets patterns s) limits.max_string (omega (arith, room_to_redact))
    sanitize_value-Bounded (flag b) (suc deeper) = tt
    sanitize_value-Bounded (number n) (suc deeper) = tt
    sanitize_value-Bounded (object fs) (suc deeper) =
        let (b, c) = sanitize_fields-Bounded fs deeper limits.max_keys no_fields false tt in
        (b, omega (arith, c))
    sanitize_value-Bounded (array is) (suc deeper) =
        sanitize_items-Bounded is deeper limits.max_items
    sanitize_value-Bounded foreign (suc deeper) = tt

    sanitize_fields-Bounded :
        (fs : Fields) (deeper room : ℕ) (done : Fields) (truncated : Bool)
        → BoundedFields limits deeper done
        → BoundedFields limits deeper
            (sanitize_fields patterns limits fs deeper room (done, truncated)).0
          × (count_fields (sanitize_fields patterns limits fs deeper room (done, truncated)).0
              ≤ count_fields done + room)
    sanitize_fields-Bounded no_fields deeper room done truncated h = (h, omega arith)
    sanitize_fields-Bounded (field k v fs) deeper zero done truncated h = (h, omega arith)
    sanitize_fields-Bounded (field k v fs) deeper (suc room) done truncated h =
        let s = sanitize_value patterns limits v deeper in
        let (b, c) =
          put_entry-Bounded deeper k v s.0 s.1 done truncated (sanitize_value-Bounded v deeper) h in
        let next = put_entry patterns limits k v s (done, truncated) in
        let (d, e) = sanitize_fields-Bounded fs deeper room next.0 next.1 b in
        (d, omega (arith, c, e))

    sanitize_items-Bounded :
        (is : Items) (deeper room : ℕ)
        → BoundedItems limits deeper (sanitize_items patterns limits is deeper room).0
          × (count_items (sanitize_items patterns limits is deeper room).0 ≤ room)
    sanitize_items-Bounded no_items deeper room = (tt, omega arith)
    sanitize_items-Bounded (item v is) deeper zero = (tt, omega arith)
    sanitize_items-Bounded (item v is) deeper (suc room) =
        let (b, c) = sanitize_items-Bounded is deeper room in
        ((sanitize_value-Bounded v deeper, b), omega (arith, c))

  -- Whatever a browser sends, the sanitized details are within the limits at every level: each map
  -- has at most `max_keys` entries and each array at most `max_items` elements, each text and each key
  -- is cut to its number of bytes, nothing stands deeper than `max_depth` but null and the placeholder
  -- of a redacted entry, one level below, and no value of another type is left. The
  -- limits for keys are positive, and those for texts leave room for the placeholder. These are the
  -- details before the marks of what was cut are added.
  pub details-Bounded :
      (v : Value)
      → Bounded limits
          (suc limits.max_depth)
          (sanitize_value patterns limits v (suc limits.max_depth)).0
  details-Bounded v = sanitize_value-Bounded v (suc limits.max_depth)
