-- ===== src/Diagnostics/Shrunk.antt =====
-- What the shrinking of the details keeps (internal/application/client_diagnostics.go).
use deciscope_api.Base.{
  ◌++◌, All, ap, String, ℕ, ◌≡◌, refl, ◌⊎◌, inl, inr, Bool, true, false, ◌||◌, Option, none, some,
  List, [], ◌∷◌, str_eq, str_eq_self, eq_iff, if◌then◌else◌, if-case, any, arith,
}
use deciscope_api.Diagnostics.Limits.{Limits}
use deciscope_api.Diagnostics.Details.{Value, object, Fields, no_fields, field, Patterns}
use deciscope_api.Diagnostics.Largest.{
  AreFalling, sorted-AreFalling, sorted-All, IsEntry, sized_keys-entries,
}
use deciscope_api.Diagnostics.Shrink.{
  SizedKey, stays, sink, sort_back, turn, remove_field, within, sized_keys, drop_keys,
  shrink_fields,
}

abbrev pub find_field : String → Fields → Option Value
find_field key no_fields = none
find_field key (field k v fs) = if str_eq k key then some v else find_field key fs

abbrev pub has_key : String → List SizedKey → Bool
has_key key ks = any (λ k. str_eq k.key key) ks

abbrev pub is_dropped : String → List String → Bool
is_dropped key ks = any (λ k. str_eq k key) ks

find_field-remove_field :
    (asked key : String) (fs : Fields)
    → find_field asked (remove_field key fs)
      ≡ (if str_eq key asked then none else find_field asked fs)
unfolding remove_field
find_field-remove_field asked key no_fields = ground arith
find_field-remove_field asked key (field k v fs) =
    let rest = find_field-remove_field asked key fs in
    ground (arith, rest, eq_iff k key, eq_iff k asked, eq_iff key asked)

has_key-sink :
    (key : String) (right : SizedKey) (before : List SizedKey)
    → has_key key (sink right before) ≡ (str_eq right.key key || has_key key before)
unfolding sink
has_key-sink key right [] = refl
has_key-sink key right (left ∷ before) =
    let rest = has_key-sink key right before in
    if-case (λ ks. has_key key ks ≡ (str_eq right.key key || has_key key (left ∷ before)))
      (stays left right) (right ∷ left ∷ before) (left ∷ sink right before) (λ _. refl)
      (λ _. ground (arith, rest))

has_key-sort_back :
    (key : String) (ks before : List SizedKey)
    → has_key key (sort_back ks before) ≡ (has_key key ks || has_key key before)
unfolding sort_back
has_key-sort_back key [] before = refl
has_key-sort_back key (k ∷ ks) before =
    ground (arith, has_key-sort_back key ks (sink k before), has_key-sink key k before)

has_key-turn :
    (key : String) (before after : List SizedKey)
    → has_key key (turn before after) ≡ (has_key key before || has_key key after)
unfolding turn
has_key-turn key [] after = refl
has_key-turn key (k ∷ before) after = ground (arith, has_key-turn key before (k ∷ after))

-- The entries with a key have a candidate with it.
abbrev pub IsCovered : List SizedKey → Fields → Type 0
IsCovered ks fs = (key : String) → has_key key ks ≡ false → find_field key fs ≡ none

nothing_left : (fs : Fields) → IsCovered [] fs → fs ≡ no_fields
nothing_left no_fields h = refl
nothing_left (field k v fs) h = let q = h k refl in absurd (ground (arith, q, str_eq_self k))

module _ (patterns : Patterns) (size : Value → Option ℕ) (limits : Limits) where
  sized_keys-IsCovered : (fs : Fields) → IsCovered (sized_keys patterns size limits fs) fs
  unfolding sized_keys
  sized_keys-IsCovered no_fields key h = refl
  sized_keys-IsCovered (field k v fs) key h = ground (arith, h, sized_keys-IsCovered fs key)

  remove_field-IsCovered :
      (k : SizedKey) (ks : List SizedKey) (fs : Fields)
      → IsCovered (k ∷ ks) fs
      → IsCovered ks (remove_field k.key fs)
  remove_field-IsCovered k ks fs h key q =
      ground (arith, h key, q, find_field-remove_field key k.key fs)

  -- The details are too large before each drop.
  abbrev pub IsNeeded : Fields → List String → Type 0
  IsNeeded fs [] = Unit
  IsNeeded fs (k ∷ ks) =
      (within patterns size limits (size (object fs)) ≡ false) × IsNeeded (remove_field k fs) ks

  abbrev pub IsShrunk : Fields → Fields × List String → Type 0
  IsShrunk fs (kept, dropped) =
      ((within patterns size limits (size (object kept)) ≡ true) ⊎ (kept ≡ no_fields))
      × IsNeeded fs dropped
      × ((key : String)
          → find_field key kept ≡ (if is_dropped key dropped then none else find_field key fs))

  drop_keys-IsShrunk :
      (ks : List SizedKey) (fs : Fields)
      → IsCovered ks fs
      → IsShrunk fs (drop_keys patterns size limits ks fs)
  unfolding drop_keys
  drop_keys-IsShrunk [] fs h = (inr (nothing_left fs h), tt, λ key. refl)
  drop_keys-IsShrunk (k ∷ ks) fs h =
      let (small, needed, rest) =
        drop_keys-IsShrunk ks (remove_field k.key fs) (remove_field-IsCovered k ks fs h) in
      if-case (IsShrunk fs) (within patterns size limits (size (object fs))) _ _
        (λ fits. (inl fits, tt, λ key. refl))
        (λ large. (
          small,
          (large, needed),
          λ key. ground (arith, rest key, find_field-remove_field key k.key fs),
        ))

  abbrev pub names : List SizedKey → List String
  names [] = []
  names (k ∷ ks) = k.key ∷ names ks

  drop_keys-names :
      (ks : List SizedKey) (fs : Fields)
      → (others : List String) × (names ks ≡ (drop_keys patterns size limits ks fs).1 ++ others)
  unfolding drop_keys
  drop_keys-names [] fs = ([], refl)
  drop_keys-names (k ∷ ks) fs =
      let (others, e) = drop_keys-names ks (remove_field k.key fs) in
      if-case
        (λ (r : Fields × List String). (others : List String) × (names (k ∷ ks) ≡ r.1 ++ others))
        (within patterns size limits (size (object fs))) _ _ (λ _. (names (k ∷ ks), refl))
        (λ _. (others, ap (λ ns. k.key ∷ ns) e))

  -- The dropped keys are the first ones of the entries in the order of their sizes, the largest first:
  -- `ranked` has entries of the details with their sizes, and each of their keys.
  pub record IsLargestFirst (fs : Fields) (dropped : List String) : Type 0 where
    pub ranked : List SizedKey
    pub falling : AreFalling ranked
    pub entries : All (IsEntry patterns size limits fs) ranked
    pub covered : IsCovered ranked fs
    pub others : List String
    pub first : names ranked ≡ dropped ++ others

  -- Details that are too large lose whole entries, the largest first, one key at a time and only while
  -- their JSON is over the limit, until it is within the limit or no entry is left. An entry is kept
  -- with its value, unless its key is among those that are dropped. This is before the list of the
  -- dropped keys is added to the details.
  pub shrink_fields-IsShrunk :
      (fs : Fields)
      → IsShrunk fs (shrink_fields patterns size limits fs)
        × IsLargestFirst fs (shrink_fields patterns size limits fs).1
  unfolding shrink_fields
  shrink_fields-IsShrunk fs =
      let sized = sized_keys patterns size limits fs in
      let sorted = sort_back sized [] in
      let ranked = turn sorted [] in
      let all : IsCovered ranked fs = λ key q.
        sized_keys-IsCovered fs key
          (ground (arith, q, has_key-turn key sorted [], has_key-sort_back key sized [])) in
      let (others, e) = drop_keys-names ranked fs in
      (
        drop_keys-IsShrunk ranked fs all,
        record {
          ranked = ranked;
          falling = sorted-AreFalling sized;
          entries =
              sorted-All (IsEntry patterns size limits fs) sized
                (sized_keys-entries patterns size limits fs);
          covered = all;
          others = others;
          first = e;
        },
      )
