-- ===== src/Diagnostics/Largest.antt =====
-- The order in which the entries of too large details are dropped
-- (internal/application/client_diagnostics.go).
use deciscope_api.Base.{
  String, ℕ, ◌≤◌, ◌≡◌, refl, ◌⊎◌, inl, inr, Option, List, [], ◌∷◌, All, if-case, arith,
}
use deciscope_api.Diagnostics.Limits.{Limits}
use deciscope_api.Diagnostics.Details.{Value, Fields, no_fields, field, Patterns}
use deciscope_api.Diagnostics.Shrink.{SizedKey, stays, sink, sort_back, turn, size_or, sized_keys}

-- No entry is larger than an earlier one.
abbrev pub AreFalling : List SizedKey → Type 0
AreFalling [] = Unit
AreFalling (k ∷ ks) = All (λ l. l.size ≤ k.size) ks × AreFalling ks

-- No entry is smaller than an earlier one, nor than the bound.
abbrev AreRising : ℕ → List SizedKey → Type 0
AreRising least [] = Unit
AreRising least (k ∷ ks) = (least ≤ k.size) × AreRising k.size ks

sink-AreRising :
    (least : ℕ) (right : SizedKey) (before : List SizedKey)
    → least ≤ right.size
    → AreRising least before
    → AreRising least (sink right before)
unfolding sink stays
sink-AreRising least right [] l h = (l, tt)
sink-AreRising least right (left ∷ before) l h =
    if-case (AreRising least) (stays left right) (right ∷ left ∷ before) (left ∷ sink right before)
      (λ q. (l, (ground (arith, q), h.1)))
      (λ q. (h.0, sink-AreRising left.size right before (ground (arith, q)) h.1))

sort_back-AreRising :
    (ks before : List SizedKey) → AreRising 0 before → AreRising 0 (sort_back ks before)
unfolding sort_back
sort_back-AreRising [] before h = h
sort_back-AreRising (k ∷ ks) before h =
    sort_back-AreRising ks (sink k before) (sink-AreRising 0 k before (omega arith) h)

below-weaken :
    (m n : ℕ) (ks : List SizedKey) → m ≤ n → All (λ l. l.size ≤ m) ks → All (λ l. l.size ≤ n) ks
below-weaken m n [] l h = tt
below-weaken m n (k ∷ ks) l h = (omega (arith, l, h.0), below-weaken m n ks l h.1)

turn-AreFalling :
    (least : ℕ) (before after : List SizedKey)
    → AreRising least before
    → All (λ l. l.size ≤ least) after
    → AreFalling after
    → AreFalling (turn before after)
unfolding turn
turn-AreFalling least [] after r b f = f
turn-AreFalling least (k ∷ before) after r b f =
    let below = below-weaken least k.size after r.0 b in
    turn-AreFalling k.size before (k ∷ after) r.1 (omega arith, below) (below, f)

-- The largest entries come first.
pub sorted-AreFalling : (ks : List SizedKey) → AreFalling (turn (sort_back ks []) [])
sorted-AreFalling ks = turn-AreFalling 0 (sort_back ks []) [] (sort_back-AreRising ks [] tt) tt tt

module _ (P : SizedKey → Type 0) where
  sink-All :
      (right : SizedKey) (before : List SizedKey)
      → P right
      → All P before
      → All P (sink right before)
  unfolding sink
  sink-All right [] p h = (p, tt)
  sink-All right (left ∷ before) p h =
      if-case (All P) (stays left right) (right ∷ left ∷ before) (left ∷ sink right before)
        (λ _. (p, h)) (λ _. (h.0, sink-All right before p h.1))

  sort_back-All :
      (ks before : List SizedKey) → All P ks → All P before → All P (sort_back ks before)
  unfolding sort_back
  sort_back-All [] before p h = h
  sort_back-All (k ∷ ks) before p h = sort_back-All ks (sink k before) p.1 (sink-All k before p.0 h)

  turn-All : (before after : List SizedKey) → All P before → All P after → All P (turn before after)
  unfolding turn
  turn-All [] after p h = h
  turn-All (k ∷ before) after p h = turn-All before (k ∷ after) p.1 (p.0, h)

  pub sorted-All : (ks : List SizedKey) → All P ks → All P (turn (sort_back ks []) [])
  sorted-All ks p = turn-All (sort_back ks []) [] (sort_back-All ks [] p tt) tt

module _ (patterns : Patterns) (size : Value → Option ℕ) (limits : Limits) where
  -- The key with the size of one of the entries; an entry that cannot be encoded counts as the limit.
  abbrev pub IsEntry : Fields → SizedKey → Type 0
  IsEntry no_fields k = ⊥
  IsEntry (field key v fs) k =
      ((k.key ≡ key) × (k.size ≡ size_or patterns size limits limits.max_details (size v)))
      ⊎ IsEntry fs k

  entries-weaken :
      (key : String) (v : Value) (fs : Fields) (ks : List SizedKey)
      → All (IsEntry fs) ks
      → All (IsEntry (field key v fs)) ks
  entries-weaken key v fs [] h = tt
  entries-weaken key v fs (k ∷ ks) h = (inr h.0, entries-weaken key v fs ks h.1)

  pub sized_keys-entries : (fs : Fields) → All (IsEntry fs) (sized_keys patterns size limits fs)
  unfolding sized_keys
  sized_keys-entries no_fields = tt
  sized_keys-entries (field key v fs) = (
    inl (refl, refl),
    entries-weaken key v fs (sized_keys patterns size limits fs) (sized_keys-entries fs),
  )
