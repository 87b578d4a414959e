-- ===== src/Diagnostics/Redaction.antt =====
-- The secrets in the details (internal/application/client_diagnostics.go).
use deciscope_api.Base.{
  String, ℕ, zero, suc, ◌≡◌, refl, sym, ap, ◌∙◌, Bool, true, false, not, ◌&&◌, ◌||◌, if◌then◌else◌,
  if-true,
}
use deciscope_api.Diagnostics.Limits.{Limits, clamp_text}
use deciscope_api.Diagnostics.Details.{
  Value, null, text, flag, number, object, array, foreign, Fields, no_fields, field, Items,
  no_items, item, Patterns, redacted_placeholder, should_redact_key, is_null, is_numeric, set_field,
  put_entry, sanitize_value, sanitize_fields, sanitize_items,
}

mutual
  -- Two values that differ at most in what stands under keys that are redacted.
  pub data Alike : Value → Value → Type 0 where
    alike_null : Alike null null
    alike_text : (s : String) → Alike (text s) (text s)
    alike_flag : (b : Bool) → Alike (flag b) (flag b)
    alike_number : (n : String) → Alike (number n) (number n)
    alike_foreign : Alike foreign foreign
    alike_object : {fs gs : Fields} → AlikeFields fs gs → Alike (object fs) (object gs)
    alike_array : {is js : Items} → AlikeItems is js → Alike (array is) (array js)

  pub data AlikeFields : Fields → Fields → Type 0 where
    no_secrets : AlikeFields no_fields no_fields
    hidden :
        (key : String) (v w : Value) {fs gs : Fields}
        → should_redact_key key v ≡ true
        → should_redact_key key w ≡ true
        → AlikeFields fs gs
        → AlikeFields (field key v fs) (field key w gs)
    shown :
        (key : String) {v w : Value} {fs gs : Fields}
        → Alike v w
        → AlikeFields fs gs
        → AlikeFields (field key v fs) (field key w gs)

  pub data AlikeItems : Items → Items → Type 0 where
    no_more : AlikeItems no_items no_items
    then_item :
        {v w : Value} {is js : Items}
        → Alike v w
        → AlikeItems is js
        → AlikeItems (item v is) (item w js)

Alike-is_null : {v w : Value} → Alike v w → is_null v ≡ is_null w
unfolding is_null
Alike-is_null alike_null = refl
Alike-is_null (alike_text s) = refl
Alike-is_null (alike_flag b) = refl
Alike-is_null (alike_number n) = refl
Alike-is_null alike_foreign = refl
Alike-is_null (alike_object h) = refl
Alike-is_null (alike_array h) = refl

should_redact_key-Alike :
    (key : String) {v w : Value} → Alike v w → should_redact_key key v ≡ should_redact_key key w
unfolding should_redact_key is_numeric
should_redact_key-Alike key alike_null = refl
should_redact_key-Alike key (alike_text s) = refl
should_redact_key-Alike key (alike_flag b) = refl
should_redact_key-Alike key (alike_number n) = refl
should_redact_key-Alike key alike_foreign = refl
should_redact_key-Alike key (alike_object h) = refl
should_redact_key-Alike key (alike_array h) = refl

module _ (patterns : Patterns) (limits : Limits) where
  put_entry-hidden :
      (key : String) (v w : Value) (s t : Value × Bool) (done : Fields × Bool)
      → should_redact_key key v ≡ true
      → should_redact_key key w ≡ true
      → put_entry patterns limits key v s done ≡ put_entry patterns limits key w t done
  unfolding put_entry
  put_entry-hidden key v w s t done p q =
      if-true (should_redact_key key v) _ _ p ∙ sym (if-true (should_redact_key key w) _ _ q)

  put_entry-Alike :
      (key : String) {v w : Value} (s : Value × Bool) (done : Fields × Bool)
      → Alike v w
      → put_entry patterns limits key v s done ≡ put_entry patterns limits key w s done
  unfolding put_entry
  put_entry-Alike key s done h =
      let safe = clamp_text key limits.max_identifier in
      let entry : Bool → Bool → Fields × Bool = λ redacted absent.
        if redacted
        then (set_field safe (text redacted_placeholder) done.0, done.1)
        else if is_null s.0 && not absent
        then (done.0, done.1 || s.1)
        else (set_field safe s.0 done.0, done.1 || s.1) in
      λ i. entry (should_redact_key-Alike key h i) (Alike-is_null h i)

  mutual
    unfolding sanitize_value

    sanitize_value-Alike :
        {v w : Value} (h : Alike v w) (deeper : ℕ)
        → sanitize_value patterns limits v deeper ≡ sanitize_value patterns limits w deeper
    sanitize_value-Alike h zero = refl
    sanitize_value-Alike alike_null (suc deeper) = refl
    sanitize_value-Alike (alike_text s) (suc deeper) = refl
    sanitize_value-Alike (alike_flag b) (suc deeper) = refl
    sanitize_value-Alike (alike_number n) (suc deeper) = refl
    sanitize_value-Alike alike_foreign (suc deeper) = refl
    sanitize_value-Alike (alike_object h) (suc deeper) =
        ap (λ (r : Fields × Bool). (object r.0, r.1))
          (sanitize_fields-Alike h deeper limits.max_keys (no_fields, false))
    sanitize_value-Alike (alike_array h) (suc deeper) =
        ap (λ (r : Items × Bool). (array r.0, r.1)) (sanitize_items-Alike h deeper limits.max_items)

    sanitize_fields-Alike :
        {fs gs : Fields} (h : AlikeFields fs gs) (deeper room : ℕ) (done : Fields × Bool)
        → sanitize_fields patterns limits fs deeper room done
          ≡ sanitize_fields patterns limits gs deeper room done
    sanitize_fields-Alike no_secrets deeper room done = refl
    sanitize_fields-Alike (hidden key v w p q h) deeper zero done = refl
    sanitize_fields-Alike (hidden key v w {fs} {gs} p q h) deeper (suc room) done =
        ap (sanitize_fields patterns limits fs deeper room) (
          put_entry-hidden key v w (sanitize_value patterns limits v deeper)
            (sanitize_value patterns limits w deeper) done p q)
        ∙ sanitize_fields-Alike h deeper room _
    sanitize_fields-Alike (shown key a h) deeper zero done = refl
    sanitize_fields-Alike (shown key {v} {w} {fs} {gs} a h) deeper (suc room) done =
        ap
          (λ s.
            sanitize_fields patterns limits fs deeper room (put_entry patterns limits key v s done))
          (sanitize_value-Alike a deeper)
        ∙ ap (sanitize_fields patterns limits fs deeper room)
            (put_entry-Alike key (sanitize_value patterns limits w deeper) done a)
        ∙ sanitize_fields-Alike h deeper room _

    sanitize_items-Alike :
        {is js : Items} (h : AlikeItems is js) (deeper room : ℕ)
        → sanitize_items patterns limits is deeper room
          ≡ sanitize_items patterns limits js deeper room
    sanitize_items-Alike no_more deeper room = refl
    sanitize_items-Alike (then_item a h) deeper zero = refl
    sanitize_items-Alike (then_item a h) deeper (suc room) =
        let b = sanitize_value-Alike a deeper in
        let c = sanitize_items-Alike h deeper room in
        λ i. (item (b i).0 (c i).0, (b i).1 || (c i).1)

  -- What stands under the keys that are redacted leaves no trace: two values that differ at most
  -- there, at any level, are sanitized to the same.
  pub secrets-hidden :
      (v w : Value) (deeper : ℕ)
      → Alike v w
      → sanitize_value patterns limits v deeper ≡ sanitize_value patterns limits w deeper
  secrets-hidden v w deeper h = sanitize_value-Alike h deeper
