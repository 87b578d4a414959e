-- ===== src/Diagnostics/Limits.antt =====
-- The limits of the diagnostics of the clients, and texts cut at a number of bytes
-- (internal/application/client_diagnostics.go). A text is valid UTF-8, so the cut ends at the last
-- whole rune.
use Prim.Native.Char.{len_utf8}
use deciscope_api.Base.{String, ℕ, ◌+◌, ◌-◌, ◌*◌, ℤ, pos, negsuc, if◌then◌else◌, leb, ◌==◌}
use deciscope_api.Base.Clock.{second}

pub record LimitsInput : Type 0 where
  pub max_events_per_request : ℤ
  pub max_details_bytes : ℤ
  pub max_string_bytes : ℤ
  pub max_identifier_bytes : ℤ
  pub max_route_bytes : ℤ
  pub max_details_depth : ℤ
  pub max_details_keys : ℤ
  pub max_details_array_items : ℤ
  pub throttle_window : ℤ
  pub throttle_entries : ℤ

-- The limits in force: all but the window are positive.
pub record Limits : Type 0 where
  pub max_events : ℕ
  pub max_details : ℕ
  pub max_string : ℕ
  pub max_identifier : ℕ
  pub max_route : ℕ
  pub max_depth : ℕ
  pub max_keys : ℕ
  pub max_items : ℕ
  pub window : ℕ
  pub max_entries : ℕ

positive_or : ℤ → ℕ → ℕ
positive_or (pos n) fallback = if n == 0 then fallback else n
positive_or (negsuc n) fallback = fallback

not_negative_or : ℤ → ℕ → ℕ
not_negative_or (pos n) fallback = n
not_negative_or (negsuc n) fallback = fallback

unfoldable pub default_limits : Limits
default_limits = record {
  max_events = 100;
  max_details = 32 * 1024;
  max_string = 4096;
  max_identifier = 128;
  max_route = 512;
  max_depth = 6;
  max_keys = 80;
  max_items = 200;
  window = second;
  max_entries = 4096;
}

unfoldable pub with_defaults : LimitsInput → Limits
unfolding positive_or not_negative_or default_limits
with_defaults l = record {
  max_events = positive_or l.max_events_per_request default_limits.max_events;
  max_details = positive_or l.max_details_bytes default_limits.max_details;
  max_string = positive_or l.max_string_bytes default_limits.max_string;
  max_identifier = positive_or l.max_identifier_bytes default_limits.max_identifier;
  max_route = positive_or l.max_route_bytes default_limits.max_route;
  max_depth = positive_or l.max_details_depth default_limits.max_depth;
  max_keys = positive_or l.max_details_keys default_limits.max_keys;
  max_items = positive_or l.max_details_array_items default_limits.max_items;
  window = not_negative_or l.throttle_window default_limits.window;
  max_entries = positive_or l.throttle_entries default_limits.max_entries;
}

-- `len(s)`
unfoldable pub byte_length : String → ℕ
byte_length String.[] = 0
byte_length (String.◌∷◌ c s) = len_utf8 c + byte_length s

-- The runes that lie within the first `room` bytes.
unfoldable pub fitting : ℕ → String → String
fitting room String.[] = String.[]
fitting room (String.◌∷◌ c s) =
    let kept = fitting (room - len_utf8 c) s in
    if leb (len_utf8 c) room then String.◌∷◌ c kept else String.[]

unfoldable pub clamp_text : String → ℕ → String
unfolding byte_length fitting
clamp_text s limit =
    if limit == 0 then s else if leb (byte_length s) limit then s else fitting limit s
