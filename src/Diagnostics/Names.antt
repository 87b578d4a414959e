-- ===== src/Diagnostics/Names.antt =====
-- The names of the diagnostic events (internal/domain/client_diagnostics.go).
use deciscope_api.Base.{String, Bool, false, ◌||◌, List, [], ◌∷◌, str_eq}

abbrev event_names : List String
event_names =
    "tree_store_initialized" ∷ "tree_component_mounted" ∷ "tree_component_unmounted"
    ∷ "session_hook_created" ∷ "session_hook_disposed" ∷ "rest_fetch_started"
    ∷ "rest_snapshot_received" ∷ "ws_connected" ∷ "ws_disconnected" ∷ "ws_reconnecting"
    ∷ "ws_snapshot_received" ∷ "snapshot_adopted" ∷ "snapshot_rejected" ∷ "tree_state_changed"
    ∷ "tree_became_empty" ∷ "tree_render_state" ∷ "tree_render_anomaly" ∷ "tree_render_recovery"
    ∷ "tree_visibility_unhealthy" ∷ "tree_visibility_recovered" ∷ "tree_manual_view_reset"
    ∷ "tree_swap_started" ∷ "tree_pending_ready" ∷ "tree_swap_committed" ∷ "tree_swap_failed"
    ∷ "tree_swap_kept_previous" ∷ "tree_manual_reset_started"
    ∷ "tree_manual_reset_ignored_duplicate" ∷ "tree_manual_reset_completed"
    ∷ "store_reset_requested" ∷ "store_reset_executed" ∷ "route_changed" ∷ "react_error_captured"
    ∷ []

abbrev critical_names : List String
critical_names =
    "tree_became_empty" ∷ "tree_render_anomaly" ∷ "tree_render_recovery"
    ∷ "tree_visibility_unhealthy" ∷ "tree_visibility_recovered" ∷ "tree_manual_view_reset"
    ∷ "tree_swap_failed" ∷ "tree_swap_kept_previous" ∷ "tree_manual_reset_completed"
    ∷ "react_error_captured" ∷ "tree_store_initialized" ∷ "tree_component_mounted"
    ∷ "tree_component_unmounted" ∷ "session_hook_created" ∷ "session_hook_disposed"
    ∷ "store_reset_requested" ∷ "store_reset_executed" ∷ []

is_one_of : List String → String → Bool
is_one_of [] name = false
is_one_of (n ∷ ns) name = str_eq n name || is_one_of ns name

-- `IsKnownClientDiagnosticEvent`
unfoldable pub is_known_event : String → Bool
unfolding is_one_of
is_known_event name = is_one_of event_names name

-- `IsCriticalClientDiagnosticEvent`
unfoldable pub is_critical_event : String → Bool
unfolding is_one_of
is_critical_event name = is_one_of critical_names name
