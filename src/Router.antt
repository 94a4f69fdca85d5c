-- ===== src/Router.antt =====
-- Which events an output takes: `flb_router_match_type` of fluent-bit/flb_router.h.
pub mod Match
mod Tests
use my_repo.Base.{ℕ, bit_and, Bool, true, false, ◌&&◌, ◌==◌, if◌then◌else◌}

abbrev pub input_logs : ℕ
input_logs = 0

abbrev pub input_metrics : ℕ
input_metrics = 1

abbrev pub input_traces : ℕ
input_traces = 2

abbrev pub output_logs : ℕ
output_logs = 1

abbrev pub output_metrics : ℕ
output_metrics = 2

abbrev pub output_traces : ℕ
output_traces = 4

-- `event_type` is the field of the output instance.
unfoldable pub router_match_type : (in_event_type event_type : ℕ) → Bool
router_match_type in_event_type event_type =
    if (in_event_type == input_logs) && (bit_and event_type output_logs == 0)
    then false
    else if (in_event_type == input_metrics) && (bit_and event_type output_metrics == 0)
    then false
    else if (in_event_type == input_traces) && (bit_and event_type output_traces == 0)
    then false
    else true
