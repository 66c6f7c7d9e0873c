-- ===== src/Logging/Tests.antt =====
-- The log at concrete inputs.
use trading_chart_viewer.Common.{◌≡◌, ◌≤◌, some, length, take}
use trading_chart_viewer.Domain.Label.{codes}
use trading_chart_viewer.Logging.{buffer_of, buffer_of_bound}

buffer_of_bound_example :
    (length (buffer_of (some (codes "a message"))) ≤ 1_023)
    × (take 1_020 (buffer_of (some (codes "a message"))) ≡ take 1_020 (codes "a message"))
buffer_of_bound_example = buffer_of_bound (codes "a message")
