-- ===== src/Client/Reports.antt =====
-- What the calls of GatewayStatusClient in src/gateway_status_client.cpp result in, and what they leave in
-- the client.
use wh_repeater.Common.{ℕ, not, Option, ◌≡◌, is_some}
use wh_repeater.Client.{GatewayStatusClient}
use wh_repeater.Client.Expected.{Result}

-- A result that is expected, an error if and only if there is none, and the time of the next poll.
abbrev IsReport : Option Result → ℕ → GatewayStatusClient × Option Result → Type 0
IsReport wanted next x =
    (x.1 ≡ wanted) × (is_some x.0.last_error ≡ not (is_some x.1)) × (x.0.next_poll ≡ next)
