-- ===== src/Subscription/Connected.antt =====
-- A client that was given its configuration gets through (services/subscription/src/lib.rs with
-- crates/compat-config/src/render.rs and server.rs).
use vpn.Prelude.{Option, none, some, String, string_Eq, List}
use vpn.CompatConfig.Disk.{Disk}
use vpn.Subscription.{Response, json}

json_body : Response → Option String
json_body (json s) = some s
json_body _ = none
