-- ===== src/Annotations/Mcp/Modes.antt =====
-- Which mode of MCP the annotations of an ingress leave its routes in.
use ingress_controller.Annotations.Mcp.{
  apply_mcp_annotations, apply_mcp_client_annotations, apply_mcp_server_annotations,
}
use ingress_controller.Externals.{Externals, route_id_eq}
use ingress_controller.Gateway.RefKey.{ref_key_eq}
use ingress_controller.Prelude.{
  Bool, Option, String, arith, if◌then◌else◌, is_empty, nat_eq, ok, some, string_eq, true, ◌||◌,
  ◌≡◌,
}
use ingress_controller.Prelude.Map.{Map}
use ingress_controller.Prelude.Text.{char_eq}
use ingress_controller.Route.{Mcp, Route, mcp_client_mode, mcp_server_mode}
use ingress_controller.Types.{key_eq, namespaced_name_eq, secret_type_eq}

pub data Mode : Type 0 where
  no_mcp server client : Mode

abbrev pub mode_of : Option Mcp → Mode
mode_of (some (mcp_server_mode s)) = server
mode_of (some mcp_client_mode) = client
mode_of _ = no_mcp

abbrev pub annotated_mode : Bool → Bool → Mode
annotated_mode no_server no_client =
    if no_server then (if no_client then no_mcp else client) else server

server_mode :
    (x : Externals) (kvs : Map String String) (r : Route) {s : Route}
    → apply_mcp_server_annotations x kvs r ≡ ok s
    → mode_of s.mcp ≡ server
unfolding apply_mcp_server_annotations
server_mode x kvs r h = ground arith

client_mode :
    (x : Externals) (kvs : Map String String) (r : Route) {s : Route}
    → apply_mcp_client_annotations x kvs r ≡ ok s
    → mode_of s.mcp ≡ client
unfolding apply_mcp_client_annotations
client_mode x kvs r h = ground arith

-- If the annotations of MCP are accepted, they are not of a server and of a client at once, and the
-- route has the mode that they are of: without any, none, whatever a secret has set before.
pub mode-apply_mcp_annotations :
    (x : Externals) (server_kvs client_kvs : Map String String) (r s : Route)
    → apply_mcp_annotations x server_kvs client_kvs r ≡ ok s
    → (is_empty server_kvs || is_empty client_kvs ≡ true)
      × (mode_of s.mcp ≡ annotated_mode (is_empty server_kvs) (is_empty client_kvs))
unfolding apply_mcp_annotations
mode-apply_mcp_annotations x server_kvs client_kvs r s h =
    ground (arith, server_mode x server_kvs r {s = s}, client_mode x client_kvs r {s = s})
