-- ===== src/Routing/Tests.antt =====
-- An envelope of src/hub/routing.ts over texts that stay values.
use agent_tab_bridge.Base.{◌≡◌, refl, some, list_eq, nat_eq}
use agent_tab_bridge.Base.Results.{ok}
use agent_tab_bridge.Base.Text.{codes, is_alphanumeric, is_lower, is_upper, is_digit}
use agent_tab_bridge.Json.{Json}
use agent_tab_bridge.Routing.Envelope.{
  JsonText, request, Envelope, envelope_json, encode_hub_opaque_route, parse_hub_opaque_route,
  is_fingerprint, is_identifier, is_payload, parse-encode_hub_opaque_route,
}

abbrev values : JsonText
values = record { Frame = Json; to_bytes = λ j. j; from_bytes = λ j. some j; from_to = λ j. refl }

abbrev some_request : Envelope
some_request = record {
  direction = request;
  route_id = codes "r-1";
  stream_id = codes "s.1";
  address = record {
    machine_id = codes "sha256/aA+";
    endpoint_id = codes "sha256/b";
    principal_id = codes "sha256/c";
    stable_session_key = codes "k";
  };
  payload = codes "QQ";
}

some_request-encoded : encode_hub_opaque_route values some_request ≡ ok (envelope_json some_request)
unfolding encode_hub_opaque_route is_fingerprint is_identifier is_payload is_alphanumeric is_lower
    is_upper is_digit
some_request-encoded = refl

parse-encode_hub_opaque_route_example :
    parse_hub_opaque_route values (envelope_json some_request) ≡ ok some_request
parse-encode_hub_opaque_route_example =
    parse-encode_hub_opaque_route values some_request (envelope_json some_request)
      some_request-encoded
