-- ===== src/Routing/Envelope.antt =====
-- The envelope of an opaque route: `encodeHubOpaqueRoute` and `parseHubOpaqueRoute` of
-- src/hub/routing.ts. JSON and UTF-8 are a parameter, and what is not returned is an error.
use agent_tab_bridge.Base.{
  ℕ, ◌≡◌, refl, ap, ◌∙◌, Bool, true, false, not, ◌&&◌, ◌||◌, Option, none, some, ltb, ◌==◌,
  if◌then◌else◌, length, take, drop, nat_eq, list_eq, nat_beq,
}
use agent_tab_bridge.Base.Results.{Result, ok, err, ◌>>=◌, ◌>>◌, throw_if, throw_if-eq-ok}
use agent_tab_bridge.Base.Text.{Str, codes, all_of, is_alphanumeric}
use agent_tab_bridge.Json.{Json, str, obj, end, field, get, key_count, has_own}

-- The UTF-8 bytes of JSON texts. A value that was written is read back.
pub record JsonText : Type 1 where
  pub Frame : Type 0
  pub to_bytes : Json → Frame
  pub from_bytes : Frame → Option Json
  pub from_to : (j : Json) → from_bytes (to_bytes j) ≡ some j

pub data RouteFailure : Type 0 where
  invalid_envelope : RouteFailure

abbrev pub Routed : Type 0 → Type 0
Routed A = Result {0, 0} RouteFailure A

pub data Direction : Type 0 where
  request response close : Direction

-- `RoutedBrokerAddress`.
pub record Address : Type 0 where
  pub machine_id : Str
  pub endpoint_id : Str
  pub principal_id : Str
  pub stable_session_key : Str

-- `HubOpaqueRouteEnvelope`, whose type is always the same.
pub record Envelope : Type 0 where
  pub direction : Direction
  pub route_id : Str
  pub stream_id : Str
  pub address : Address
  pub payload : Str

abbrev is_print_char : ℕ → Bool
is_print_char c =
    is_alphanumeric c
    || nat_beq c b'+'
    || nat_beq c b'/'
    || nat_beq c b'='
    || nat_beq c b'_'
    || nat_beq c b'-'

abbrev within : ℕ → Str → Bool
within max s = not (length s == 0) && not (ltb max (length s))

-- `fingerprint`.
unfoldable pub is_fingerprint : Str → Bool
is_fingerprint s =
    take 7 s == codes "sha256/" && within 249 (drop 7 s) && all_of is_print_char (drop 7 s)

abbrev is_name_char : ℕ → Bool
is_name_char c =
    is_alphanumeric c || nat_beq c b'.' || nat_beq c b'_' || nat_beq c b':' || nat_beq c b'-'

-- `identifier`.
unfoldable pub is_identifier : Str → Bool
is_identifier s = within 256 s && all_of is_name_char s

-- `payload`.
unfoldable pub is_payload : Str → Bool
is_payload s =
    within 1398104 s && all_of (λ c. is_alphanumeric c || nat_beq c b'_' || nat_beq c b'-') s

abbrev pub valid_address : Address → Bool
valid_address a =
    is_fingerprint a.machine_id
    && is_fingerprint a.endpoint_id
    && is_fingerprint a.principal_id
    && is_identifier a.stable_session_key

abbrev pub valid_envelope : Envelope → Bool
valid_envelope e =
    valid_address e.address
    && is_identifier e.route_id
    && is_identifier e.stream_id
    && is_payload e.payload

abbrev direction_name : Direction → Str
direction_name request = codes "request"
direction_name response = codes "response"
direction_name close = codes "close"

abbrev address_json : Address → Json
address_json a = obj (
    field (codes "machineId") (str a.machine_id) (
      field (codes "endpointId") (str a.endpoint_id) (
        field (codes "principalId") (str a.principal_id)
          (field (codes "stableSessionKey") (str a.stable_session_key) end))))

abbrev pub envelope_json : Envelope → Json
envelope_json e = obj (
    field (codes "type") (str (codes "opaqueRoute")) (
      field (codes "direction") (str (direction_name e.direction)) (
        field (codes "routeId") (str e.route_id) (
          field (codes "streamId") (str e.stream_id) (
            field (codes "address") (address_json e.address)
              (field (codes "payload") (str e.payload) end))))))

-- `encodeHubOpaqueRoute`.
unfoldable pub encode_hub_opaque_route : (json : JsonText) → Envelope → Routed json.Frame
encode_hub_opaque_route json e =
    throw_if (not (valid_envelope e)) invalid_envelope >> ok (json.to_bytes (envelope_json e))

abbrev text_value : Json → Routed Str
text_value (str s) = ok s
text_value _ = err invalid_envelope

abbrev read_direction : Str → Routed Direction
read_direction s =
    if s == codes "request"
    then ok request
    else if s == codes "response"
    then ok response
    else if s == codes "close"
    then ok close
    else err invalid_envelope

-- `isRoutedBrokerAddress`, up to the tests of the four texts.
unfoldable pub read_address : Json → Routed Address
read_address (obj fs) = do
  throw_if
      (not (
        key_count fs == 4
        && has_own (codes "machineId") fs
        && has_own (codes "endpointId") fs
        && has_own (codes "principalId") fs
        && has_own (codes "stableSessionKey") fs))
      invalid_envelope
  machine ← text_value (get (codes "machineId") fs)
  endpoint ← text_value (get (codes "endpointId") fs)
  principal ← text_value (get (codes "principalId") fs)
  key ← text_value (get (codes "stableSessionKey") fs)
  ok (record {
    machine_id = machine;
    endpoint_id = endpoint;
    principal_id = principal;
    stable_session_key = key;
  })
read_address _ = err invalid_envelope

abbrev keep_valid : Envelope → Routed Envelope
keep_valid e = if valid_envelope e then ok e else err invalid_envelope

-- The tests of `parseHubOpaqueRoute` on a JSON value.
unfoldable pub read_envelope : Json → Routed Envelope
unfolding read_address
read_envelope (obj fs) = do
  throw_if (not (key_count fs == 6)) invalid_envelope
  name ← text_value (get (codes "type") fs)
  throw_if (not (name == codes "opaqueRoute")) invalid_envelope
  way ← text_value (get (codes "direction") fs)
  direction ← read_direction way
  route ← text_value (get (codes "routeId") fs)
  stream ← text_value (get (codes "streamId") fs)
  address ← read_address (get (codes "address") fs)
  payload ← text_value (get (codes "payload") fs)
  keep_valid (record {
    direction = direction;
    route_id = route;
    stream_id = stream;
    address = address;
    payload = payload;
  })
read_envelope _ = err invalid_envelope

abbrev read_parsed : Option Json → Routed Envelope
read_parsed none = err invalid_envelope
read_parsed (some j) = read_envelope j

-- `parseHubOpaqueRoute`.
unfoldable pub parse_hub_opaque_route : (json : JsonText) → json.Frame → Routed Envelope
parse_hub_opaque_route json frame = read_parsed (json.from_bytes frame)

read_envelope-envelope_json : (e : Envelope) → read_envelope (envelope_json e) ≡ keep_valid e
unfolding read_envelope read_address get key_count has_own
read_envelope-envelope_json e = go e.direction
  where
    go :
        (d : Direction)
        → read_envelope (envelope_json (record e { direction = d }))
          ≡ keep_valid (record e { direction = d })
    go request = refl
    go response = refl
    go close = refl

ok_inj : {A : Type 0} (a b : A) → ◌≡◌ {A = Routed A} (ok a) (ok b) → b ≡ a
ok_inj a b h = cc

kept : (e : Envelope) → not (valid_envelope e) ≡ false → keep_valid e ≡ ok e
kept e h = go (valid_envelope e) h
  where
    go :
        (b : Bool)
        → not b ≡ false
        → ◌≡◌ {A = Routed Envelope} (if b then ok e else err invalid_envelope) (ok e)
    go true k = refl
    go false k = cc

-- An envelope that `encodeHubOpaqueRoute` takes is parsed back by `parseHubOpaqueRoute` as it was.
pub parse-encode_hub_opaque_route :
    (json : JsonText) (e : Envelope) (frame : json.Frame)
    → encode_hub_opaque_route json e ≡ ok frame
    → parse_hub_opaque_route json frame ≡ ok e
unfolding encode_hub_opaque_route parse_hub_opaque_route
parse-encode_hub_opaque_route json e frame h =
    let (fine, h1) =
      throw_if-eq-ok (not (valid_envelope e)) invalid_envelope
        (ok (json.to_bytes (envelope_json e))) h in
    let same : frame ≡ json.to_bytes (envelope_json e) =
      ok_inj (json.to_bytes (envelope_json e)) frame h1 in
    ap (λ (b : json.Frame). read_parsed (json.from_bytes b)) same
    ∙ ap read_parsed (json.from_to (envelope_json e))
    ∙ read_envelope-envelope_json e
    ∙ kept e fine
