-- ===== src/Lib.antt =====
-- Agent Tab Bridge lets an agent drive browser tabs that a user has shared with it. The companion
-- process keeps the task sessions of its controllers, each with the access that the user has
-- approved; it speaks to the browser's extension in length-prefixed messages, to a hub in
-- length-prefixed opaque frames, and to a remote end over an encrypted session channel. A relay stands
-- between the clients that drive tabs and the extension that owns them.
--
-- The files model these parts, paths from the root of the repository:
--
--   Base        texts, lists, maps, results and fixed-width numbers that the parts share. Texts are
--               lists of code units; a map keeps its entries in the order in which they were set.
--   Json        JSON values. A number that is no natural number is other_num; -0 is read as 0.
--   Framing     src/hub/framing.ts and src/companion/native-framing.ts. Decoder is the loop that
--               both decoders have (feed, finish, pendingBytes); Hub is encodeHubFrame and
--               HubFrameDecoder, Native is encodeNativeFrame and NativeMessageDecoder; Stream and
--               Bounds prove what the two share.
--   Access      src/companion/session-access.ts. Defs has a function for each of the source; Order
--               is the sort of a set; Domains, Normal and Upgrade are the proofs.
--   Sessions    src/companion/task-sessions.ts, with localRouteProvenance of
--               src/companion/endpoint-contracts.ts and isStableSessionKey of
--               src/companion/stable-session-key.ts. Types has the data, Entry what happens to one
--               session, Manager, Operations and Life the methods of TaskSessionManager, Steps all of
--               them as one step function; Invariant, Edges and Evolution are the proofs.
--   Endpoint    src/companion/endpoint-contracts.ts. Provenance is isRouteProvenance, on the routes of
--               Sessions; Keys, Reading, Guard and Accepted are the proofs of what it accepts.
--   Channel     src/companion/channel/index.ts. Defs is Direction and SecureSessionChannel, Wire the
--               layout of a frame, Replay and Delivery what holds of the frames; Handshake is what
--               both parties of the handshake call, Parties is initiateChannel and acceptChannel, and
--               Agreement relates the two channels that they make.
--   Routing     src/hub/routing.ts: the envelope of an opaque route, its encoder and its parser.
--   Hub         src/hub/service.ts. Routes is routeOpaqueFrame and what else changes the table of
--               routes, as one step function; Isolation, Table, Binding and Refusal are the proofs.
--   Browser     extensions/browser/chrome-extension/modules/session-core.js. Ownership is the owners
--               of tabs and groups; Rules says what one action ought to do and to tell, Owners and
--               Stopping prove it of any actions, with Released for the end of a session; Authority
--               is the comparison of session records, and Matching its proof.
--   Relay       extensions/browser/src/browser/extension-relay, between CDP clients and the extension.
--               Policy is classifyCdpMethod and the extension's own isPermittedPageCdpMethod of
--               chrome-extension/modules/cdp-policy.js; Protocol the messages; State the fields of
--               ExtensionRelayBridge; Targets, Claims, Extension, Requests, Jobs and Clients its methods;
--               Steps has dispose and all events as one step function. Safety is what holds of the
--               commands that the bridge sends.
--
-- Sessions uses Access for the access of a session and its upgrades, Endpoint uses both, and Hub uses the
-- envelopes of Routing and the encoder of Framing; the other parts stand alone.
-- An exception is a value of a result type, and a method that changes its object returns the object
-- it leaves. A promise is a value that says whether it is pending, resolved or rejected, a timer is
-- the time at which it is due, and what is sent to listeners and relays is a log of effects. The end
-- of an await is a step of its own, so that steps may come in any order.
--
-- The loop of the decoders runs on fuel: two rounds more than there are bytes in the buffer, which is
-- enough since every round but the first consumes a header. The decimal text of a number takes one round
-- more than the number, enough since each drops a digit. The other loops are recursion on lists.
--
-- Parameters stand for what the code calls: Platform for toLowerCase and the host name of a URL, of
-- which a proof asks that host names in lower case stay as they are; Codec for JSON, UTF-8 and
-- assertNativeMessage, of which it asks that a valid message is read back; JsonText for JSON and
-- UTF-8, of which it asks that a value is read back; Crypto for HKDF and
-- AES-GCM, of which it asks the lengths of ciphertext and tag and that what was sealed is opened;
-- KeyCrypto for keys, signatures and the texts of bytes, of which it asks that both sides of a key
-- exchange compute the same secret. Random keys and nonces are arguments.
--
-- In the browser's session core the arguments have their types, but for those that are tested for them,
-- which are options; the browser's numbers of tabs and groups are natural.
--
-- In the hub a frame is routed in one step, with the endpoints that the stored state has then; its
-- connection may have closed before. The payload of a route is never read.
--
-- In the relay a promise that is awaited is kept with what follows it; its end is a job, and jobs run in
-- any order, between other events. Messages come as JSON.parse reads them, or as none where it throws;
-- a field with a type that the protocol does not declare counts as absent. Error codes are written
-- without their sign, close reasons are left out, and sends to sockets succeed, but for the ping.
--
-- Simplifications: the tests that two routes of sessions, or two addresses at the hub, are equal compare
-- their fields, where the source compares their JSON, so those with their fields in another order
-- differ in the source only. The identifiers that the factory gives are inputs of open; one is not
-- used again while the relay of an earlier session of that name is starting. The times of timers are
-- inputs of the steps. The reason in a close frame is bytes here and text in the source. An envelope is
-- written with its fields in the order of their declaration. canonicalJson is modelled on texts and
-- objects, the values that the channel calls it with.
--
-- Not modelled: isSessionAccessDelta, the canonical bytes of records, the writers to streams, the
-- relay's server in extensions/browser, the hub's stored state and pairing, the broker, the supervisor,
-- the pairing and the command line, which are input and output around these parts or are to follow; the
-- rest of the extension's own JavaScript; the vendored PAKE library, which is another project's.
pub mod Base
pub mod Json
pub mod Framing
pub mod Access
pub mod Sessions
pub mod Channel
pub mod Routing
pub mod Hub
pub mod Relay
pub mod Browser
pub mod Endpoint
