-- ===== src/Relay/State.antt =====
-- The state of `ExtensionRelayBridge` of extension-relay/relay-bridge.ts, and what it sends. A
-- promise that is awaited is kept with what follows its end; an end that has come is a job, which is
-- run in a step of its own.
use agent_tab_bridge.Base.{
  ℕ, zero, suc, ◌+◌, ◌/◌, ◌%◌, Bool, false, Option, none, List, [], ◌∷◌, ◌++◌, ltb, if◌then◌else◌,
  nat_eq, list_eq,
}
use agent_tab_bridge.Base.Text.{Str, codes}
use agent_tab_bridge.Json.{Json, obj, Fields, end, field}
use agent_tab_bridge.Relay.Protocol.{TabInfo, Command}

-- `CdpRequest`, with a session identifier that is not empty.
pub record Request : Type 0 where
  pub id : Json
  pub method : Str
  pub params : Json
  pub session : Option Str

pub record Attached : Type 0 where
  pub target_id : Str
  pub session_id : Str

-- `TabState`. Its number tells it from another state that the same tab had or will have.
pub record Tab : Type 0 where
  pub ref : ℕ
  pub info : TabInfo
  pub attached : Option Attached

-- `CdpClientState`; `connected` says that the bridge's set has it.
pub record Client : Type 0 where
  pub connected : Bool
  pub auto_attach : Bool
  pub announced : List Str

-- `AuxiliaryTabSession`.
pub record Auxiliary : Type 0 where
  pub tab : ℕ
  pub parent : Str
  pub client : ℕ

pub record Identity : Type 0 where
  pub user_agent : Json
  pub browser_version : Json
  pub extension_version : Json

-- Who waits for `claimAndAttachTab`: the synchronisation of the snapshot, a request to attach all
-- tabs, by its number, and a request to attach one.
pub data Claimer : Type 0 where
  auto_attaches : ℕ → Claimer
  among_all : ℕ → ℕ → Claimer
  attaches_to : ℕ → ℕ → Request → Claimer

-- Who waits for `callExtension`.
pub data Await : Type 0 where
  forwards : ℕ → Request → Await
  attaches : ℕ → ℕ → Await
  detaches : ℕ → Request → Await
  creates : ℕ → Request → Await
  closes : ℕ → Request → Await
  activates : ℕ → Request → Await
  ignores : Await

pub data Settled : Type 0 where
  resolved : Json → Settled
  rejected : Str → Settled

-- `TabWaiter` of a request that has created a tab.
pub record Waiter : Type 0 where
  pub client : ℕ
  pub request : Request

-- The end of a promise, to be handed to who waits for it.
pub data Job : Type 0 where
  called : Await → Settled → Job
  claimed : Claimer → Attached → Job
  unclaimed : Claimer → Str → Job
  reported : ℕ → Waiter → Job
  unreported : Str → Waiter → Job

-- What a client is sent: the answer to a request, an error, or an event.
pub data Output : Type 0 where
  answer : Request → Json → Output
  failure : Json → Option Str → Str → ℕ → Output
  event : Option Str → Json → Json → Output

-- What leaves the bridge, in order.
pub data Effect : Type 0 where
  command : ℕ → Command → Effect
  ping : Effect
  close_extension : ℕ → ℕ → Effect
  tell : ℕ → Output → Effect
  close_client : ℕ → ℕ → Effect

-- The promises of one `Promise.allSettled`, by tab; a settled one has its attachment or none.
pub record Group : Type 0 where
  pub client : ℕ
  pub request : Request
  pub results : List (ℕ × Option (Option Attached))

pub record Bridge : Type 0 where
  pub extension : Option (ℕ × Identity)
  pub greeted : List (ℕ × Bool)
  pub clients : List (ℕ × Client)
  pub tabs : List (ℕ × Tab)
  pub browser_sessions : List (Str × ℕ)
  pub auxiliary : List (Str × Auxiliary)
  pub children : List (Str × ℕ)
  pub pending : List (ℕ × Await)
  pub waiters : List (ℕ × List (ℕ × Waiter))
  pub claims : List (ℕ × List Claimer)
  pub groups : List (ℕ × Group)
  pub jobs : List Job
  pub next_seq : ℕ
  pub next_session_ordinal : ℕ
  pub next_ref : ℕ
  pub pinging : Bool
  pub closing : Bool
  pub disposed : Bool
  pub log : List Effect

abbrev pub new_bridge : Bridge
new_bridge = record {
  extension = none;
  greeted = [];
  clients = [];
  tabs = [];
  browser_sessions = [];
  auxiliary = [];
  children = [];
  pending = [];
  waiters = [];
  claims = [];
  groups = [];
  jobs = [];
  next_seq = 1;
  next_session_ordinal = 1;
  next_ref = 0;
  pinging = false;
  closing = false;
  disposed = false;
  log = [];
}

-- A number in decimal, on fuel: each round drops a digit, so as many rounds as the number are enough.
unfoldable pub digits : ℕ → ℕ → Str
digits zero n = []
digits (suc fuel) n =
    let rest = digits fuel (n / 10) in
    if ltb n 10 then (b'0' + n) ∷ [] else rest ++ (b'0' + n % 10) ∷ []

unfoldable pub decimal : ℕ → Str
unfolding digits
decimal n = digits (suc n) n

-- `targetIdForTab`.
unfoldable pub target_id_for_tab : ℕ → Str
unfolding decimal
target_id_for_tab tab = codes "agent-tab-bridge-target-" ++ decimal tab

abbrev pub object : List (Str × Json) → Json
object entries = obj (fields entries)
  where
    fields : List (Str × Json) → Fields
    fields [] = end
    fields ((k, v) ∷ es) = field k v (fields es)
