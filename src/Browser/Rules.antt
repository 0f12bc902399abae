-- ===== src/Browser/Rules.antt =====
-- What one action does to the owners of tabs in
-- extensions/browser/chrome-extension/modules/session-core.js, as a function of the tab, and what the
-- session is told.
use agent_tab_bridge.Base.{
  ℕ, ◌≡◌, ◌≢◌, refl, sym, ap, ◌∙◌, subst, Bool, true, false, ◌&&◌, ◌||◌, Option, none, some, [],
  ◌∷◌, ◌==◌, eq_iff, contains, if◌then◌else◌, if_ind, nat_eq, list_eq, option_eq,
}
use agent_tab_bridge.Base.Maps.{
  lookup, insert, delete, lookup-insert, lookup-delete, Distinct, insert-Distinct, delete-Distinct,
}
use agent_tab_bridge.Base.Text.{Str}
use agent_tab_bridge.Browser.Ownership.{
  TabOwners, Claim, claimed, refused, may_claim, claim_tab, session_owns_tab, release_tab,
  release_session_tabs, Action, claims, releases, stops, act,
}
use agent_tab_bridge.Browser.Released.{
  lookup-without_session, without_session-Distinct, contains-session_tab_ids,
}

-- Who owns each tab.
abbrev pub owner_of : TabOwners → ℕ → Option Str
owner_of owners tab = lookup tab owners

-- A claim by a session with a name gives it a free tab; a tab with an owner stays its owner's.
abbrev pub claimed_by : Str → Option Str → Option Str
claimed_by session (some owner) = some owner
claimed_by [] none = none
claimed_by (c ∷ session) none = some (c ∷ session)

-- What an action does to the owner of one tab: a claim takes a free tab, a session releases only its
-- own tabs, and a session that stops releases all of them.
abbrev pub owner_after : Action → (ℕ → Option Str) → ℕ → Option Str
owner_after (claims session tab) f t = if tab == t then claimed_by session (f t) else f t
owner_after (releases session tab) f t = if f tab == some session && tab == t then none else f t
owner_after (stops session) f t = if f t == some session then none else f t

-- What an action returns; the tabs that a stop returns are told by their membership.
pub data Reply : Type 0 where
  claim_reply : Claim → Reply
  release_reply : Bool → Reply
  stop_reply : (ℕ → Bool) → Reply

unfoldable pub reply : Action → TabOwners → Reply
reply (claims session tab) owners = claim_reply (claim_tab owners (some session) (some tab)).1
reply (releases session tab) owners = release_reply (release_tab owners (some session) (some tab)).1
reply (stops session) owners = stop_reply (contains (release_session_tabs owners session).1)

-- What the acting session ought to be told: its claim is granted if the tab is free or its own, and is
-- otherwise refused with the owner; a release tells whether the tab was its own, and a stop which
-- tabs were.
abbrev pub answer : Action → (ℕ → Option Str) → Reply
answer (claims [] tab) f = claim_reply (refused none)
answer (claims (c ∷ session) tab) f =
    claim_reply (if f tab == none || f tab == some (c ∷ session) then claimed else refused (f tab))
answer (releases session tab) f = release_reply (f tab == some session)
answer (stops session) f = stop_reply (λ t. f t == some session)

-- No tab is owned by the empty name.
abbrev pub IsNamed : Option Str → Type 0
IsNamed owner = owner ≢ some []

abbrev pub AllNamed : (ℕ → Option Str) → Type 0
AllNamed f = (t : ℕ) → IsNamed (f t)

abbrev FirstDistinct {ℓ} : {A : Type ℓ} → TabOwners × A → Type 0
FirstDistinct p = Distinct p.0

abbrev pick_claim : Bool → TabOwners → TabOwners → Option Str → TabOwners × Claim
pick_claim b given owners owner = if b then (given, claimed) else (owners, refused owner)

abbrev pick_released : Bool → TabOwners → TabOwners → TabOwners × Bool
pick_released b given owners = if b then (given, true) else (owners, false)

claim_case :
    (session : Str) (tab t : ℕ) (owners : TabOwners) (owner : Option Str) (b : Bool)
    → lookup t (pick_claim b (insert tab session owners) owners owner).0
      ≡ (if b && tab == t then some session else lookup t owners)
claim_case session tab t owners owner true = lookup-insert tab t session owners
claim_case session tab t owners owner false = refl

release_case :
    (tab t : ℕ) (owners : TabOwners) (b : Bool)
    → lookup t (pick_released b (delete tab owners) owners).0
      ≡ (if b && tab == t then none else lookup t owners)
release_case tab t owners true = lookup-delete tab t owners
release_case tab t owners false = refl

claimed_answer :
    (b : Bool) (given owners : TabOwners) (owner : Option Str)
    → (pick_claim b given owners owner).1 ≡ (if b then claimed else refused owner)
claimed_answer true given owners owner = refl
claimed_answer false given owners owner = refl

released_answer : (b : Bool) (given owners : TabOwners) → (pick_released b given owners).1 ≡ b
released_answer true given owners = refl
released_answer false given owners = refl

-- The guard of `claimTab`, where no owner has the empty name.
may_claim-free_or_own :
    (c : ℕ) (session : Str) (owner : Option Str)
    → IsNamed owner
    → may_claim (c ∷ session) owner ≡ (owner == none || owner == some (c ∷ session))
may_claim-free_or_own c session none n = refl
may_claim-free_or_own c session (some []) n = elim (n refl) [ ]
may_claim-free_or_own c session (some (d ∷ owner)) n = refl

abbrev IsOwner : ℕ → Str → Option Str → Type 0
IsOwner d owner o = o ≡ some (d ∷ owner)

may_claim-claimed_by :
    (c : ℕ) (session : Str) (owner : Option Str)
    → IsNamed owner
    → (if may_claim (c ∷ session) owner then some (c ∷ session) else owner)
      ≡ claimed_by (c ∷ session) owner
may_claim-claimed_by c session none n = refl
may_claim-claimed_by c session (some []) n = elim (n refl) [ ]
may_claim-claimed_by c session (some (d ∷ owner)) n =
    if_ind (IsOwner d owner) ((d ∷ owner) == (c ∷ session))
      (λ e. ap some (sym ((eq_iff (d ∷ owner) (c ∷ session)).0 e))) (λ e. refl)

-- The test of the tab, before that of the guard.
tab_first :
    (may same : Bool) (x y z : Option Str)
    → (same ≡ true → (if may then x else y) ≡ z)
    → (if may && same then x else y) ≡ (if same then z else y)
tab_first true true x y z k = k refl
tab_first true false x y z k = refl
tab_first false true x y z k = k refl
tab_first false false x y z k = refl

pub act-owner_after :
    (a : Action) (owners : TabOwners)
    → Distinct owners
    → AllNamed (owner_of owners)
    → owner_of (act a owners) ≡ owner_after a (owner_of owners)
unfolding act claim_tab release_tab session_owns_tab release_session_tabs
act-owner_after (claims [] tab) owners d n = λ i t. unclaimed (tab == t) (lookup t owners) i
  where
    unclaimed : (same : Bool) (o : Option Str) → o ≡ (if same then claimed_by [] o else o)
    unclaimed true none = refl
    unclaimed true (some owner) = refl
    unclaimed false o = refl
act-owner_after (claims (c ∷ session) tab) owners d n = λ i t.
    (claim_case (c ∷ session) tab t owners (lookup tab owners)
          (may_claim (c ∷ session) (lookup tab owners))
        ∙ tab_first (may_claim (c ∷ session) (lookup tab owners)) (tab == t) (some (c ∷ session))
            (lookup t owners) (claimed_by (c ∷ session) (lookup t owners))
            (λ e.
              subst
                (λ k.
                  (if may_claim (c ∷ session) (lookup k owners)
                    then some (c ∷ session)
                    else lookup t owners)
                  ≡ claimed_by (c ∷ session) (lookup t owners))
                (sym ((eq_iff tab t).0 e))
                (may_claim-claimed_by c session (lookup t owners) (n t))))
      i
act-owner_after (releases session tab) owners d n =
    λ i t. release_case tab t owners (lookup tab owners == some session) i
act-owner_after (stops session) owners d n = λ i t. lookup-without_session owners session t d i

pub reply-answer :
    (a : Action) (owners : TabOwners)
    → Distinct owners
    → AllNamed (owner_of owners)
    → reply a owners ≡ answer a (owner_of owners)
unfolding reply claim_tab release_tab session_owns_tab release_session_tabs
reply-answer (claims [] tab) owners d n = refl
reply-answer (claims (c ∷ session) tab) owners d n =
    let owner = lookup tab owners in
    ap claim_reply (
      claimed_answer (may_claim (c ∷ session) owner) (insert tab (c ∷ session) owners) owners owner
      ∙ ap (λ b. if b then claimed else refused owner)
          (may_claim-free_or_own c session owner (n tab)))
reply-answer (releases session tab) owners d n =
    ap release_reply
      (released_answer (lookup tab owners == some session) (delete tab owners) owners)
reply-answer (stops session) owners d n =
    λ i. stop_reply (λ t. contains-session_tab_ids owners session t d i)

pub act-Distinct : (a : Action) (owners : TabOwners) → Distinct owners → Distinct (act a owners)
unfolding act claim_tab release_tab release_session_tabs
act-Distinct (claims [] tab) owners d = d
act-Distinct (claims (c ∷ session) tab) owners d =
    if_ind FirstDistinct (may_claim (c ∷ session) (lookup tab owners))
      (λ e. insert-Distinct tab (c ∷ session) owners d) (λ e. d)
act-Distinct (releases session tab) owners d =
    if_ind FirstDistinct (session_owns_tab owners (some session) (some tab))
      (λ e. delete-Distinct tab owners d) (λ e. d)
act-Distinct (stops session) owners d = without_session-Distinct owners session d

claimed_by-IsNamed : (session : Str) (o : Option Str) → IsNamed o → IsNamed (claimed_by session o)
claimed_by-IsNamed session (some owner) n = n
claimed_by-IsNamed [] none n = n
claimed_by-IsNamed (c ∷ session) none n = λ e. cc

owner_after-AllNamed : (a : Action) (f : ℕ → Option Str) → AllNamed f → AllNamed (owner_after a f)
owner_after-AllNamed (claims session tab) f n t =
    if_ind IsNamed (tab == t) (λ e. claimed_by-IsNamed session (f t) (n t)) (λ e. n t)
owner_after-AllNamed (releases session tab) f n t =
    if_ind IsNamed (f tab == some session && tab == t) (λ e h. cc) (λ e. n t)
owner_after-AllNamed (stops session) f n t =
    if_ind IsNamed (f t == some session) (λ e h. cc) (λ e. n t)

pub act-AllNamed :
    (a : Action) (owners : TabOwners)
    → Distinct owners
    → AllNamed (owner_of owners)
    → AllNamed (owner_of (act a owners))
act-AllNamed a owners d n =
    subst AllNamed (sym (act-owner_after a owners d n)) (owner_after-AllNamed a (owner_of owners) n)
