-- ===== src/Browser/Owners.antt =====
-- The owners of tabs in extensions/browser/chrome-extension/modules/session-core.js, and what the
-- sessions are told, after any actions.
use agent_tab_bridge.Base.{
  ℕ, ◌≡◌, refl, true_false, sym, ap, ◌∙◌, false, ◌&&◌, &&-true, Option, none, some, List, [], ◌∷◌,
  ◌==◌, All, eq_iff, if_ind, nat_eq, list_eq, option_eq,
}
use agent_tab_bridge.Base.Maps.{lookup, Distinct}
use agent_tab_bridge.Base.Text.{Str}
use agent_tab_bridge.Browser.Ownership.{TabOwners, Action, claims, releases, stops, act, act_all}
use agent_tab_bridge.Browser.Rules.{
  owner_of, claimed_by, owner_after, Reply, reply, answer, AllNamed, act-owner_after, reply-answer,
  act-Distinct, act-AllNamed,
}

abbrev pub owner_after_all : List Action → (ℕ → Option Str) → ℕ → Option Str
owner_after_all [] f = f
owner_after_all (a ∷ rest) f = owner_after_all rest (owner_after a f)

unfoldable pub replies : List Action → TabOwners → List Reply
replies [] owners = []
replies (a ∷ rest) owners = reply a owners ∷ replies rest (act a owners)

abbrev pub answers : List Action → (ℕ → Option Str) → List Reply
answers [] f = []
answers (a ∷ rest) f = answer a f ∷ answers rest (owner_after a f)

act_all-owner_after :
    (actions : List Action) (owners : TabOwners)
    → Distinct owners
    → AllNamed (owner_of owners)
    → owner_of (act_all actions owners) ≡ owner_after_all actions (owner_of owners)
unfolding act_all
act_all-owner_after [] owners d n = refl
act_all-owner_after (a ∷ rest) owners d n =
    act_all-owner_after rest (act a owners) (act-Distinct a owners d) (act-AllNamed a owners d n)
    ∙ ap (owner_after_all rest) (act-owner_after a owners d n)

replies-answers :
    (actions : List Action) (owners : TabOwners)
    → Distinct owners
    → AllNamed (owner_of owners)
    → replies actions owners ≡ answers actions (owner_of owners)
unfolding replies
replies-answers [] owners d n = refl
replies-answers (a ∷ rest) owners d n =
    let told = reply-answer a owners d n in
    let later =
      replies-answers rest (act a owners) (act-Distinct a owners d) (act-AllNamed a owners d n)
      ∙ ap (answers rest) (act-owner_after a owners d n) in
    λ i. told i ∷ later i

none-AllNamed : AllNamed (owner_of [])
unfolding lookup
none-AllNamed t = λ e. cc

-- Whatever sessions claim, release and stop, the map has for every tab the owner that the rules give,
-- and the sessions are told what the rules give. A claim by a session with a name takes a tab that
-- is free, and leaves one with an owner to its owner; it is granted if the tab was free or its own,
-- and is refused with the owner otherwise. A session releases only its own tabs, and is told
-- whether it did. One that stops releases all of its tabs, and is told which.
pub act_all-refines :
    (actions : List Action)
    → (owner_of (act_all actions []) ≡ owner_after_all actions (λ t. none))
      × (replies actions [] ≡ answers actions (λ t. none))
unfolding lookup
act_all-refines actions =
    (act_all-owner_after actions [] tt none-AllNamed, replies-answers actions [] tt none-AllNamed)

abbrev Owns : ℕ → Str → Option Str → Type 0
Owns c session owner = owner ≡ some (c ∷ session)

-- An action that does not give up a tab of this session.
abbrev pub NotBy : Str → Action → Type 0
NotBy session (claims other tab) = Unit
NotBy session (releases other tab) = (session == other) ≡ false
NotBy session (stops other) = (session == other) ≡ false

owner_after-keeps :
    (c : ℕ) (session : Str) (t : ℕ) (a : Action) (f : ℕ → Option Str)
    → NotBy (c ∷ session) a
    → f t ≡ some (c ∷ session)
    → owner_after a f t ≡ some (c ∷ session)
owner_after-keeps c session t (claims other tab) f n h =
    if_ind (Owns c session) (tab == t) (λ e. ap (claimed_by other) h) (λ e. h)
owner_after-keeps c session t (releases other tab) f n h =
    if_ind (Owns c session) (f tab == some other && tab == t)
      (λ e.
        let p = &&-true (f tab == some other) (tab == t) e in
        let own : f tab ≡ some (c ∷ session) = ap f ((eq_iff tab t).0 p.1) ∙ h in
        true_false (sym (ap (λ o. o == some other) own) ∙ p.0) n)
      (λ e. h)
owner_after-keeps c session t (stops other) f n h =
    if_ind (Owns c session) (f t == some other)
      (λ e. true_false (sym (ap (λ o. o == some other) h) ∙ e) n) (λ e. h)

owner_after_all-keeps :
    (c : ℕ) (session : Str) (t : ℕ) (actions : List Action) (f : ℕ → Option Str)
    → All (NotBy (c ∷ session)) actions
    → f t ≡ some (c ∷ session)
    → owner_after_all actions f t ≡ some (c ∷ session)
owner_after_all-keeps c session t [] f n h = h
owner_after_all-keeps c session t (a ∷ rest) f n h =
    owner_after_all-keeps c session t rest (owner_after a f) n.1
      (owner_after-keeps c session t a f n.0 h)

pub act_all-Distinct :
    (actions : List Action) (owners : TabOwners)
    → Distinct owners
    → Distinct (act_all actions owners)
unfolding act_all
act_all-Distinct [] owners d = d
act_all-Distinct (a ∷ rest) owners d =
    act_all-Distinct rest (act a owners) (act-Distinct a owners d)

act_all-AllNamed :
    (actions : List Action) (owners : TabOwners)
    → Distinct owners
    → AllNamed (owner_of owners)
    → AllNamed (owner_of (act_all actions owners))
unfolding act_all
act_all-AllNamed [] owners d n = n
act_all-AllNamed (a ∷ rest) owners d n =
    act_all-AllNamed rest (act a owners) (act-Distinct a owners d) (act-AllNamed a owners d n)

-- A tab that a session with a name has come to own stays its own, whatever all sessions claim and the
-- others release and stop.
pub owned_tab_stays :
    (before actions : List Action) (c : ℕ) (session : Str) (t : ℕ)
    → owner_of (act_all before []) t ≡ some (c ∷ session)
    → All (NotBy (c ∷ session)) actions
    → owner_of (act_all actions (act_all before [])) t ≡ some (c ∷ session)
owned_tab_stays before actions c session t h n =
    let owners = act_all before [] in
    ap (λ f. f t)
      (act_all-owner_after actions owners (act_all-Distinct before [] tt)
        (act_all-AllNamed before [] tt none-AllNamed))
    ∙ owner_after_all-keeps c session t actions (owner_of owners) n h
