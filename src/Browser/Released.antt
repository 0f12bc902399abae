-- ===== src/Browser/Released.antt =====
-- What `releaseSessionTabs` of extensions/browser/chrome-extension/modules/session-core.js does to each
-- tab, and which tabs it returns.
use agent_tab_bridge.Base.{
  ℕ, ◌≡◌, refl, sym, ap, ◌∙◌, subst, inl, inr, Bool, true, false, ◌||◌, Bool-cases, Option, none,
  some, [], ◌∷◌, ◌==◌, eq_iff, contains, if◌then◌else◌, if_ind, nat_eq, list_eq, option_eq,
}
use agent_tab_bridge.Base.Maps.{lookup, Distinct}
use agent_tab_bridge.Base.Text.{Str}
use agent_tab_bridge.Browser.Ownership.{TabOwners, session_tab_ids, without_session}

abbrev Lacks : ℕ → TabOwners → Type 0
Lacks t owners = lookup t owners ≡ none

abbrev OneOwner : TabOwners → Type 0
OneOwner owners = Distinct owners

-- The owner of a tab after `releaseSessionTabs`, by whether the first entry is the session's and
-- whether it is the tab's.
stop_case :
    (a b : Bool) (owner session : Str) (x w : Option Str)
    → (owner == session) ≡ a
    → (b ≡ true → x ≡ none)
    → w ≡ (if x == some session then none else x)
    → (if a then w else if b then some owner else w) ≡ (
        if (if b then some owner else x) == some session then none else if b then some owner else x)
stop_case true true owner session x w e k h =
    h
    ∙ ap (λ y. if y == some session then none else y) (k refl)
    ∙ sym (ap (λ y. if y then none else some owner) e)
stop_case true false owner session x w e k h = h
stop_case false true owner session x w e k h = sym (ap (λ y. if y then none else some owner) e)
stop_case false false owner session x w e k h = h

pub lookup-without_session :
    (owners : TabOwners) (session : Str) (t : ℕ)
    → Distinct owners
    → lookup t (without_session owners session)
      ≡ (if lookup t owners == some session then none else lookup t owners)
unfolding without_session lookup
lookup-without_session [] session t d = refl
lookup-without_session ((tab, owner) ∷ owners) session t d =
    first (owner == session)
    ∙ stop_case (owner == session) (tab == t) owner session (lookup t owners)
        (lookup t (without_session owners session)) refl
        (λ e. subst (λ i. lookup i owners ≡ none) ((eq_iff tab t).0 e) d.0)
        (lookup-without_session owners session t d.1)
  where
    first :
        (a : Bool)
        → lookup t (
            if a
            then without_session owners session
            else (tab, owner) ∷ without_session owners session)
          ≡ (if a
              then lookup t (without_session owners session)
              else if tab == t
              then some owner
              else lookup t (without_session owners session))
    first true = refl
    first false = refl

without_session_keeps_none :
    (owners : TabOwners) (session : Str) (t : ℕ)
    → lookup t owners ≡ none
    → lookup t (without_session owners session) ≡ none
unfolding without_session lookup
without_session_keeps_none [] session t h = refl
without_session_keeps_none ((tab, owner) ∷ owners) session t h = elim (Bool-cases (tab == t)) [
  | inl e ↦ cc (rw e at h)
  | inr e ↦
      let ih = without_session_keeps_none owners session t (rw e at h) in
      if_ind (Lacks t) (owner == session) (λ x. ih)
        (λ x. ap (λ b. if b then some owner else lookup t (without_session owners session)) e ∙ ih)
]

pub without_session-Distinct :
    (owners : TabOwners) (session : Str)
    → Distinct owners
    → Distinct (without_session owners session)
unfolding without_session
without_session-Distinct [] session d = tt
without_session-Distinct ((tab, owner) ∷ owners) session d =
    if_ind OneOwner (owner == session) (λ e. without_session-Distinct owners session d.1)
      (λ e. (
        without_session_keeps_none owners session tab d.0,
        without_session-Distinct owners session d.1,
      ))

-- Whether a tab is listed, by whether the first entry is the session's and whether it is the tab's.
listed_case :
    (a b : Bool) (owner session : Str) (x : Option Str) (w : Bool)
    → (owner == session) ≡ a
    → (b ≡ true → x ≡ none)
    → w ≡ (x == some session)
    → (if a then b || w else w) ≡ ((if b then some owner else x) == some session)
listed_case true true owner session x w e k h = sym e
listed_case true false owner session x w e k h = h
listed_case false true owner session x w e k h = h ∙ ap (λ y. y == some session) (k refl) ∙ sym e
listed_case false false owner session x w e k h = h

pub contains-session_tab_ids :
    (owners : TabOwners) (session : Str) (t : ℕ)
    → Distinct owners
    → contains (session_tab_ids owners session) t ≡ (lookup t owners == some session)
unfolding session_tab_ids lookup
contains-session_tab_ids [] session t d = refl
contains-session_tab_ids ((tab, owner) ∷ owners) session t d =
    first (owner == session)
    ∙ listed_case (owner == session) (tab == t) owner session (lookup t owners)
        (contains (session_tab_ids owners session) t) refl
        (λ e. subst (λ i. lookup i owners ≡ none) ((eq_iff tab t).0 e) d.0)
        (contains-session_tab_ids owners session t d.1)
  where
    first :
        (a : Bool)
        → contains
            (if a then tab ∷ session_tab_ids owners session else session_tab_ids owners session)
            t
          ≡ (if a
              then tab == t || contains (session_tab_ids owners session) t
              else contains (session_tab_ids owners session) t)
    first true = refl
    first false = refl
