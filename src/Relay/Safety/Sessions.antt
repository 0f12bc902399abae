-- ===== src/Relay/Safety/Sessions.antt =====
-- The sessions of the relay's bridge and what clients are told of them: extension-relay/
-- relay-bridge.ts.
use agent_tab_bridge.Base.{
  ℕ, ◌≡◌, refl, subst, Bool, not, ◌&&◌, Bool-cases, inl, inr, Option, none, some, List, [], ◌∷◌,
  ◌==◌, All, nat_eq, list_eq, contains, if_ind, if◌then◌else◌, option_ind,
}
use agent_tab_bridge.Base.Maps.{lookup, Entries, Entries-insert, Entries-lookup}
use agent_tab_bridge.Base.Text.{Str}
use agent_tab_bridge.Json.{Json}
use agent_tab_bridge.Relay.Protocol.{Command}
use agent_tab_bridge.Relay.State.{
  Attached, Tab, Client, Auxiliary, Effect, Output, event, Bridge, target_id_for_tab,
}
use agent_tab_bridge.Relay.Targets.{
  say, Recipients, receives, announced_effects, announce_attached_tab, detached_effects,
  auxiliary_effects, auxiliary_elsewhere, children_elsewhere, emit_detached_from_target,
  frame_effects, mirror_effects, forward_attached_event, forward_extension_event, root_tab,
  tab_by_session_id, tab_by_target_id, root_route, auxiliary_route, child_route, or_root,
  announced_child, adopt_announced, insert_announced, add_child, mirrored, is_root, is_empty,
}
use agent_tab_bridge.Relay.Safety.Invariant.{
  Sends, Allowed, Permitted, TabKnown, AuxiliaryKnown, ChildKnown, Safe, say-Safe,
  with_sessions-Safe,
}

module _ (P : Command → Type 0) where
  pub announced_effects-Sends :
      (who : Recipients) (s : Str) (output : Output) (cs : List (ℕ × Client))
      → All (Sends P) (announced_effects who s output cs)
  unfolding announced_effects
  announced_effects-Sends who s output [] = tt
  announced_effects-Sends who s output ((id, c) ∷ cs) =
      let ih = announced_effects-Sends who s output cs in
      if_ind (All (Sends P)) (receives who id c && not (contains c.announced s)) (λ e. (tt, ih))
        (λ e. ih)

  pub detached_effects-Sends :
      (s target_id : Str) (cs : List (ℕ × Client)) → All (Sends P) (detached_effects s target_id cs)
  unfolding detached_effects
  detached_effects-Sends s target_id [] = tt
  detached_effects-Sends s target_id ((id, c) ∷ cs) =
      let ih = detached_effects-Sends s target_id cs in
      if_ind (All (Sends P)) (c.connected && contains c.announced s) (λ e. (tt, ih)) (λ e. ih)

  pub auxiliary_effects-Sends :
      (tab_id : ℕ) (target_id : Str) (xs : List (Str × Auxiliary))
      → All (Sends P) (auxiliary_effects tab_id target_id xs)
  unfolding auxiliary_effects
  auxiliary_effects-Sends tab_id target_id [] = tt
  auxiliary_effects-Sends tab_id target_id ((s, x) ∷ xs) =
      let ih = auxiliary_effects-Sends tab_id target_id xs in
      if_ind (All (Sends P)) (x.tab == tab_id) (λ e. (tt, ih)) (λ e. ih)

  pub frame_effects-Sends :
      (s : Str) (frame : Output) (cs : List (ℕ × Client)) → All (Sends P) (frame_effects s frame cs)
  unfolding frame_effects
  frame_effects-Sends s frame [] = tt
  frame_effects-Sends s frame ((id, c) ∷ cs) =
      let ih = frame_effects-Sends s frame cs in
      if_ind (All (Sends P)) (c.connected && contains c.announced s) (λ e. (tt, ih)) (λ e. ih)

  pub mirror_effects-Sends :
      (tab_id : ℕ) (method params : Json) (xs : List (Str × Auxiliary))
      → All (Sends P) (mirror_effects tab_id method params xs)
  unfolding mirror_effects
  mirror_effects-Sends tab_id method params [] = tt
  mirror_effects-Sends tab_id method params ((s, x) ∷ xs) =
      let ih = mirror_effects-Sends tab_id method params xs in
      if_ind (All (Sends P)) (x.tab == tab_id) (λ e. (tt, ih)) (λ e. ih)

module _ (K : ℕ → Type 0) where
  pub announce_attached_tab-Safe :
      (tab_id : ℕ) (a : Attached) (who : Recipients) (m : Bridge)
      → Safe K m
      → Safe K (announce_attached_tab tab_id a who m)
  unfolding announce_attached_tab
  announce_attached_tab-Safe tab_id a who m h =
      option_ind (Safe K) (lookup tab_id m.tabs) (λ e. h)
        (λ tab e.
          say-Safe K _ m (announced_effects-Sends (Allowed K) who a.session_id _ m.clients) h)

  auxiliary_elsewhere-Known :
      (tab_id : ℕ) (xs : List (Str × Auxiliary))
      → Entries (AuxiliaryKnown K) xs
      → Entries (AuxiliaryKnown K) (auxiliary_elsewhere tab_id xs)
  unfolding auxiliary_elsewhere
  auxiliary_elsewhere-Known tab_id [] h = tt
  auxiliary_elsewhere-Known tab_id ((s, x) ∷ xs) h =
      let ih = auxiliary_elsewhere-Known tab_id xs h.1 in
      if_ind (Entries (AuxiliaryKnown K)) (x.tab == tab_id) (λ e. ih) (λ e. (h.0, ih))

  children_elsewhere-Known :
      (tab_id : ℕ) (xs : List (Str × ℕ))
      → Entries (ChildKnown K) xs
      → Entries (ChildKnown K) (children_elsewhere tab_id xs)
  unfolding children_elsewhere
  children_elsewhere-Known tab_id [] h = tt
  children_elsewhere-Known tab_id ((s, t) ∷ xs) h =
      let ih = children_elsewhere-Known tab_id xs h.1 in
      if_ind (Entries (ChildKnown K)) (t == tab_id) (λ e. ih) (λ e. (h.0, ih))

  pub emit_detached_from_target-Safe :
      (tab_id : ℕ) (a : Attached) (m : Bridge)
      → Safe K m
      → Safe K (emit_detached_from_target tab_id a m)
  unfolding emit_detached_from_target
  emit_detached_from_target-Safe tab_id a m h =
      let elsewhere = record m {
        auxiliary = auxiliary_elsewhere tab_id m.auxiliary;
        children = children_elsewhere tab_id m.children;
      } in
      let detached = detached_effects a.session_id a.target_id m.clients in
      say-Safe K (auxiliary_effects tab_id a.target_id m.auxiliary) (say detached elsewhere)
        (auxiliary_effects-Sends (Allowed K) tab_id a.target_id m.auxiliary)
        (say-Safe K detached elsewhere
          (detached_effects-Sends (Allowed K) a.session_id a.target_id m.clients)
          (with_sessions-Safe K _ _ m
            (auxiliary_elsewhere-Known tab_id m.auxiliary h.safe_auxiliary)
            (children_elsewhere-Known tab_id m.children h.safe_children) h))

  pub emit_detached_from_target-tabs :
      (tab_id : ℕ) (a : Attached) (m : Bridge)
      → (emit_detached_from_target tab_id a m).tabs ≡ m.tabs
  unfolding emit_detached_from_target
  emit_detached_from_target-tabs tab_id a m = refl

  root_tab-Known :
      (s : Str) (ts : List (ℕ × Tab)) (tab_id : ℕ)
      → Entries (TabKnown K) ts
      → root_tab s ts ≡ some tab_id
      → K tab_id
  unfolding root_tab
  root_tab-Known s [] tab_id h e = cc
  root_tab-Known s ((id, t) ∷ ts) tab_id h e = go t.attached (root_tab-Known s ts tab_id h.1) e
    where
      go :
          (o : Option Attached)
          → (root_tab s ts ≡ some tab_id → K tab_id)
          → (elim o [
            | none ↦ root_tab s ts
            | some a ↦ if a.session_id == s then some id else root_tab s ts
          ])
            ≡ some tab_id
          → K tab_id
      go none ih e = ih e
      go (some a) ih e = elim (Bool-cases (a.session_id == s)) [
        | inl b ↦ let found : some id ≡ some tab_id = (rw b at e) in subst K (cc found) h.0
        | inr b ↦ ih (rw b at e)
      ]

  -- The route of a session leads to a known tab.
  pub tab_by_session_id-Known :
      (s : Str) (m : Bridge) (route : ℕ × Bool)
      → Safe K m
      → tab_by_session_id s m ≡ some route
      → K route.0
  unfolding tab_by_session_id
  tab_by_session_id-Known s m route h =
      go (root_tab s m.tabs) refl (lookup s m.auxiliary) refl (lookup s m.children) refl
    where
      go :
          (r : Option ℕ)
          → root_tab s m.tabs ≡ r
          → (x : Option Auxiliary) → lookup s m.auxiliary ≡ x
          → (c : Option ℕ) → lookup s m.children ≡ c
          → root_route r (auxiliary_route x (child_route c)) ≡ some route
          → K route.0
      go (some t) er x ex c ec e =
          let same : t ≡ route.0 = cc e in subst K same (root_tab-Known s m.tabs t h.safe_tabs er)
      go none er (some x) ex c ec e =
          let same : x.tab ≡ route.0 = cc e in
          subst K same (Entries-lookup (AuxiliaryKnown K) s x m.auxiliary h.safe_auxiliary ex)
      go none er none ex (some t) ec e =
          let same : t ≡ route.0 = cc e in
          subst K same (Entries-lookup (ChildKnown K) s t m.children h.safe_children ec)
      go none er none ex none ec e = cc

  pub tab_by_target_id-Known :
      (target : Str) (ts : List (ℕ × Tab)) (tab_id : ℕ)
      → Entries (TabKnown K) ts
      → tab_by_target_id target ts ≡ some tab_id
      → K tab_id
  unfolding tab_by_target_id
  tab_by_target_id-Known target [] tab_id h e = cc
  tab_by_target_id-Known target ((id, t) ∷ ts) tab_id h e =
      elim (Bool-cases (target_id_for_tab id == target)) [
        | inl b ↦ let found : some id ≡ some tab_id = (rw b at e) in subst K (cc found) h.0
        | inr b ↦ tab_by_target_id-Known target ts tab_id h.1 (rw b at e)
      ]

  add_child-Known :
      (child : Option Str) (tab_id : ℕ) (xs : List (Str × ℕ))
      → K tab_id
      → Entries (ChildKnown K) xs
      → Entries (ChildKnown K) (add_child child tab_id xs)
  add_child-Known none tab_id xs k h = h
  add_child-Known (some s) tab_id xs k h =
      if_ind (Entries (ChildKnown K)) (is_empty s) (λ e. h)
        (λ e. Entries-insert (ChildKnown K) s tab_id xs h k)

  insert_announced-Known :
      (child : Option Str) (tab_id : ℕ) (xs : List (Str × ℕ))
      → K tab_id
      → Entries (ChildKnown K) xs
      → Entries (ChildKnown K) (insert_announced child tab_id xs)
  insert_announced-Known none tab_id xs k h = h
  insert_announced-Known (some s) tab_id xs k h = Entries-insert (ChildKnown K) s tab_id xs h k

  mirrored-Permitted :
      (child : Option Str) (es : List Effect)
      → All (Permitted K) es
      → All (Permitted K) (mirrored child es)
  mirrored-Permitted child es h = if_ind (All (Permitted K)) (is_root child) (λ e. h) (λ e. tt)

  forward_attached_event-Safe :
      (tab_id : ℕ) (a : Attached) (child : Option Str) (method params : Json) (m : Bridge)
      → K tab_id
      → Safe K m
      → Safe K (forward_attached_event tab_id a child method params m)
  unfolding forward_attached_event
  forward_attached_event-Safe tab_id a child method params m k h =
      let session = or_root child a.session_id in
      let announced = announced_child method params in
      let clients = adopt_announced session announced m.clients in
      let children = insert_announced announced tab_id (add_child child tab_id m.children) in
      let frames = frame_effects session (event (some session) method params) clients in
      let mirrors = mirrored child (mirror_effects tab_id method params m.auxiliary) in
      say-Safe K mirrors (say frames (record m { children = children }))
        (mirrored-Permitted child _
          (mirror_effects-Sends (Allowed K) tab_id method params m.auxiliary))
        (say-Safe K frames (record m { children = children })
          (frame_effects-Sends (Allowed K) session _ clients)
          (with_sessions-Safe K m.auxiliary children m h.safe_auxiliary
            (insert_announced-Known announced tab_id _ k
              (add_child-Known child tab_id m.children k h.safe_children))
            h))

  pub forward_extension_event-Safe :
      (tab_id : ℕ) (child : Option Str) (method params : Json) (m : Bridge)
      → Safe K m
      → Safe K (forward_extension_event tab_id child method params m)
  unfolding forward_extension_event
  forward_extension_event-Safe tab_id child method params m h =
      option_ind (Safe K) (lookup tab_id m.tabs) (λ e. h)
        (λ tab e.
          option_ind (Safe K) tab.attached (λ d. h)
            (λ a d.
              forward_attached_event-Safe tab_id a child method params m
                (Entries-lookup (TabKnown K) tab_id tab m.tabs h.safe_tabs e) h))
