-- ===== src/Relay/Policy.antt =====
-- Which CDP methods may pass: `classifyCdpMethod` of extension-relay/relay-bridge.ts, and
-- `isPermittedPageCdpMethod` of chrome-extension/modules/cdp-policy.js.
use agent_tab_bridge.Base.{
  ◌≡◌, refl, ap, sym, ◌∙◌, subst, All, ◌++◌, Bool-cases, inl, inr, eq_iff, Bool, true, false, not,
  ◌&&◌, ◌||◌, Option, none, some, List, [], ◌∷◌, ◌==◌, if◌then◌else◌, nat_beq, nat_eq, list_eq,
  contains, arith,
}
use agent_tab_bridge.Base.Text.{Str, codes}

pub data Scope : Type 0 where
  browser page : Scope

pub data Policy : Type 0 where
  allow deny : Policy

-- The names that every object literal inherits: a lookup of one of them finds a value that counts
-- as true.
abbrev pub inherited_names : List Str
inherited_names =
    codes "constructor"
    ∷ codes "__defineGetter__"
    ∷ codes "__defineSetter__"
    ∷ codes "hasOwnProperty"
    ∷ codes "__lookupGetter__"
    ∷ codes "__lookupSetter__"
    ∷ codes "isPrototypeOf"
    ∷ codes "propertyIsEnumerable"
    ∷ codes "toString"
    ∷ codes "valueOf"
    ∷ codes "__proto__"
    ∷ codes "toLocaleString"
    ∷ []

-- `names[key]` in a test, for an object literal with some names.
unfoldable pub looks_up : List Str → Str → Bool
looks_up names key = contains names key || contains inherited_names key

abbrev pub synthetic_browser_methods : List Str
synthetic_browser_methods = codes "Browser.getVersion" ∷ codes "Browser.close" ∷ []

abbrev pub synthetic_target_methods : List Str
synthetic_target_methods =
    codes "Target.getTargetInfo"
    ∷ codes "Target.getTargets"
    ∷ codes "Target.attachToBrowserTarget"
    ∷ codes "Target.setAutoAttach"
    ∷ codes "Target.attachToTarget"
    ∷ codes "Target.detachFromTarget"
    ∷ codes "Target.createTarget"
    ∷ codes "Target.closeTarget"
    ∷ codes "Target.activateTarget"
    ∷ codes "Target.setDiscoverTargets"
    ∷ []

abbrev pub page_cdp_domains : List Str
page_cdp_domains =
    codes "Accessibility"
    ∷ codes "CSS"
    ∷ codes "DOM"
    ∷ codes "Debugger"
    ∷ codes "Emulation"
    ∷ codes "Fetch"
    ∷ codes "Input"
    ∷ codes "Log"
    ∷ codes "Network"
    ∷ codes "Page"
    ∷ codes "Performance"
    ∷ codes "Runtime"
    ∷ []

abbrev pub denied_page_methods : List Str
denied_page_methods =
    codes "DOM.getFileInfo"
    ∷ codes "Network.clearBrowserCache"
    ∷ codes "Network.clearBrowserCookies"
    ∷ codes "Network.deleteCookies"
    ∷ codes "Network.getAllCookies"
    ∷ codes "Network.getCookies"
    ∷ codes "Network.setCookie"
    ∷ codes "Network.setCookies"
    ∷ codes "Page.setDownloadBehavior"
    ∷ []

-- The text before the first dot, if there is one, and what follows that dot.
unfoldable pub split_at_dot : Str → Option (Str × Str)
split_at_dot [] = none
split_at_dot (c ∷ s) =
    let rest = split_at_dot s in
    if nat_beq c b'.'
    then some ([], s)
    else elim rest [ none ↦ none | some p ↦ some (c ∷ p.0, p.1) ]

abbrev domain_at : Str → Option (Str × Str) → Str
domain_at method none = method
domain_at method (some p) = p.0

-- `separator === -1 ? method : method.slice(0, separator)`.
unfoldable pub domain_of : Str → Str
unfolding split_at_dot
domain_of method = domain_at method (split_at_dot method)

abbrev is_browser : Scope → Bool
is_browser browser = true
is_browser page = false

-- `classifyCdpMethod`.
unfoldable pub classify_cdp_method : Str → Scope → Policy
unfolding looks_up domain_of
classify_cdp_method method scope =
    if is_browser scope && looks_up synthetic_browser_methods method
    then allow
    else if is_browser scope && looks_up synthetic_target_methods method
    then allow
    else if is_browser scope || looks_up denied_page_methods method
    then deny
    else if looks_up page_cdp_domains (domain_of method)
    then allow
    else deny

abbrev pub is_allowed : Policy → Bool
is_allowed allow = true
is_allowed deny = false

-- The domains and the excluded methods of the extension, in its own order.
abbrev pub page_domains : List Str
page_domains = page_cdp_domains

abbrev pub excluded_methods : List Str
excluded_methods =
    codes "DOM.getFileInfo"
    ∷ codes "Page.setDownloadBehavior"
    ∷ codes "Network.clearBrowserCache"
    ∷ codes "Network.clearBrowserCookies"
    ∷ codes "Network.deleteCookies"
    ∷ codes "Network.getAllCookies"
    ∷ codes "Network.getCookies"
    ∷ codes "Network.setCookie"
    ∷ codes "Network.setCookies"
    ∷ []

abbrev is_empty : Str → Bool
is_empty [] = true
is_empty (c ∷ s) = false

abbrev permitted_at : Str → Option (Str × Str) → Bool
permitted_at method none = false
permitted_at method (some p) =
    if is_empty p.0 || is_empty p.1
    then false
    else contains page_domains p.0 && not (contains excluded_methods method)

-- `isPermittedPageCdpMethod` of a string. The separator is neither its first character nor its last.
unfoldable pub is_permitted_page_cdp_method : Str → Bool
unfolding split_at_dot
is_permitted_page_cdp_method method = permitted_at method (split_at_dot method)

-- The domain of a method that names one, by a dot with text on both sides.
abbrev well_formed_at : Option (Str × Str) → Bool
well_formed_at none = false
well_formed_at (some p) = not (is_empty p.0) && not (is_empty p.1)

abbrev pub well_formed : Str → Bool
well_formed method = well_formed_at (split_at_dot method)

-- An entry may be moved to the end.
contains_move :
    (x : Str) (xs : List Str) (s : Str) → contains (x ∷ xs) s ≡ contains (xs ++ x ∷ []) s
contains_move x [] s = refl
contains_move x (y ∷ ys) s = swap (x == s) (y == s) (contains ys s) _ (contains_move x ys s)
  where
    swap : (a b c d : Bool) → (a || c) ≡ d → (a || (b || c)) ≡ (b || d)
    swap a b c d h = ground arith

same_exclusions :
    (method : Str) → contains excluded_methods method ≡ contains denied_page_methods method
same_exclusions method =
    ap (λ b. codes "DOM.getFileInfo" == method || b)
      (contains_move (codes "Page.setDownloadBehavior")
        (codes "Network.clearBrowserCache"
          ∷ codes "Network.clearBrowserCookies"
          ∷ codes "Network.deleteCookies"
          ∷ codes "Network.getAllCookies"
          ∷ codes "Network.getCookies"
          ∷ codes "Network.setCookie"
          ∷ codes "Network.setCookies"
          ∷ [])
        method)

contains-All :
    (P : Str → Type 0) (names : List Str) (s : Str) → All P names → contains names s ≡ true → P s
contains-All P [] s all h = cc
contains-All P (n ∷ ns) s all h = elim (Bool-cases (n == s)) [
  | inl e ↦ subst P ((eq_iff n s).0 e) all.0
  | inr e ↦ contains-All P ns s all.1 (right (n == s) (contains ns s) e h)
]
  where
    right : (a b : Bool) → a ≡ false → (a || b) ≡ true → b ≡ true
    right a b e h = ground arith

-- No inherited name has a dot.
inherited-split_at_dot : (s : Str) → contains inherited_names s ≡ true → split_at_dot s ≡ none
unfolding split_at_dot
inherited-split_at_dot s h =
    contains-All (λ n. split_at_dot n ≡ none) inherited_names s
      (
        refl,
        (refl, (refl, (refl, (refl, (refl, (refl, (refl, (refl, (refl, (refl, (refl, tt))))))))))),
      )
      h

-- No domain of a page is an inherited name.
page-inherited : (s : Str) → contains page_cdp_domains s ≡ true → contains inherited_names s ≡ false
page-inherited s h =
    contains-All (λ n. contains inherited_names n ≡ false) page_cdp_domains s
      (
        refl,
        (refl, (refl, (refl, (refl, (refl, (refl, (refl, (refl, (refl, (refl, (refl, tt))))))))))),
      )
      h

-- The extension permits exactly the methods with a dot inside that the bridge allows for pages and
-- whose domain is none of the names that object literals inherit.
pub is_permitted-eq-classify :
    (method : Str)
    → is_permitted_page_cdp_method method ≡ (
        well_formed method
        && is_allowed (classify_cdp_method method page)
        && not (contains inherited_names (domain_of method)))
unfolding is_permitted_page_cdp_method classify_cdp_method looks_up domain_of
is_permitted-eq-classify method = go (split_at_dot method) refl
  where
    agree :
        (ea eb d x i p j : Bool)
        → x ≡ d
        → i ≡ false
        → (p ≡ true → j ≡ false)
        → (if ea || eb then false else p && not x) ≡ (
            (not ea && not eb)
            && is_allowed (if d || i then deny else if p || j then allow else deny)
            && not j)
    agree ea eb d x i true j h k m = ground (arith, m refl)
    agree ea eb d x i false j h k m = ground arith

    allowed_at : Option (Str × Str) → Bool
    allowed_at o = is_allowed (
        if looks_up denied_page_methods method
        then deny
        else if looks_up page_cdp_domains (domain_at method o)
        then allow
        else deny)

    go :
        (o : Option (Str × Str))
        → split_at_dot method ≡ o
        → permitted_at method o ≡ (
            well_formed_at o && allowed_at o && not (contains inherited_names (domain_at method o)))
    go none e = refl
    go (some p) e = elim (Bool-cases (contains inherited_names method)) [
      | inl bad ↦ cc (sym e ∙ inherited-split_at_dot method bad)
      | inr fine ↦
          agree (is_empty p.0) (is_empty p.1) (contains denied_page_methods method)
            (contains excluded_methods method) (contains inherited_names method)
            (contains page_cdp_domains p.0) (contains inherited_names p.0) (same_exclusions method)
            fine (page-inherited p.0)
    ]
