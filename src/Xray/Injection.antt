-- ===== src/Xray/Injection.antt =====
-- app/models/host_injection.py and app/xray/host_injection.py: a host that hands out the connections of
-- other hosts inside its own document, and the choice of those hosts. The readings of the clock and the
-- library `regex` are parameters: whether the deadline has passed at a reading, whether a pattern
-- compiles, and what a search answers, None where it times out.

pub mod Chosen
pub mod Compose
use vpn_panel.Prelude.{
  ℕ, zero, suc, ◌+◌, String, Bool, true, false, ◌&&◌, ◌||◌, not, Option, none, some, List, [], ◌∷◌,
  map, filter, str_eq, get_or, length, contains, lookup, insert, ltb, leb, ◌==◌, if◌then◌else◌,
  is_some,
}
use vpn_panel.Prelude.Int.{ℤ, pos, ltb_ℤ, leb_ℤ}
use vpn_panel.Prelude.Sort.{sort_by}
use vpn_panel.Prelude.Text.{strip, truthy_text}
use vpn_panel.Xray.TagGraph.{
  InjectionError, conflicting_directives, invalid_directive, selector_timeout,
  selector_input_too_long,
}

-- a value, or an InjectionError with its code; `invalid` is pydantic's ValidationError
pub data Attempt {ℓ} (V : Type ℓ) : Type ℓ where
  raised : InjectionError → Attempt V
  invalid : Attempt V
  done : V → Attempt V

infixl 5 ◌>>=◌
abbrev pub ◌>>=◌ {ℓ κ} : {V : Type ℓ} {W : Type κ} → Attempt V → (V → Attempt W) → Attempt W
raised error >>= next = raised error
invalid >>= next = invalid
done value >>= next = next value

pub data PatternKey : Type 0 where
  by_remark by_tag : PatternKey

pub data Selector : Type 0 where
  ids : List ℕ → Selector
  pattern : PatternKey → String → Selector
  same_tag_as_recipient : Selector

pub data SelectFrom : Type 0 where
  hidden not_hidden all : SelectFrom

pub record InjectionGroup : Type 0 where
  pub selector : Selector
  pub select_from : SelectFrom
  pub tag_prefix : Option String
  pub use_host_remark_as_tag : Bool
  pub use_host_tag_as_tag : Bool

pub record HostInjection : Type 0 where
  pub enabled : Bool
  pub inject_hosts : List InjectionGroup
  pub add_virtual_host_as_outbound : Bool

-- len(text)
unfoldable pub text_length : String → ℕ
text_length String.[] = 0
text_length (String.◌∷◌ c s) = suc (text_length s)

abbrev between : ℕ → ℕ → ℕ → Bool
between low high n = leb low n && leb n high

abbrev all_differ : List ℕ → Bool
all_differ [] = true
all_differ (i ∷ is) = not (contains i is) && all_differ is

abbrev every {ℓ} : {A : Type ℓ} → (A → Bool) → List A → Bool
every p [] = true
every p (x ∷ xs) = p x && every p xs

-- the constraints of the fields of a selector
unfoldable pub is_valid_selector : (String → Bool) → Selector → Bool
unfolding text_length
is_valid_selector compiles (ids values) =
    between 1 256 (length values) && every (ltb 0) values && all_differ values
is_valid_selector compiles (pattern key text) = between 1 256 (text_length text) && compiles text
is_valid_selector compiles same_tag_as_recipient = true

abbrev count_true : Bool → ℕ
count_true true = 1
count_true false = 0

-- tagging_mode: exactly one mode, and a prefix that is not blank
unfoldable pub tagging_mode : InjectionGroup → Bool
unfolding text_length
tagging_mode g =
    (count_true (is_some g.tag_prefix)
        + count_true g.use_host_remark_as_tag
        + count_true g.use_host_tag_as_tag)
      == 1
    && elim g.tag_prefix [
      | none ↦ true
      | some prefix ↦ between 1 128 (text_length prefix) && ltb 0 (text_length (strip prefix))
    ]

-- meaningful_source: an enabled injection has a source, a disabled one has no settings
unfoldable pub meaningful_source : HostInjection → Bool
meaningful_source h =
    let sources = ltb 0 (length h.inject_hosts) || h.add_virtual_host_as_outbound in
    if h.enabled then sources else not sources

unfoldable pub is_valid : (String → Bool) → HostInjection → Bool
unfolding is_valid_selector tagging_mode meaningful_source
is_valid compiles h =
    leb (length h.inject_hosts) 32
    && every (λ g. is_valid_selector compiles g.selector && tagging_mode g) h.inject_hosts
    && meaningful_source h

-- what stands under one of the two keys of a template: something that is no object, an object that
-- pydantic cannot read as the model's fields, or the fields, and whether `enabled` is named
pub data Directive : Type 0 where
  not_object unreadable : Directive
  fields : Bool → HostInjection → Directive

-- HostInjection.model_validate
unfoldable pub model_validate : (String → Bool) → HostInjection → Attempt HostInjection
unfolding is_valid
model_validate compiles h = if is_valid compiles h then done h else invalid

unfoldable pub read_directive : (String → Bool) → Directive → Attempt (Option HostInjection)
unfolding model_validate
read_directive compiles not_object = raised invalid_directive
read_directive compiles unreadable = invalid
read_directive compiles (fields true value) = raised invalid_directive
read_directive compiles (fields false value) = do h ← model_validate compiles value; done (some h)

-- of a template the directives under `npvpn` and `remnawave`
unfoldable pub template_injection :
    (String → Bool) → Option Directive → Option Directive → Attempt (Option HostInjection)
unfolding read_directive
template_injection compiles none none = done none
template_injection compiles (some d) none = read_directive compiles d
template_injection compiles none (some d) = read_directive compiles d
template_injection compiles (some d) (some e) = raised conflicting_directives

abbrev only_enabled : Option HostInjection → Option HostInjection
only_enabled none = none
only_enabled (some h) = if h.enabled then some h else none

abbrev overridden :
    (String → Bool) → Option HostInjection → Option HostInjection → Attempt (Option HostInjection)
overridden compiles none inherited = done inherited
overridden compiles (some h) inherited = do own ← model_validate compiles h; done (some own)

-- the template is read first, so that a malformed one raises under an override as well
unfoldable pub resolve_host_injection :
    (String → Bool)
    → Option HostInjection
    → Option Directive
    → Option Directive
    → Attempt (Option HostInjection)
unfolding template_injection
resolve_host_injection compiles host_override npvpn remnawave = do
  inherited ← template_injection compiles npvpn remnawave
  value ← overridden compiles host_override inherited
  done (only_enabled value)

-- a host of the catalogue; the recipient may be a draft without an id
pub record CatalogHost : Type 0 where
  pub id : ℕ
  pub remark : Option String
  pub group_tag : Option String
  pub is_disabled : Bool
  pub is_hidden : Bool
  pub is_bs : Bool
  pub order : Option ℤ

pub record Recipient : Type 0 where
  pub id : Option ℕ
  pub group_tag : Option String

abbrev pub is_recipient : Recipient → CatalogHost → Bool
is_recipient recipient host = elim recipient.id [ none ↦ false | some id ↦ host.id == id ]

abbrev pub is_visible_to : SelectFrom → CatalogHost → Bool
is_visible_to all host = true
is_visible_to hidden host = host.is_hidden
is_visible_to not_hidden host = not host.is_hidden

-- the test of the first comprehension of select_injected_hosts
unfoldable pub is_candidate : InjectionGroup → Recipient → CatalogHost → Bool
is_candidate group recipient host =
    not (is_recipient recipient host)
    && not host.is_disabled
    && is_visible_to group.select_from host

-- (host.get("order") or 0, host["id"])
abbrev pub order_before : CatalogHost → CatalogHost → Bool
order_before h k =
    let a = get_or h.order (pos 0) in
    let b = get_or k.order (pos 0) in ltb_ℤ a b || (leb_ℤ a b && leb h.id k.id)

-- by_id = {host["id"]: host for host in candidates}
abbrev pub catalog_of : List (ℕ × CatalogHost) → List CatalogHost → List (ℕ × CatalogHost)
catalog_of known [] = known
catalog_of known (host ∷ hosts) = catalog_of (insert host.id host known) hosts

abbrev pub with_found : Option CatalogHost → List CatalogHost → List CatalogHost
with_found none rest = rest
with_found (some host) rest = host ∷ rest

abbrev pub found_of : List (ℕ × CatalogHost) → List ℕ → List CatalogHost
found_of known [] = []
found_of known (i ∷ is) = with_found (lookup i known) (found_of known is)

-- tag and host.get("group_tag") == tag
abbrev pub has_group_tag : Option String → CatalogHost → Bool
has_group_tag none host = false
has_group_tag (some tag) host =
    truthy_text (some tag) && elim host.group_tag [ none ↦ false | some own ↦ str_eq own tag ]

-- host.get(key) or ""
abbrev pub searched_text : PatternKey → CatalogHost → String
searched_text by_remark host = get_or host.remark ""
searched_text by_tag host = get_or host.group_tag ""

module _ (search : String → String → Option Bool) (expired : ℕ → Bool) where
  -- one candidate of the loop over the pattern, with the number of the clock's reading
  unfoldable pub matches : PatternKey → String → ℕ → CatalogHost → Attempt Bool
  unfolding text_length
  matches key text reading host =
      if expired reading
      then raised selector_timeout
      else if ltb 512 (text_length (searched_text key host))
      then raised selector_input_too_long
      else elim (search text (searched_text key host)) [
        | none ↦ raised selector_timeout
        | some found ↦ done found
      ]

  unfoldable pub matching : PatternKey → String → ℕ → List CatalogHost → Attempt (List CatalogHost)
  unfolding matches
  matching key text reading [] = done []
  matching key text reading (host ∷ hosts) = do
    found ← matches key text reading host
    rest ← matching key text (suc reading) hosts
    done (if found then host ∷ rest else rest)

  unfoldable pub select_by : Selector → Recipient → List CatalogHost → Attempt (List CatalogHost)
  unfolding matching
  select_by (ids values) recipient candidates = done (found_of (catalog_of [] candidates) values)
  select_by same_tag_as_recipient recipient candidates =
      done (filter (has_group_tag recipient.group_tag) (sort_by order_before candidates))
  select_by (pattern key text) recipient candidates =
      matching key text 1 (sort_by order_before candidates)

  unfoldable pub select_injected_hosts :
      InjectionGroup → Recipient → List CatalogHost → Attempt (List CatalogHost)
  unfolding select_by is_candidate
  select_injected_hosts group recipient hosts =
      if expired 0
      then raised selector_timeout
      else select_by group.selector recipient (filter (is_candidate group recipient) hosts)
