-- ===== src/Xray/ClientConfigs.antt =====
-- app/xray/client_configs.py: the client document of a host. `Json` is the library's part: what json.loads makes of a
-- text, where it is an object, and whether str.strip leaves nothing of it.
pub mod Laws
use vpn_panel.Prelude.{
  ℕ, suc, String, Bool, Option, none, some, List, [], ◌∷◌, lookup, get_or, if◌then◌else◌,
}
use vpn_panel.Prelude.Raises.{Result, ok, err, value_error}

pub record Json (D : Type 0) : Type 0 where
  pub object_of : String → Option D
  pub is_blank : String → Bool
  pub empty : D  -- {}
  pub closed : D  -- {"npvpn": None}

unfoldable pub parse_json_object : {D : Type 0} → Json D → Option String → Result (Option D)
parse_json_object json none = ok none
parse_json_object json (some raw) =
    if json.is_blank raw
    then ok none
    else elim (json.object_of raw) [ none ↦ err value_error | some document ↦ ok (some document) ]

abbrev pub get_id : {D : Type 0} → List (ℕ × D) → Option ℕ → Option D
get_id configs none = none
get_id configs (some id) = lookup id configs

unfoldable pub select_config : {D : Type 0} → List (ℕ × D) → Option ℕ → Option ℕ → Option D
select_config configs default_id config_id = elim (get_id configs config_id) [
  | some body ↦ some body
  | none ↦ get_id configs default_id
]

-- the variable that the lookups share, and how often the file has been rendered
pub record Cache (D : Type 0) : Type 0 where
  pub file_body : Option D
  pub renders : ℕ

-- file_body = None
abbrev pub not_rendered : {D : Type 0} → Cache D
not_rendered = record { file_body = none; renders = 0 }

-- parse_json_object(fallback()) or {}, where an invalid file is the closed document
abbrev pub parsed_or : {D : Type 0} → Json D → Result (Option D) → D
parsed_or json (ok document) = get_or document json.empty
parsed_or json (err e) = json.closed

-- the part of `lookup` where no document is selected
unfoldable pub file_lookup : {D : Type 0} → Json D → Option String → Cache D → D × Cache D
unfolding parse_json_object
file_lookup json file cache = elim cache.file_body [
  | some body ↦ (body, cache)
  | none ↦
      let body = parsed_or json (parse_json_object json file) in
      (body, record { file_body = some body; renders = suc cache.renders })
]

-- make_template_lookup: a call of `lookup`; `file` is what fallback() returns
unfoldable pub template_lookup :
    {D : Type 0}
    → Json D
    → List (ℕ × D)
    → Option ℕ
    → Option String
    → Option ℕ
    → Cache D
    → D × Cache D
unfolding select_config file_lookup
template_lookup json configs default_id file config_id cache =
    elim (select_config configs default_id config_id) [
      | some body ↦ (body, cache)
      | none ↦ file_lookup json file cache
    ]

-- lookups one after the other
unfoldable pub lookups :
    {D : Type 0}
    → Json D
    → List (ℕ × D)
    → Option ℕ
    → Option String
    → List (Option ℕ)
    → Cache D
    → List D × Cache D
unfolding template_lookup
lookups json configs default_id file [] cache = ([], cache)
lookups json configs default_id file (id ∷ ids) cache =
    let (body, cached) = template_lookup json configs default_id file id cache in
    let (bodies, last) = lookups json configs default_id file ids cached in (body ∷ bodies, last)
