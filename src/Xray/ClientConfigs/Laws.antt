-- ===== src/Xray/ClientConfigs/Laws.antt =====
-- What a sequence of lookups answers.
use vpn_panel.Prelude.{
  ℕ, suc, ◌≤◌, String, ◌≡◌, refl, ap, ◌∙◌, ◌⊎◌, inl, inr, Option, none, some, List, [], ◌∷◌, map,
  get_or, arith,
}
use vpn_panel.Xray.ClientConfigs.{
  Json, parse_json_object, select_config, Cache, not_rendered, parsed_or, file_lookup,
  template_lookup, lookups,
}

module _ {D : Type 0} (json : Json D) (configs : List (ℕ × D)) (default_id : Option ℕ)
    (file : Option String) where
  -- the document of a host, without a memory of earlier lookups
  abbrev pub document_of : Option ℕ → D
  document_of id =
      get_or (select_config configs default_id id) (parsed_or json (parse_json_object json file))

  -- nothing is rendered yet, or the file once
  abbrev IsCached : Cache D → Type 0
  IsCached cache =
      ((cache.file_body ≡ none) × (cache.renders ≡ 0))
      ⊎ ((cache.file_body ≡ some (parsed_or json (parse_json_object json file)))
          × (cache.renders ≡ 1))

  file_lookup-IsCached :
      (cache : Cache D)
      → IsCached cache
      → ((file_lookup json file cache).0 ≡ parsed_or json (parse_json_object json file))
        × IsCached (file_lookup json file cache).1
  unfolding file_lookup
  file_lookup-IsCached cache (inl (fresh, never)) =
      rw fresh (refl, inr (refl, ap (λ n. suc n) never))
  file_lookup-IsCached cache (inr (held, once)) = rw held (refl, inr (refl, once))

  lookup-found :
      (found : Option D) (cache : Cache D)
      → IsCached cache
      → let answer = elim found as (λ x. D × Cache D) [
        | some body ↦ (body, cache)
        | none ↦ file_lookup json file cache
      ] in
        (answer.0 ≡ get_or found (parsed_or json (parse_json_object json file))) × IsCached answer.1
  lookup-found none cache cached = file_lookup-IsCached cache cached
  lookup-found (some body) cache cached = (refl, cached)

  lookup-IsCached :
      (id : Option ℕ) (cache : Cache D)
      → IsCached cache
      → ((template_lookup json configs default_id file id cache).0 ≡ document_of id)
        × IsCached (template_lookup json configs default_id file id cache).1
  unfolding template_lookup
  lookup-IsCached id cache cached = lookup-found (select_config configs default_id id) cache cached

  lookups-IsCached :
      (ids : List (Option ℕ)) (cache : Cache D)
      → IsCached cache
      → ((lookups json configs default_id file ids cache).0 ≡ map document_of ids)
        × IsCached (lookups json configs default_id file ids cache).1
  unfolding lookups
  lookups-IsCached [] cache cached = (refl, cached)
  lookups-IsCached (id ∷ ids) cache cached =
      let first = lookup-IsCached id cache cached in
      let rest =
        lookups-IsCached ids (template_lookup json configs default_id file id cache).1 first.1 in
      (
        ap
              (λ b.
                b
                ∷ (lookups json configs default_id file ids
                    (template_lookup json configs default_id file id cache).1).0)
              first.0
            ∙ ap (λ l. document_of id ∷ l) rest.0,
        rest.1,
      )

  renders-le : (cache : Cache D) → IsCached cache → cache.renders ≤ 1
  renders-le cache (inl (fresh, never)) = omega (arith, never)
  renders-le cache (inr (held, once)) = omega (arith, once)

  -- Lookups that begin with nothing rendered answer, in whatever order, each with the selected document of the host or
  -- the default one, or else with the file, and render the file at most once.
  pub lookups_lem :
      (ids : List (Option ℕ))
      → ((lookups json configs default_id file ids not_rendered).0 ≡ map document_of ids)
        × ((lookups json configs default_id file ids not_rendered).1.renders ≤ 1)
  lookups_lem ids =
      let all = lookups-IsCached ids not_rendered (inl (refl, refl)) in (all.0, renders-le _ all.1)
