-- ===== src/Addresses/Hosts/Laws.antt =====
-- What a user is given of a host, from the host's nodes to its addresses.
use vpn_panel.Prelude.{
  ℕ, suc, ◌<◌, String, ◌≡◌, refl, sym, ap, ◌∙◌, inl, inr, true, Option, List, [], ◌∷◌, map, arith,
  Bool-cases, get_or, length,
}
use vpn_panel.Prelude.Text.{strip}
use vpn_panel.Addresses.{Numerics}
use vpn_panel.Addresses.Context.{AddressContext, SubsetSettings, pick}
use vpn_panel.Addresses.Context.Nonempty.{pick-nonempty}
use vpn_panel.Addresses.Hosts.{
  Host, split_commas, addresses_from_nodes, visible_nodes, resolve_host_addresses,
  resolve_host_node_ids,
}

length-split_commas : (s : String) → 0 < length (split_commas s)
unfolding split_commas
length-split_commas String.[] = omega arith
length-split_commas (String.◌∷◌ c s) = ground (arith, length-split_commas s)

length-map {ℓ κ} :
    {A : Type ℓ} {B : Type κ} (f : A → B) (xs : List A) → length (map f xs) ≡ length xs
length-map f [] = refl
length-map f (x ∷ xs) = ap suc (length-map f xs)

-- Where the addresses are those of nodes, there is one for each node of the host, in the same places.
pub length-resolve :
    (h : Host)
    → addresses_from_nodes h ≡ true
    → length (resolve_host_node_ids h) ≡ length (resolve_host_addresses h)
unfolding resolve_host_addresses resolve_host_node_ids
length-resolve h from =
    rw from (
      length-map (λ n. n.id) (visible_nodes h)
      ∙ sym (length-map (λ n. n.address) (visible_nodes h)))

some_address :
    (h : Host)
    → (addresses_from_nodes h ≡ true → 0 < length (visible_nodes h))
    → 0 < length (resolve_host_addresses h)
unfolding resolve_host_addresses
some_address h seen = elim (Bool-cases (addresses_from_nodes h)) [
  | inl e ↦ rw e (rw (length-map (λ n. n.address) (visible_nodes h)) (seen e))
  | inr e ↦ rw e (
      rw (length-map strip (split_commas (get_or h.address "")))
        (length-split_commas (get_or h.address "")))
]

-- A host with an address of its own, or with a node in view, gives every user an address.
pub host_addresses-nonempty :
    {F : Type 0} (num : Numerics F) (ctx : AddressContext F) (h : Host) (host : Option ℕ)
    (settings : SubsetSettings)
    → (addresses_from_nodes h ≡ true → 0 < length (visible_nodes h))
    → 0
      < length (
          pick num ctx
            (resolve_host_addresses h)
            (resolve_host_node_ids h)
            (addresses_from_nodes h)
            host
            settings)
host_addresses-nonempty num ctx h host settings seen =
    pick-nonempty num ctx (resolve_host_addresses h) (resolve_host_node_ids h)
      (addresses_from_nodes h) host settings (length-resolve h) (some_address h seen)
