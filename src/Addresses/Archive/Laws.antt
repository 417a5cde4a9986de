-- ===== src/Addresses/Archive/Laws.antt =====
-- What the snapshots keep of the hosts.
use vpn_panel.Prelude.{
  ℕ, ◌+◌, ◌≤◌, ◌<◌, String, ◌≡◌, refl, ap, ◌∙◌, subst, inl, inr, true, not, Option, none, some,
  List, [], ◌∷◌, ◌++◌, map, arith, ltb, if◌then◌else◌, Bool-cases, Option-cases, is_some, ==_refl,
  length, filter, any, any-append, All,
}
use vpn_panel.Prelude.Raises.{ok}
use vpn_panel.Addresses.Hosts.{
  Host, addresses_from_nodes, resolve_host_addresses, resolve_host_node_ids,
}
use vpn_panel.Addresses.Hosts.Laws.{length-resolve}
use vpn_panel.Addresses.Archive.{
  Snapshot, Entry, zip_strict, host_payload, is_snapshot, find, write_host_composition_snapshot,
  prune_host_composition_snapshots, snapshot_of, write_all, snapshot_host_composition,
}

abbrev Paired : List ℕ → List String → Type 0
Paired ids addresses =
    (payload : List (Option ℕ × String)) × (zip_strict ids addresses ≡ ok payload)
    × (map (λ p. p.1) payload ≡ addresses)

zip_strict-ok :
    (ids : List ℕ) (addresses : List String) → length ids ≡ length addresses → Paired ids addresses
zip_strict-ok [] [] h = ([], refl, refl)
zip_strict-ok [] (a ∷ addresses) h = absurd (omega (arith, h))
zip_strict-ok (i ∷ ids) [] h = absurd (omega (arith, h))
zip_strict-ok (i ∷ ids) (a ∷ addresses) h =
    let rest = zip_strict-ok ids addresses (omega (arith, h)) in
    ((some i, a) ∷ rest.0, rw rest.1 refl, ap (λ list. a ∷ list) rest.2)

snd-none :
    (addresses : List String)
    → map (λ p. p.1) (map {B = Option ℕ × String} (λ a. (none, a)) addresses) ≡ addresses
snd-none [] = refl
snd-none (a ∷ addresses) = ap (λ rest. a ∷ rest) (snd-none addresses)

-- The snapshot of a host never fails to pair nodes and addresses, and it lists the addresses of the subscription in order.
pub host_payload_lem :
    (h : Host)
    → (payload : List (Option ℕ × String)) × (host_payload h ≡ ok payload)
      × (map (λ p. p.1) payload ≡ resolve_host_addresses h)
unfolding host_payload
host_payload_lem h = elim (Bool-cases (addresses_from_nodes h)) [
  | inl e ↦
      rw e (zip_strict-ok (resolve_host_node_ids h) (resolve_host_addresses h) (length-resolve h e))
  | inr e ↦
      rw e
        (map (λ a. (none, a)) (resolve_host_addresses h), refl, snd-none (resolve_host_addresses h))
]

snapshot_of-ok :
    (epoch : ℕ) (e : Entry)
    → (s : Snapshot) × (snapshot_of epoch e ≡ ok s) × (s.epoch_index ≡ epoch) × (s.host_id ≡ e.id)
unfolding snapshot_of
snapshot_of-ok epoch e = elim (Bool-cases e.composite) [
  | inl c ↦ rw c (_, refl, refl, refl)
  | inr c ↦ let p = host_payload_lem e.host in rw c (rw p.1 (_, refl, refl, refl))
]

find-append :
    (d h : ℕ) (s x : Snapshot) (table : List Snapshot)
    → find d h table ≡ some s
    → find d h (table ++ (x ∷ [])) ≡ some s
find-append d h s x [] e = ground (arith, e)
find-append d h s x (t ∷ table) e = ground (arith, find-append d h s x table, e)

write-keeps :
    (d h : ℕ) (s x : Snapshot) (table : List Snapshot)
    → find d h table ≡ some s
    → find d h (write_host_composition_snapshot x table) ≡ some s
unfolding write_host_composition_snapshot
write-keeps d h s x table e = elim (Bool-cases (any (is_snapshot x.epoch_index x.host_id) table)) [
  | inl there ↦ rw there e
  | inr free ↦ rw free (find-append d h s x table e)
]

find-any :
    (d h : ℕ) (table : List Snapshot) → is_some (find d h table) ≡ any (is_snapshot d h) table
find-any d h [] = refl
find-any d h (t ∷ table) = ground (arith, find-any d h table)

write-adds :
    (x : Snapshot) (table : List Snapshot)
    → is_some (find x.epoch_index x.host_id (write_host_composition_snapshot x table)) ≡ true
unfolding write_host_composition_snapshot
write-adds x table = elim (Bool-cases (any (is_snapshot x.epoch_index x.host_id) table)) [
  | inl there ↦ rw there (find-any x.epoch_index x.host_id table ∙ there)
  | inr free ↦ rw free (
      find-any x.epoch_index x.host_id (table ++ (x ∷ []))
      ∙ any-append (is_snapshot x.epoch_index x.host_id) table (x ∷ [])
      ∙ rw free (ground (arith, ==_refl x.epoch_index, ==_refl x.host_id)))
]

find-prune :
    (epoch days d h : ℕ) (table : List Snapshot)
    → find d h (prune_host_composition_snapshots epoch days table)
      ≡ (if ltb (d + days) epoch then none else find d h table)
unfolding prune_host_composition_snapshots
find-prune epoch days d h [] = ground arith
find-prune epoch days d h (t ∷ table) = ground (arith, find-prune epoch days d h table)

kept :
    (d h : ℕ) (table after : List Snapshot)
    → ((s : Snapshot) → find d h table ≡ some s → find d h after ≡ some s)
    → is_some (find d h table) ≡ true
    → is_some (find d h after) ≡ true
kept d h table after f e = elim (Option-cases (find d h table)) [
  | inl missing ↦ absurd (no_some (find d h table) missing e)
  | inr there ↦ ap is_some (f there.0 there.1)
]
  where
    no_some : (o : Option Snapshot) → o ≡ none → is_some o ≡ true → ⊥
    no_some none p q = ground arith
    no_some (some s) p q = ground arith

module _ (epoch : ℕ) where
  -- the table after the entries are written
  abbrev IsWritten : List Entry → List Snapshot → List Snapshot → Type 0
  IsWritten es table after =
      ((d h : ℕ) (s : Snapshot) → find d h table ≡ some s → find d h after ≡ some s)
      × All (λ e. is_some (find epoch e.id after) ≡ true) es

  write_all-IsWritten :
      (es : List Entry) (table : List Snapshot)
      → (after : List Snapshot) × (write_all epoch es table ≡ ok after) × IsWritten es table after
  unfolding write_all
  write_all-IsWritten [] table = (table, refl, ((λ d h s e. e), tt))
  write_all-IsWritten (e ∷ es) table =
      let w = snapshot_of-ok epoch e in
      let x = w.0 in
      let next = write_host_composition_snapshot x table in
      let rest = write_all-IsWritten es next in
      let added : is_some (find epoch e.id next) ≡ true =
        subst (λ i. is_some (find epoch i next) ≡ true) w.3
          (subst (λ d. is_some (find d x.host_id next) ≡ true) w.2 (write-adds x table)) in
      (
        rest.0,
        rw w.1 rest.1,
        (
          (λ d h s eq. rest.2.0 d h s (write-keeps d h s x table eq)),
          (kept epoch e.id next rest.0 (rest.2.0 epoch e.id) added, rest.2.1),
        ),
      )

  still :
      (es : List Entry) (after : List Snapshot)
      → All (λ e. is_some (find epoch e.id after) ≡ true) es
      → All
          (λ e. is_some (find epoch e.id (prune_host_composition_snapshots epoch 90 after)) ≡ true)
          es
  still [] after h = tt
  still (e ∷ es) after h =
      (ap is_some (find-prune epoch 90 epoch e.id after ∙ ground arith) ∙ h.0, still es after h.1)

  -- A pass of the job succeeds. It never rewrites what is recorded of a day, its own included, and drops only days of more
  -- than 90 days ago; after it, each enabled host has a record of the day.
  pub snapshot_host_composition_lem :
      (hosts : List Entry) (table : List Snapshot)
      → (after : List Snapshot) × (snapshot_host_composition epoch hosts table ≡ ok after)
        × ((d h : ℕ) (s : Snapshot)
            → find d h table ≡ some s
            → epoch ≤ d + 90
            → find d h after ≡ some s)
        × ((d h : ℕ) → d + 90 < epoch → find d h after ≡ none)
        × All (λ e. is_some (find epoch e.id after) ≡ true) (filter (λ e. not e.is_disabled) hosts)
  unfolding snapshot_host_composition
  snapshot_host_composition_lem hosts table =
      let w = write_all-IsWritten (filter (λ e. not e.is_disabled) hosts) table in
      let pruned = prune_host_composition_snapshots epoch 90 w.0 in
      (
        pruned,
        rw w.1 refl,
        (λ d h s e young. find-prune epoch 90 d h w.0 ∙ rw (w.2.0 d h s e) (ground (arith, young))),
        (λ d h old. find-prune epoch 90 d h w.0 ∙ ground (arith, old)),
        still (filter (λ e. not e.is_disabled) hosts) w.0 w.2.1,
      )
