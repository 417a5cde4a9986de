-- ===== src/Prelude/Names.antt =====
-- Texts as names: their test of equality, Python's `set` and `dict` over them.
use mathlib.Core.Path.{◌≡◌, refl, ◌∙◌}
use mathlib.Core.Logic.{◌≢◌, inl, inr}
use mathlib.Core.Bool.{Bool, true, false, ◌||◌}
use mathlib.Core.Option.{Option, none, some}
use mathlib.Core.List.{List, [], ◌∷◌, ◌++◌, map}
use Prim.Native.String.{String, ◌++◌ as text_append}
use native.Mathlib.Omega.{arith}
use text.Mathlib.Text.{◌==◌ as str_eq}
use text.Mathlib.TextEquality.{eq_iff}
use text.Mathlib.TextLemmas.{cons-append, append_cancel_left}
use vpn_panel.Prelude.Text.{truthy_text}
use vpn_panel.Prelude.Tests.{if◌then◌else◌, Bool-cases}

pub str_eq_refl : (s : String) → str_eq s s ≡ true
str_eq_refl s = ground (arith, eq_iff s s)

pub str_eq→≡ : (s t : String) → str_eq s t ≡ true → s ≡ t
str_eq→≡ s t e = ground (arith, eq_iff s t)

pub str_eq-false : (s t : String) → s ≢ t → str_eq s t ≡ false
str_eq-false s t apart = ground (arith, eq_iff s t)

pub str_eq_sym : (s t : String) → str_eq s t ≡ str_eq t s
str_eq_sym s t = ground (arith, eq_iff s t, eq_iff t s)

pub truthy_text-append :
    (prefix s : String)
    → truthy_text (some prefix) ≡ true
    → truthy_text (some (text_append prefix s)) ≡ true
truthy_text-append String.[] s h = ground (arith, h)
truthy_text-append (String.◌∷◌ c prefix) s h = rw (cons-append c prefix s) refl

-- Texts with the same prefix are compared by what follows it.
pub str_eq-append :
    (prefix s t : String) → str_eq (text_append prefix s) (text_append prefix t) ≡ str_eq s t
str_eq-append prefix s t = elim (Bool-cases (str_eq s t)) [
  | inl same ↦ rw (str_eq→≡ s t same, str_eq_refl t, str_eq_refl (text_append prefix t)) refl
  | inr other ↦ rw other (
      str_eq-false (text_append prefix s) (text_append prefix t)
        λ e. ground (arith, append_cancel_left prefix s t e, other, str_eq_refl t))
]

-- `name in names`
unfoldable pub text_in : String → List String → Bool
text_in name [] = false
text_in name (other ∷ names) = str_eq other name || text_in name names

pub text_in-append :
    (name : String) (xs ys : List String)
    → text_in name (xs ++ ys) ≡ (text_in name xs || text_in name ys)
unfolding text_in
text_in-append name [] ys = refl
text_in-append name (x ∷ xs) ys = ground (arith, text_in-append name xs ys)

-- every name once
abbrev pub AreDistinct : List String → Type 0
AreDistinct [] = Unit
AreDistinct (name ∷ names) = (text_in name names ≡ false) × AreDistinct names

module _ {ℓ} {V : Type ℓ} where
  -- d.get(k), with texts for keys
  unfoldable pub get_named : String → List (String × V) → Option V
  get_named k [] = none
  get_named k ((j, v) ∷ d) = if str_eq j k then some v else get_named k d

  -- d.setdefault(k, v)
  unfoldable pub set_default : String → V → List (String × V) → List (String × V)
  set_default k v [] = (k, v) ∷ []
  set_default k v ((j, w) ∷ d) =
      let rest = set_default k v d in if str_eq j k then (j, w) ∷ d else (j, w) ∷ rest

  -- d.setdefault(k, []).append(v)
  unfoldable pub append_to : String → V → List (String × List V) → List (String × List V)
  append_to k v [] = (k, v ∷ []) ∷ []
  append_to k v ((j, vs) ∷ d) =
      let rest = append_to k v d in if str_eq j k then (j, vs ++ (v ∷ [])) ∷ d else (j, vs) ∷ rest

abbrev pub names_of {ℓ} : {V : Type ℓ} → List (String × V) → List String
names_of = map (λ entry. entry.0)

pub text_in-append_to {ℓ} :
    {V : Type ℓ} (name k : String) (v : V) (d : List (String × List V))
    → text_in name (names_of (append_to k v d)) ≡ (str_eq k name || text_in name (names_of d))
unfolding text_in append_to
text_in-append_to name k v [] = refl
text_in-append_to name k v ((j, vs) ∷ d) = elim (Bool-cases (str_eq j k)) [
  | inl same ↦ rw (same, str_eq→≡ j k same) (ground arith)
  | inr other ↦ rw other (ground (arith, text_in-append_to name k v d))
]

pub append_to-AreDistinct {ℓ} :
    {V : Type ℓ} (k : String) (v : V) (d : List (String × List V))
    → AreDistinct (names_of d)
    → AreDistinct (names_of (append_to k v d))
unfolding text_in append_to
append_to-AreDistinct k v [] once = (refl, tt)
append_to-AreDistinct k v ((j, vs) ∷ d) once = elim (Bool-cases (str_eq j k)) [
  | inl same ↦ rw same once
  | inr other ↦ rw other (
    text_in-append_to j k v d ∙ rw (str_eq_sym k j, other, once.0) refl,
    append_to-AreDistinct k v d once.1,
  )
]
