-- ===== src/Xray/Inbounds/Laws.antt =====
-- The inbounds and clients that are left in the configuration of a node.
use vpn_panel.Prelude.{
  ==_iff, &&_split, Pairs, subst, ℕ, ◌+◌, ◌-◌, ◌*◌, String, ◌≡◌, refl, sym, ap, ◌∙◌, inl, inr, true,
  ◌&&◌, ◌||◌, not, Option, none, some, List, [], ◌∷◌, map, arith, ◌==◌, Bool-cases, filter, All,
  contains,
}
use Prim.Native.Char.{Char, char, code}
use Prim.Native.String.{◌++◌ as text_append}
use text.Mathlib.TextLemmas.{nil-append, cons-append, append_assoc}
use vpn_panel.Addresses.Texts.{show_ℕ}
use vpn_panel.Addresses.Texts.Digits.{value, digits_only, IsShown, value-show_ℕ, digits_only-show_ℕ}
use vpn_panel.Xray.{Client, InboundSettings, Inbound, XrayConfig}
use vpn_panel.Xray.Cascade.{clients_of}
use vpn_panel.Xray.Inbounds.{
  starts_with, email_prefix, is_blocked_client, keep_unblocked, strip_clients,
  strip_blocked_clients,
}

starts-cons :
    (c : Char) (s : String) (d : Char) (t rest more : String)
    → starts_with (text_append (String.◌∷◌ c s) rest) (text_append (String.◌∷◌ d t) more)
      ≡ (code c == code d && starts_with (text_append s rest) (text_append t more))
unfolding starts_with
starts-cons c s d t rest more = rw (cons-append c s rest, cons-append d t more) refl

starts-dot :
    (d : Char) (t more : String)
    → starts_with (text_append "" ".") (text_append (String.◌∷◌ d t) more) ≡ (46 == code d && true)
unfolding starts_with
starts-dot d t more = rw (nil-append ".", cons-append d t more) refl

ends-dot :
    (c : Char) (s rest name : String)
    → starts_with (text_append (String.◌∷◌ c s) rest) (text_append "" (text_append "." name))
      ≡ (code c == 46 && starts_with (text_append s rest) (text_append "" name))
unfolding starts_with
ends-dot c s rest name =
    rw (cons-append c s rest, nil-append (text_append "." name), cons-append (char 46 tt) "" name)
      refl

-- Two runs of digits that are followed by a dot: one text is the other's beginning only where they are the
-- same number.
starts_with-digits :
    (s t name : String) (read : ℕ)
    → digits_only s ≡ true
    → digits_only t ≡ true
    → starts_with (text_append s ".") (text_append t (text_append "." name)) ≡ true
    → value read s ≡ value read t
unfolding starts_with digits_only value
starts_with-digits String.[] String.[] name read hs ht h = refl
starts_with-digits String.[] (String.◌∷◌ d t) name read hs ht h =
    ground (arith, h, ht, starts-dot d t (text_append "." name))
starts_with-digits (String.◌∷◌ c s) String.[] name read hs ht h =
    ground (arith, h, hs, ends-dot c s "." name)
starts_with-digits (String.◌∷◌ c s) (String.◌∷◌ d t) name read hs ht h =
    let e = starts-cons c s d t "." (text_append "." name) in
    let both = &&_split (code c == code d) _ (sym e ∙ h) in
    let same = (==_iff (code c) (code d)).0 both.0 in
    starts_with-digits s t name (10 * read + (code c - 48)) (ground (arith, hs))
      (ground (arith, ht)) both.1
    ∙ ap (λ n. value (10 * read + (n - 48)) t) same

starts_with-append : (s t : String) → starts_with s (text_append s t) ≡ true
unfolding starts_with
starts_with-append String.[] t = refl
starts_with-append (String.◌∷◌ c s) t =
    rw (cons-append c s t) (ground (arith, starts_with-append s t))

-- the email of a client: its user's id and name
abbrev pub email_of : ℕ → String → String
email_of uid name = text_append (show_ℕ uid) (text_append "." name)

starts_with-own :
    (uid : ℕ) (name : String) → starts_with (email_prefix uid) (email_of uid name) ≡ true
unfolding email_prefix
starts_with-own uid name =
    rw (sym (append_assoc (show_ℕ uid) "." name))
      (starts_with-append (text_append (show_ℕ uid) ".") name)

-- A prefix is that of the client's own user, and of no other.
starts_with-email :
    (uid other : ℕ) (name : String)
    → IsShown uid
    → IsShown other
    → starts_with (email_prefix uid) (email_of other name) ≡ (uid == other)
unfolding email_prefix
starts_with-email uid other name short short_other = elim (Bool-cases (uid == other)) [
  | inl same ↦
      let e = (==_iff uid other).0 same in
      rw same (
        subst (λ n. starts_with (email_prefix n) (email_of other name) ≡ true) (sym e)
          (starts_with-own other name))
  | inr apart ↦ elim (Bool-cases (starts_with (email_prefix uid) (email_of other name))) [
    | inl begins ↦
        let e =
          starts_with-digits (show_ℕ uid) (show_ℕ other) name 0 (digits_only-show_ℕ uid)
            (digits_only-show_ℕ other) begins in
        ground (arith, apart, e, value-show_ℕ uid short, value-show_ℕ other short_other)
    | inr differs ↦ rw apart differs
  ]
]

-- a client of a user: with the id of the proxy
abbrev pub client_of : ℕ × (String × String) → Client
client_of (uid, (name, id)) = record { id = some id; flow = none; email = some (email_of uid name) }

is_blocked-client_of :
    (uids : List ℕ) (uid : ℕ) (rest : String × String)
    → All IsShown uids
    → IsShown uid
    → is_blocked_client uids (client_of (uid, rest)) ≡ contains uid uids
unfolding is_blocked_client
is_blocked-client_of [] uid (name, id) short own = refl
is_blocked-client_of (u ∷ uids) uid (name, id) short own =
    rw (starts_with-email u uid name short.0 own)
      (ap (λ b. (u == uid) || b) (is_blocked-client_of uids uid (name, id) short.1 own))

-- an inbound with these settings
abbrev with_settings : Inbound → Option InboundSettings → Inbound
with_settings inbound settings = record inbound { settings = settings }

clients_of-strip_listed :
    (uids : List ℕ) (inbound : Inbound) (settings : InboundSettings)
    (clients : Option (List Client))
    → let listed = with_settings inbound (some (record settings { clients = clients })) in
      clients_of (strip_clients uids listed)
      ≡ filter (λ c. not (is_blocked_client uids c)) (clients_of listed)
unfolding strip_clients keep_unblocked clients_of
clients_of-strip_listed uids inbound settings none = refl
clients_of-strip_listed uids inbound settings (some []) = refl
clients_of-strip_listed uids inbound settings (some (c ∷ cs)) = refl

clients_of-strip_set :
    (uids : List ℕ) (inbound : Inbound) (settings : Option InboundSettings)
    → let set = with_settings inbound settings in
      clients_of (strip_clients uids set)
      ≡ filter (λ c. not (is_blocked_client uids c)) (clients_of set)
unfolding strip_clients clients_of
clients_of-strip_set uids inbound none = refl
clients_of-strip_set uids inbound (some settings) =
    clients_of-strip_listed uids inbound settings settings.clients

-- Of the clients of an inbound those are left that are not blocked, in their order.
clients_of-strip_clients :
    (uids : List ℕ) (inbound : Inbound)
    → clients_of (strip_clients uids inbound)
      ≡ filter (λ c. not (is_blocked_client uids c)) (clients_of inbound)
clients_of-strip_clients uids inbound = clients_of-strip_set uids inbound inbound.settings

-- an inbound serves these users: their ids, names and proxy ids
abbrev pub ServesUsers : List (ℕ × (String × String)) → Inbound → Type 0
ServesUsers users inbound = clients_of inbound ≡ map client_of users

-- the users who are not blocked
abbrev pub unblocked : List ℕ → List (ℕ × (String × String)) → List (ℕ × (String × String))
unblocked uids = filter (λ u. not (contains u.0 uids))

filter-client_of :
    (uids : List ℕ) (users : List (ℕ × (String × String)))
    → All IsShown uids
    → All (λ u. IsShown u.0) users
    → filter (λ c. not (is_blocked_client uids c)) (map client_of users)
      ≡ map client_of (unblocked uids users)
filter-client_of uids [] short own = refl
filter-client_of uids ((uid, rest) ∷ users) short own =
    rw (is_blocked-client_of uids uid rest short own.0, filter-client_of uids users short own.1)
      (elim (Bool-cases (contains uid uids)) [ inl e ↦ rw e refl | inr e ↦ rw e refl ])

strip-ServesUsers :
    (uids : List ℕ) (served : List (List (ℕ × (String × String)))) (inbounds : List Inbound)
    → All IsShown uids
    → All (λ users. All (λ u. IsShown u.0) users) served
    → Pairs ServesUsers served inbounds
    → Pairs (λ users. ServesUsers (unblocked uids users)) served (map (strip_clients uids) inbounds)
strip-ServesUsers uids [] [] short own h = tt
strip-ServesUsers uids [] (i ∷ is) short own h = elim h [ ]
strip-ServesUsers uids (us ∷ served) [] short own h = elim h [ ]
strip-ServesUsers uids (us ∷ served) (i ∷ is) short own h = (
  clients_of-strip_clients uids i
      ∙ ap (filter (λ c. not (is_blocked_client uids c))) h.0
      ∙ filter-client_of uids us short own.0,
  strip-ServesUsers uids served is short own.1 h.1,
)

unblocked-none : (users : List (ℕ × (String × String))) → unblocked [] users ≡ users
unblocked-none [] = refl
unblocked-none (u ∷ users) = ap (λ l. u ∷ l) (unblocked-none users)

same-ServesUsers :
    (served : List (List (ℕ × (String × String)))) (inbounds : List Inbound)
    → Pairs ServesUsers served inbounds
    → Pairs (λ users. ServesUsers (unblocked [] users)) served inbounds
same-ServesUsers [] [] h = tt
same-ServesUsers [] (i ∷ is) h = elim h [ ]
same-ServesUsers (us ∷ served) [] h = elim h [ ]
same-ServesUsers (us ∷ served) (i ∷ is) h =
    (h.0 ∙ ap (map client_of) (sym (unblocked-none us)), same-ServesUsers served is h.1)

-- Where every inbound serves users whose clients carry the email `<id>.<name>`, each inbound serves after the
-- removal exactly its users who are not blocked, in their order: the user 1 is not taken for the user 12.
-- The ids have at most 21 digits.
pub strip_blocked_clients_lem :
    (config : XrayConfig) (uids : List ℕ) (served : List (List (ℕ × (String × String))))
    → All IsShown uids
    → All (λ users. All (λ u. IsShown u.0) users) served
    → Pairs ServesUsers served config.inbounds
    → Pairs
        (λ users. ServesUsers (unblocked uids users))
        served
        (strip_blocked_clients config uids).inbounds
unfolding strip_blocked_clients
strip_blocked_clients_lem config [] served short own h = same-ServesUsers served config.inbounds h
strip_blocked_clients_lem config (uid ∷ uids) served short own h =
    strip-ServesUsers (uid ∷ uids) served config.inbounds short own h
