-- ===== src/Prelude/Text.antt =====
-- What the program does with texts: truth value, `x or y`, and `strip`.
use Prim.Native.Char.{Char, code}
use Prim.Native.String.{String}
use mathlib.Core.Bool.{Bool, true, false, ◌&&◌, ◌||◌}
use mathlib.Core.Option.{Option, none, some}
use text.Mathlib.Text.{◌==◌ as str_eq}
use vpn_panel.Prelude.Tests.{if◌then◌else◌, leb, ◌==◌}

-- `bool(x)` of a `str | None`
abbrev pub truthy_text : Option String → Bool
truthy_text none = false
truthy_text (some String.[]) = false
truthy_text (some (String.◌∷◌ c s)) = true

-- `x or y`
abbrev pub or_text : Option String → Option String → Option String
or_text x y = if truthy_text x then x else y

-- the characters that `str.strip` drops
is_space : Char → Bool
is_space c =
    let n = code c in
    (leb 9 n && leb n 13)
    || (leb 28 n && leb n 32)
    || n == 0x85
    || n == 0xa0
    || n == 0x1680
    || (leb 0x2000 n && leb n 0x200a)
    || n == 0x2028
    || n == 0x2029
    || n == 0x202f
    || n == 0x205f
    || n == 0x3000

lstrip : String → String
lstrip String.[] = ""
lstrip (String.◌∷◌ c s) = let rest = lstrip s in if is_space c then rest else String.◌∷◌ c s

rstrip : String → String
rstrip String.[] = ""
rstrip (String.◌∷◌ c s) =
    let rest = rstrip s in if is_space c && str_eq rest "" then "" else String.◌∷◌ c rest

unfoldable pub strip : String → String
unfolding is_space lstrip rstrip
strip s = rstrip (lstrip s)
