-- ===== src/Terminal/Graphics.antt =====
-- guacamole/src/protocols/ssh/terminal_handlers.c: the graphics rendition that a control sequence
-- sets.
use occamy.Base.{
  ℕ, zero, suc, ◌+◌, ◌-◌, ◌==◌, ltb, leb, ◌&&◌, ◌||◌, if◌then◌else◌, Bool, true, false, none, some,
  List, [], ◌∷◌, get_elem?,
}
use occamy.Base.Int.{ℤ, pos, negsuc, leb_ℤ, equal_ℤ}
use occamy.Terminal.Char.{Color, Attributes}

-- `guac_terminal_display_lookup_color`; out of bounds, and only there, the color stays as it is.
unfoldable pub lookup_color : List Color → ℤ → Color → Color
lookup_color palette (negsuc n) color = color
lookup_color palette (pos index) color =
    if ltb 255 index
    then color
    else elim (get_elem? palette index) [ none ↦ color | some entry ↦ entry ]

abbrev is_component : ℤ → Bool
is_component n = leb_ℤ (pos 0) n && leb_ℤ n (pos 255)

abbrev component : ℤ → ℕ
component (pos n) = n
component (negsuc n) = 0

-- `guac_terminal_parse_xterm256_rgb`: how many arguments are parsed, and the color.
unfoldable pub parse_rgb : List ℤ → Color → ℕ × Color
parse_rgb (red ∷ green ∷ blue ∷ argv) color = (
  3,
  if is_component red && is_component green && is_component blue
      then record {
        palette_index = negsuc 0;
        red = component red;
        green = component green;
        blue = component blue;
      }
      else color,
)
parse_rgb _ color = (0, color)

-- `guac_terminal_parse_xterm256_index`
unfoldable pub parse_index : List Color → List ℤ → Color → ℕ × Color
parse_index palette [] color = (0, color)
parse_index palette (index ∷ argv) color = (1, lookup_color palette index color)

-- `guac_terminal_parse_xterm256`
unfoldable pub parse_xterm256 : List Color → List ℤ → Color → ℕ × Color
parse_xterm256 palette [] color = (0, color)
parse_xterm256 palette (kind ∷ argv) color =
    let (n, rgb) = parse_rgb argv color in
    let (m, entry) = parse_index palette argv color in
    if equal_ℤ kind (pos 2)
    then (n + 1, rgb)
    else if equal_ℤ kind (pos 5)
    then (m + 1, entry)
    else (0, color)

-- One argument, with those behind it: the attributes, and how many of those are used up.
unfoldable pub rendition : Attributes → List Color → ℕ → List ℤ → Attributes → ℕ × Attributes
rendition default_attributes palette value argv a =
    let (n, foreground) = parse_xterm256 palette argv a.foreground in
    let (m, background) = parse_xterm256 palette argv a.background in
    if value == 0
    then (0, default_attributes)
    else if value == 1
    then (0, record a { bold = true })
    else if value == 2
    then (0, record a { half_bright = true })
    else if value == 4
    then (0, record a { underscore = true })
    else if value == 7
    then (0, record a { reverse = true })
    else if value == 21 || value == 22
    then (0, record a { bold = false; half_bright = false })
    else if value == 24
    then (0, record a { underscore = false })
    else if value == 27
    then (0, record a { reverse = false })
    else if leb 30 value && leb value 37
    then (0, record a { foreground = lookup_color palette (pos (value - 30)) a.foreground })
    else if value == 38
    then (if ltb 0 n
        then (n, record a { foreground = foreground })
        else (0, record a { underscore = true; foreground = default_attributes.foreground }))
    else if value == 39
    then (0, record a { underscore = false; foreground = default_attributes.foreground })
    else if leb 40 value && leb value 47
    then (0, record a { background = lookup_color palette (pos (value - 40)) a.background })
    else if value == 48
    then (m, record a { background = background })
    else if value == 49
    then (0, record a { background = default_attributes.background })
    else if leb 90 value && leb value 97
    then (0, record a { foreground = lookup_color palette (pos (value - 90 + 8)) a.foreground })
    else if leb 100 value && leb value 107
    then (0, record a { background = lookup_color palette (pos (value - 100 + 8)) a.background })
    else (0, a)

-- The loop over the arguments; `skip` of them are used up. A negative one has no case.
unfoldable pub set_rendition : Attributes → List Color → ℕ → List ℤ → Attributes → Attributes
set_rendition default_attributes palette skip [] a = a
set_rendition default_attributes palette (suc skip) (value ∷ argv) a =
    set_rendition default_attributes palette skip argv a
set_rendition default_attributes palette zero (negsuc n ∷ argv) a =
    set_rendition default_attributes palette zero argv a
set_rendition default_attributes palette zero (pos value ∷ argv) a =
    let (skip, a') = rendition default_attributes palette value argv a in
    set_rendition default_attributes palette skip argv a'
