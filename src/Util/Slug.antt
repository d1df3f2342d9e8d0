-- ===== src/Util/Slug.antt =====
-- `device_slug`, the part of a marker that names the device.
use mpx_cli.Prelude.{
  ℕ, ◌+◌, Bool, true, false, not, ◌&&◌, ◌||◌, [], ◌∷◌, ◌++◌, leb, ◌==◌, if◌then◌else◌, length,
}
use mpx_cli.Text.Utf8.{Text}
use mpx_cli.Text.Codes.{codes}

unfoldable pub to_ascii_lowercase : ℕ → ℕ
to_ascii_lowercase c = if leb b'A' c && leb c b'Z' then c + 32 else c

unfoldable pub is_ascii_alphanumeric : ℕ → Bool
is_ascii_alphanumeric c =
    leb b'a' c && leb c b'z' || leb b'A' c && leb c b'Z' || leb b'0' c && leb c b'9'

-- One round of the loop over the characters: the slug so far, and `last_dash`.
unfoldable pub slug_step : Text → Bool → ℕ → Text × Bool
unfolding to_ascii_lowercase is_ascii_alphanumeric
slug_step slug last_dash ch =
    let lower = to_ascii_lowercase ch in
    if is_ascii_alphanumeric lower
    then (slug ++ (lower ∷ []), false)
    else if not last_dash
    then (slug ++ (b'-' ∷ []), true)
    else (slug, last_dash)

unfoldable pub slug_loop : Text → Bool → Text → Text
unfolding slug_step
slug_loop slug last_dash [] = slug
slug_loop slug last_dash (ch ∷ rest) =
    let (slug', last_dash') = slug_step slug last_dash ch in
    let more = slug_loop slug' last_dash' rest in if leb 24 (length slug') then slug' else more

unfoldable pub trim_dashes_start : Text → Text
trim_dashes_start [] = []
trim_dashes_start (c ∷ s) = let rest = trim_dashes_start s in if c == b'-' then rest else c ∷ s

abbrev pub prepend_inked : ℕ → Text → Text
prepend_inked c [] = if c == b'-' then [] else c ∷ []
prepend_inked c (d ∷ s) = c ∷ d ∷ s

unfoldable pub trim_dashes_end : Text → Text
trim_dashes_end [] = []
trim_dashes_end (c ∷ s) = prepend_inked c (trim_dashes_end s)

abbrev pub or_device : Text → Text
or_device [] = codes "device"
or_device (c ∷ s) = c ∷ s

unfoldable pub device_slug : Text → Text
unfolding slug_loop trim_dashes_start trim_dashes_end
device_slug display = or_device (trim_dashes_start (trim_dashes_end (slug_loop [] true display)))
