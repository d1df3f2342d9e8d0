-- ===== src/Util/Tests.antt =====
-- The hexadecimal text of two bytes, and the slug of a name with signs in it.
use mpx_cli.Prelude.{◌≡◌, ◌<◌, length, refl}
use mpx_cli.Text.Codes.{codes}
use mpx_cli.Util.Slug.{
  device_slug, slug_loop, slug_step, trim_dashes_start, trim_dashes_end, is_ascii_alphanumeric,
  to_ascii_lowercase,
}
use mpx_cli.Util.Shape.{IsSlug, device_slug-IsSlug}

signs : device_slug (codes "(My) iPad!") ≡ codes "my-ipad"
unfolding device_slug slug_loop slug_step trim_dashes_start trim_dashes_end is_ascii_alphanumeric
    to_ascii_lowercase
signs = refl

device_slug-IsSlug_example :
    IsSlug (device_slug (codes "(My) iPad!")) × (0 < length (device_slug (codes "(My) iPad!")))
device_slug-IsSlug_example = device_slug-IsSlug (codes "(My) iPad!")
