-- ===== src/Authkeys/Path.antt =====
-- `default_path` of src/authkeys.rs, on paths as they are displayed.
use mpx_cli.Prelude.{Bool, true, Option, [], ◌∷◌, ◌++◌, ◌==◌, unwrap_or, if◌then◌else◌}
use mpx_cli.Text.Utf8.{Text}
use mpx_cli.Text.Codes.{codes}

-- `Path::join` of a relative path: a separator stands between the two, unless one is there already or
-- the first path is empty.
abbrev ends_open : Text → Bool
ends_open [] = true
ends_open (c ∷ []) = c == b'/'
ends_open (c ∷ d ∷ s) = ends_open (d ∷ s)

unfoldable pub join_path : Text → Text → Text
join_path path name = if ends_open path then path ++ name else path ++ (b'/' ∷ name)

-- `default_path`, given the variable HOME.
unfoldable pub default_path : Option Text → Text
unfolding join_path
default_path home =
    join_path (join_path (unwrap_or home (codes ".")) (codes ".ssh")) (codes "authorized_keys")
