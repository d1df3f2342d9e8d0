-- ===== src/Frame/Shown.antt =====
-- The text of a `FrameError` of src/frame.rs, and how an error of a stream becomes one.
use mpx_cli.Prelude.{◌++◌}
use mpx_cli.Text.Utf8.{Text}
use mpx_cli.Text.Codes.{codes}
use mpx_cli.Util.Console.{decimal}
use mpx_cli.Frame.Io.{IoError, FrameError, io, too_large, crypto, malformed}

-- `fmt`, given the text of an error of the stream.
unfoldable pub fmt : (IoError → Text) → FrameError → Text
fmt error_text (io e) = codes "connection error: " ++ error_text e
fmt error_text (too_large n) = codes "oversized frame (" ++ (decimal n ++ codes " bytes)")
fmt error_text crypto = codes "frame failed authentication"
fmt error_text malformed = codes "malformed frame"

-- `from`
abbrev pub from : IoError → FrameError
from e = io e
