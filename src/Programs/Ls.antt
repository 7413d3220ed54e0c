-- ===== src/Programs/Ls.antt =====
-- ls prints the names of a directory.
use martian_os.Prelude.{List}
