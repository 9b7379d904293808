-- ===== src/Token/Keywords/Check.antt =====
-- `check_keyword` of src/frontend/lexer.c.
use scorivm.Base.Lists.{drop, length}
use scorivm.Base.Logic.{Bytes, bytes_eq, ◌==◌, if◌then◌else◌}
use scorivm.Base.{ℕ, ◌+◌, ◌&&◌}
use scorivm.Token.{TokenKind, tk_identifier}

pub check_keyword : Bytes → ℕ → ℕ → Bytes → TokenKind → TokenKind
check_keyword w start_col len rest k =
    if length w == start_col + len && bytes_eq (drop start_col w) rest then k else tk_identifier
