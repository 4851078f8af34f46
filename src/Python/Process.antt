-- ===== src/Python/Process.antt =====
-- What the program uses of `subprocess` and `tempfile`, with the ways in which they raise.
use tpm_attest.Prelude.{
  ℕ, Bool, true, false, not, ◌&&◌, ◌==◌, between, all, if◌then◌else◌, Text, Result, ok, raise,
  os_error, value_error,
}

-- `subprocess.run`: the program cannot be started, an OSError; with `text=True`, what it prints is not
-- UTF-8, a UnicodeDecodeError and so a ValueError; or it ends.
pub data Ran (A : Type 0) : Type 0 where
  not_started : Ran A
  not_text : Ran A
  finished : A → Ran A

unfoldable pub completed : {A : Type 0} → Ran A → Result A
completed not_started = raise os_error
completed not_text = raise value_error
completed (finished result) = ok result

-- `tempfile.mkdtemp()` and `os.chmod`: whether they succeed
unfoldable pub make_tempdir : Bool → Result (Unit {0})
make_tempdir true = ok _
make_tempdir false = raise os_error

-- A character of an argument of a program: not NUL, and no surrogate but those from U+DC80 to U+DCFF,
-- which stand for bytes.
unfoldable pub is_argument_char : ℕ → Bool
is_argument_char c = not (c == 0) && not (between 55296 56447 c) && not (between 56576 57343 c)

unfoldable pub is_argument : Text → Bool
unfolding is_argument_char
is_argument text = all is_argument_char text

-- what `subprocess.run` raises for an argument that cannot be passed
unfoldable pub check_argument : Text → Result (Unit {0})
unfolding is_argument
check_argument text = if is_argument text then ok _ else raise value_error
