-- ===== src/Cli/Output.antt =====
-- internal/cli/output: the styled lines and the JSON texts, and what a command writes.
use agentic_tenancy.Base.{
  String, ◌<>◌, Bool, List, ◌++◌, Error, Result, ok, err, Action, if◌then◌else◌,
}

-- One line, and the file that it goes to. The writer of a cobra command is the standard one.
pub data Line : Type 0 where
  to_stdout : String → Line
  to_stderr : String → Line

-- What a command has written when it returns, in order, and the error that it returns.
pub record Report : Type 0 where
  pub lines : List Line
  pub ended : Result (Unit {0})

abbrev pub done : List Line → Report
done ls = record { lines = ls; ended = ok tt }

abbrev pub failed : List Line → Error → Report
failed ls e = record { lines = ls; ended = err e }

-- Lines written before the rest of the command runs.
abbrev pub after_lines : {W : Type 0} → List Line → Action W Report → Action W Report
after_lines ls rest w =
    let (r, w') = rest w in (record { lines = ls ++ r.lines; ended = r.ended }, w')

abbrev color_reset : String
color_reset = "\u{1b}[0m"

abbrev color_red : String
color_red = "\u{1b}[0;31m"

abbrev color_green : String
color_green = "\u{1b}[0;32m"

abbrev color_yellow : String
color_yellow = "\u{1b}[1;33m"

abbrev color_cyan : String
color_cyan = "\u{1b}[0;36m"

-- `Styler`, and `NewStyler` its constructor.
pub record Styler : Type 0 where
  pub no_color : Bool

abbrev pub format : Styler → String → String → String → String
format s color symbol text =
    if s.no_color then symbol <> " " <> text else color <> symbol <> color_reset <> " " <> text

abbrev pub success : Styler → String → String
success s text = format s color_green "✓" text

abbrev pub error : Styler → String → String
error s text = format s color_red "✗" text

abbrev pub info : Styler → String → String
info s text = format s color_cyan "ℹ" text

abbrev pub warn : Styler → String → String
warn s text = format s color_yellow "⚠" text

-- A line for a file.
abbrev fprint : (String → Line) → String → Line
fprint file text = file text

abbrev pub fprint_success : Styler → (String → Line) → String → Line
fprint_success s file text = fprint file (success s text)

abbrev pub fprint_error : Styler → (String → Line) → String → Line
fprint_error s file text = fprint file (error s text)

abbrev pub fprint_info : Styler → (String → Line) → String → Line
fprint_info s file text = fprint file (info s text)

abbrev fprint_warn : Styler → (String → Line) → String → Line
fprint_warn s file text = fprint file (warn s text)

abbrev pub print_success : Styler → String → Line
print_success s = fprint_success s to_stdout

abbrev pub print_error : Styler → String → Line
print_error s = fprint_error s to_stderr

abbrev pub print_info : Styler → String → Line
print_info s = fprint_info s to_stdout

abbrev pub print_warn : Styler → String → Line
print_warn s = fprint_warn s to_stdout
