-- ===== src/Logger.antt =====
-- server/logger/logger.go and orchestrator/logger/logger.go, which are the same text. The answers of
-- the operating system are arguments, and so is what the package log puts in front of an entry.
pub mod Sizes
pub mod Levels
use orbstrike.Common.{
  ℕ, suc, ◌+◌, ◌-◌, ◌*◌, Bool, true, false, ◌&&◌, List, [], ◌∷◌, ◌++◌, Option, none, some, Text,
  codes, ℤ, pos, negsuc, int64, ltb_ℤ, leb, length, strip_prefix, format_int, if◌then◌else◌,
}

-- An error of each call, `none` where it succeeds.
pub record FileAnswers : Type 0 where
  pub open_file : Option Text
  pub stat : Option Text
  pub truncate : Option Text
  pub seek : Option Text

pub record LogFile : Type 0 where
  pub content : Text
  pub closed : Bool

-- int64(maxLogSize)*1024
unfoldable pub limit : ℤ → ℤ
limit (pos n) = int64 (pos (n * 1024))
limit (negsuc n) = int64 (negsuc (suc n * 1024 - 1))

abbrev close : LogFile → LogFile
close f = record f { closed = true }

-- An error closes the file.
unfoldable pub clear_log : FileAnswers → ℤ → LogFile → Option Text × LogFile
unfolding limit
clear_log a max_log_size f = elim a.stat [
  | some e ↦ (some e, close f)
  | none ↦
      if ltb_ℤ (limit max_log_size) (pos (length f.content))
      then elim a.truncate [
        | some e ↦ (some e, close f)
        | none ↦
            let g = record f { content = [] } in
            elim a.seek [ some e ↦ (some e, close g) | none ↦ (none, g) ]
      ]
      else (none, f)
]

-- The package's variables, and whether entries go to the console too.
pub record Logger : Type 0 where
  pub error : Bool
  pub warning : Bool
  pub information : Bool
  pub console : Bool
  pub file : LogFile
  pub shown : Text

-- strings.ToUpper on ASCII
abbrev pub upper : Text → Text
upper [] = []
upper (c ∷ s) = (if leb b'a' c && leb c b'z' then c - 32 else c) ∷ upper s

-- strings.Contains
unfoldable pub contains_text : Text → Text → Bool
unfolding strip_prefix
contains_text [] sub = elim (strip_prefix sub []) [ none ↦ false | some rest ↦ true ]
contains_text (c ∷ s) sub =
    let later = contains_text s sub in
    elim (strip_prefix sub (c ∷ s)) [ none ↦ later | some rest ↦ true ]

-- `file` is the file as it is found.
unfoldable pub init_logger : FileAnswers → LogFile → Text → ℤ → Bool → Logger → Option Text × Logger
unfolding clear_log contains_text
init_logger a file loglevel maxlogsize logconsole l = elim a.open_file [
  | some e ↦ (some e, l)
  | none ↦
      let (err, f) = clear_log a maxlogsize file in
      elim err [
        | some e ↦ (some e, l)
        | none ↦ (
          none,
          record l {
            error = contains_text (upper loglevel) (codes "ERROR");
            warning = contains_text (upper loglevel) (codes "WARNING");
            information = contains_text (upper loglevel) (codes "INFORMATION");
            console = logconsole;
            file = f;
          },
        )
      ]
]

-- log.Printf, to the file and, with `logconsole`, to the standard output first.
unfoldable pub print_entry : Text → Logger → Logger
print_entry entry l = record l {
  file = record (l.file) { content = l.file.content ++ entry };
  shown = if l.console then l.shown ++ entry else l.shown;
}

abbrev newline : Text
newline = 10 ∷ []

-- runtime.Caller(1): the base name of the file and the line, `none` where it is not known.
abbrev pub Caller : Type 0
Caller = Option (Text × ℤ)

unfoldable pub caller_line : Caller → Text
caller_line none = newline
caller_line (some (file, line)) =
    newline
    ++ (codes "(file: " ++ (file ++ (codes ", line: " ++ (format_int line ++ codes ")"))))
    ++ newline

-- `stamp` is the date in front of an entry, `message` the formatted text or the error.
unfoldable pub write_information : (stamp message : Text) → Logger → Logger
unfolding print_entry
write_information stamp message l =
    if l.information
    then print_entry
        (stamp
          ++ (newline
              ++ (codes "[ ORBSTRIKE Information ]:"
                  ++ (newline ++ (message ++ (newline ++ newline))))))
        l
    else l

unfoldable pub write_warning : Text → Caller → Text → Logger → Logger
unfolding print_entry caller_line
write_warning stamp caller err l =
    if l.warning
    then print_entry
        (stamp
          ++ (newline
              ++ (codes "[ ORBSTRIKE Warning ]:"
                  ++ (newline ++ (err ++ (caller_line caller ++ newline))))))
        l
    else l

unfoldable pub write_err : Text → Caller → Text → Logger → Logger
unfolding print_entry caller_line
write_err stamp caller err l =
    if l.error
    then print_entry
        (stamp
          ++ (newline
              ++ (codes "[ ORBSTRIKE Panic ]:"
                  ++ (newline ++ (err ++ (caller_line caller ++ newline))))))
        l
    else l
