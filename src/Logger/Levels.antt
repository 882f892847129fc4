-- ===== src/Logger/Levels.antt =====
-- Which entries a logger that has started writes, and where.
use orbstrike.Common.{◌≡◌, inl, inr, none, Bool, Text, ℤ, codes, arith, Option-cases}
use orbstrike.Logger.{FileAnswers, LogFile, Logger, clear_log, contains_text, upper, init_logger}

-- The log file was opened, and the console and the levels are those of the options.
pub record Levels (a : FileAnswers) (log_options : Text) (log_stdout : Bool) (log : Logger)
    : Type 0 where
  pub opened : a.open_file ≡ none
  pub console : log.console ≡ log_stdout
  pub error : log.error ≡ contains_text (upper log_options) (codes "ERROR")
  pub warning : log.warning ≡ contains_text (upper log_options) (codes "WARNING")
  pub information : log.information ≡ contains_text (upper log_options) (codes "INFORMATION")

pub init_logger-Levels :
    (a : FileAnswers) (found : LogFile) (log_options : Text) (size : ℤ) (log_stdout : Bool)
    (logger log : Logger)
    → init_logger a found log_options size log_stdout logger ≡ (none, log)
    → Levels a log_options log_stdout log
unfolding init_logger
init_logger-Levels a found log_options size log_stdout logger log h =
    elim (Option-cases a.open_file) [
      | inr (e, q) ↦ ground arith
      | inl q ↦ elim (Option-cases (clear_log a size found).0) [
        | inr (e, w) ↦ ground arith
        | inl w ↦ record {
          opened = q;
          console = ground arith;
          error = ground arith;
          warning = ground arith;
          information = ground arith;
        }
      ]
    ]
