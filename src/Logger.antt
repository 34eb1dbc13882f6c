-- ===== src/Logger.antt =====
-- PacketForge_V1: include/common/logger.hpp and src/common/logger.cpp. The two streams are the bytes
-- written to them so far; the C++ library's formatting of a text is the text.
use thread_pool.Base.{ℕ, List, [], ◌∷◌, ◌++◌, codes, ◌≡◌, ◌∙◌, sym, append_assoc, append-nil}

pub data LogLevel : Type 0 where
  debug_level : LogLevel
  info_level : LogLevel
  warning_level : LogLevel
  error_level : LogLevel

-- std::cout and std::cerr.
pub record Console : Type 0 where
  pub cout : List ℕ
  pub cerr : List ℕ

abbrev pub to_string : LogLevel → List ℕ
to_string debug_level = codes "DEBUG"
to_string info_level = codes "INFO"
to_string warning_level = codes "WARNING"
to_string error_level = codes "ERROR"

abbrev pub line : LogLevel → List ℕ → List ℕ
line level message = codes "[" ++ (to_string level ++ (codes "] " ++ (message ++ codes "\n")))

unfoldable pub log : LogLevel → List ℕ → Console → Console
log error_level message c = record c { cerr = c.cerr ++ line error_level message }
log level message c = record c { cout = c.cout ++ line level message }

abbrev pub debug : List ℕ → Console → Console
debug message = log debug_level message

abbrev pub info : List ℕ → Console → Console
info message = log info_level message

abbrev pub warning : List ℕ → Console → Console
warning message = log warning_level message

abbrev pub error : List ℕ → Console → Console
error message = log error_level message

-- What a sequence of calls writes.
unfoldable pub log_all : List (LogLevel × List ℕ) → Console → Console
log_all [] c = c
log_all ((level, message) ∷ calls) c = log_all calls (log level message c)

-- The lines of the errors among the calls, and those of the others.
abbrev pub error_lines : List (LogLevel × List ℕ) → List ℕ
error_lines [] = []
error_lines ((error_level, message) ∷ calls) = line error_level message ++ error_lines calls
error_lines ((_, message) ∷ calls) = error_lines calls

abbrev pub other_lines : List (LogLevel × List ℕ) → List ℕ
other_lines [] = []
other_lines ((error_level, message) ∷ calls) = other_lines calls
other_lines ((level, message) ∷ calls) = line level message ++ other_lines calls

-- A sequence of calls appends the lines of its errors to std::cerr and the other lines to std::cout, each
-- in the order of the calls.
pub log_all-lines :
    (calls : List (LogLevel × List ℕ)) (c : Console)
    → ((log_all calls c).cerr ≡ c.cerr ++ error_lines calls)
      × ((log_all calls c).cout ≡ c.cout ++ other_lines calls)
unfolding log_all log
log_all-lines [] c = (sym (append-nil c.cerr), sym (append-nil c.cout))
log_all-lines ((debug_level, message) ∷ calls) c =
    let (e, o) = log_all-lines calls (log debug_level message c) in
    (e, o ∙ append_assoc c.cout (line debug_level message) (other_lines calls))
log_all-lines ((info_level, message) ∷ calls) c =
    let (e, o) = log_all-lines calls (log info_level message c) in
    (e, o ∙ append_assoc c.cout (line info_level message) (other_lines calls))
log_all-lines ((warning_level, message) ∷ calls) c =
    let (e, o) = log_all-lines calls (log warning_level message c) in
    (e, o ∙ append_assoc c.cout (line warning_level message) (other_lines calls))
log_all-lines ((error_level, message) ∷ calls) c =
    let (e, o) = log_all-lines calls (log error_level message c) in
    (e ∙ append_assoc c.cerr (line error_level message) (error_lines calls), o)
