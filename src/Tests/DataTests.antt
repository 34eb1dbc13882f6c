-- ===== src/Tests/DataTests.antt =====
-- Runs of the byte buffer and of the configuration's loader.
use thread_pool.Base.{ℕ, pos, negsuc, ◌≡◌, refl, List, [], ◌∷◌, some, none, arith}
use thread_pool.Buffer.{new_buffer}
use thread_pool.Buffer.Queue.{Call, writes, reads, clears, run, run_queue, unread, run-run_queue}
use thread_pool.Config.{Config, get, set, integer, string}
use thread_pool.Config.Loader.{
  trim, load, loads, refuses, malformed, lines_of, load_line, parse_value, typed_value, stoll,
}
use thread_pool.Config.Load.{RefusedAt, load-refuses}
use thread_pool.Config.Values.{last_value, load-last_value}

abbrev calls : List Call
calls = writes (1 ∷ 2 ∷ 3 ∷ []) ∷ reads 2 ∷ reads 2 ∷ clears ∷ reads 1 ∷ []

run-run_queue_example :
    ((run calls new_buffer).0 ≡ (run_queue calls []).0)
    × (unread (run calls new_buffer).1 ≡ (run_queue calls []).1)
run-run_queue_example =
    run-run_queue calls new_buffer (record { within = omega arith; room = omega arith })

queue_answers : (run_queue calls []).0 ≡ none ∷ some (1 ∷ 2 ∷ []) ∷ none ∷ none ∷ none ∷ []
queue_answers = refl

-- "p", "q", " p = 7\n#x\np=9\n" and "p=7\n q".
abbrev key_p : List ℕ
key_p = b'p' ∷ []

abbrev padded : List ℕ
padded = 0x20 ∷ b'a' ∷ 9 ∷ []

abbrev key_q : List ℕ
key_q = b'q' ∷ []

abbrev good_text : List ℕ
good_text =
    0x20 ∷ b'p' ∷ 0x20 ∷ b'=' ∷ 0x20 ∷ b'7' ∷ 10 ∷ b'#' ∷ b'x' ∷ 10 ∷ b'p' ∷ b'=' ∷ b'9' ∷ 10 ∷ []

abbrev bad_text : List ℕ
bad_text = b'p' ∷ b'=' ∷ b'7' ∷ 10 ∷ 0x20 ∷ b'q' ∷ []

abbrev loaded_config : Config
loaded_config = record { values = (key_p, integer (pos 9)) ∷ [] }

good_text_loads : load (some good_text) ≡ loads loaded_config
unfolding load load_line trim parse_value typed_value stoll set
good_text_loads = refl

bad_text_refused : load (some bad_text) ≡ refuses (malformed 2)
unfolding load load_line trim parse_value typed_value stoll set
bad_text_refused = refl

load-last_value_example : get key_p loaded_config ≡ last_value key_p (lines_of good_text)
load-last_value_example = load-last_value good_text loaded_config key_p good_text_loads

load-refuses_example : RefusedAt (lines_of bad_text) (malformed 2)
load-refuses_example = load-refuses bad_text (malformed 2) bad_text_refused

negative_number : typed_value (b'-' ∷ b'1' ∷ b'2' ∷ []) ≡ integer (negsuc 11)
unfolding typed_value stoll
negative_number = refl

no_number : typed_value (b'1' ∷ b'2' ∷ b'x' ∷ []) ≡ string (b'1' ∷ b'2' ∷ b'x' ∷ [])
unfolding typed_value stoll
no_number = refl
