-- ===== src/Host/Canned.antt =====
-- A host for tests: the world is the list of the answers that `gh` will give, and `json.loads` knows
-- a table of texts.
use chromium_compile.Prelude.{String, Option, none, some, List, [], ◌∷◌, ◌==◌, if◌then◌else◌}
use chromium_compile.Result.{raise, type_error}
use chromium_compile.Json.{Json}
use chromium_compile.Host.{Host, Ended, exited, timed_out, Moment, aware, State}

abbrev pub find_json : List (String × Json) → String → Option Json
find_json [] s = none
find_json ((t, j) ∷ table) s = if t == s then some j else find_json table s

abbrev answer : List Ended → Ended × List Ended
answer [] = (timed_out, [])
answer (e ∷ es) = (e, es)

abbrev pub canned : List (String × Json) → Host
canned table = record {
  World = List Ended;
  gh = λ args timeout w. answer w;
  sleep = λ n w. w;
  now = λ w. (1000000000, w);
  loads = find_json table;
  repr = λ j. "?";
  from_iso = λ s.
      if s == "naive"
      then some (Moment.naive 5)
      else if s == "now"
      then some (aware 1000000000)
      else none;
  to_iso = λ n. "then";
  int_positive = λ j. raise type_error "int";
  int_text = λ j. none;
  sha256 = λ s. s;
  quote = λ s. s;
  urlencode = λ ps. "query";
}

-- A process that ends well with this output
abbrev pub out : String → Ended
out s = exited (record { returncode = 0; stdout = s; stderr = "" })

abbrev pub failed : String → Ended
failed s = exited (record { returncode = 1; stdout = ""; stderr = s })

abbrev pub start : List Ended → State (List Ended)
start w = record { world = w; calls = [] }
